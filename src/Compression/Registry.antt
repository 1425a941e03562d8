-- ===== src/Compression/Registry.antt =====
-- The named pools: a lookup finds the first compressor of that name, as the list gives preference.
use connect_go.Base.{
  ◌≡◌, refl, true, ◌||◌, List, [], ◌∷◌, ◌++◌, Option, none, some, Text, eq_text, eq_text_iff,
  if◌then◌else◌, Bool-cases, inl, inr, ap, ◌∙◌, length, ◌==◌,
}
use connect_go.Compression.{
  Compressor, lookup_pool, is_some, collect, new_pools, get, contains, identity,
}

-- The first of the listed compressors with that name.
abbrev pub first_named : Text → List Compressor → Option Compressor
first_named name [] = none
first_named name (c ∷ cs) = if eq_text c.name name then some c else first_named name cs

or_else : Option Compressor → Option Compressor → Option Compressor
or_else none o = o
or_else (some c) o = some c

lookup_pool-append :
    (name : Text) (ps qs : List (Text × Compressor))
    → lookup_pool name (ps ++ qs) ≡ or_else (lookup_pool name ps) (lookup_pool name qs)
unfolding lookup_pool or_else
lookup_pool-append name [] qs = refl
lookup_pool-append name ((n, c) ∷ ps) qs = elim (Bool-cases (eq_text n name)) [
  | inl e ↦ rw e refl
  | inr e ↦ rw e (lookup_pool-append name ps qs)
]

or_else-none : (o : Option Compressor) → or_else o none ≡ o
unfolding or_else
or_else-none none = refl
or_else-none (some c) = refl

-- A name that is there already is not looked for among the compressors that follow.
or_else_known : (o p q : Option Compressor) → is_some o ≡ true → or_else o p ≡ or_else o q
unfolding or_else
or_else_known none p q h = cc
or_else_known (some c) p q h = refl

or_else_assoc : (o p q : Option Compressor) → or_else (or_else o p) q ≡ or_else o (or_else p q)
unfolding or_else
or_else_assoc none p q = refl
or_else_assoc (some c) p q = refl

first_named-cons :
    (name : Text) (c : Compressor) (cs : List Compressor)
    → or_else (lookup_pool name ((c.name, c) ∷ [])) (first_named name cs)
      ≡ first_named name (c ∷ cs)
unfolding lookup_pool or_else
first_named-cons name c cs = elim (Bool-cases (eq_text c.name name)) [
  | inl e ↦ rw e refl
  | inr e ↦ rw e refl
]

skip_known :
    (name : Text) (kept : List (Text × Compressor)) (c : Compressor) (cs : List Compressor)
    → is_some (lookup_pool c.name kept) ≡ true
    → or_else (lookup_pool name kept) (first_named name cs)
      ≡ or_else (lookup_pool name kept) (first_named name (c ∷ cs))
skip_known name kept c cs known = elim (Bool-cases (eq_text c.name name)) [
  | inl e ↦
      or_else_known (lookup_pool name kept) (first_named name cs) (first_named name (c ∷ cs))
        (rw (ap (λ n. is_some (lookup_pool n kept)) ((eq_text_iff c.name name).0 e)) at known)
  | inr e ↦ rw e refl
]

lookup_pool-collect :
    (name : Text) (kept : List (Text × Compressor)) (cs : List Compressor)
    → lookup_pool name (collect kept cs) ≡ or_else (lookup_pool name kept) (first_named name cs)
unfolding collect
lookup_pool-collect name kept [] = rw or_else-none refl
lookup_pool-collect name kept (c ∷ cs) = elim (Bool-cases (is_some (lookup_pool c.name kept))) [
  | inl known ↦ rw known (lookup_pool-collect name kept cs ∙ skip_known name kept c cs known)
  | inr fresh ↦ rw fresh (
      lookup_pool-collect name (kept ++ (c.name, c) ∷ []) cs
      ∙ ap (λ o. or_else o (first_named name cs)) (lookup_pool-append name kept ((c.name, c) ∷ []))
      ∙ or_else_assoc (lookup_pool name kept) (lookup_pool name ((c.name, c) ∷ []))
          (first_named name cs)
      ∙ ap (or_else (lookup_pool name kept)) (first_named-cons name c cs))
]

lookup_new_pools :
    (name : Text) (cs : List Compressor)
    → lookup_pool name (new_pools cs).by_name ≡ first_named name cs
unfolding new_pools lookup_pool or_else
lookup_new_pools name cs = lookup_pool-collect name [] cs

-- The pools made of a list of compressors answer for a name with the first compressor of that name,
-- and for the empty name and `identity` with none; `Contains` is true for just the listed names.
pub new_pools_lem :
    (name : Text) (cs : List Compressor)
    → (contains (new_pools cs) name ≡ is_some (first_named name cs))
      × (get (new_pools cs) name
          ≡ (if length name == 0 || eq_text name identity then none else first_named name cs))
unfolding contains get
new_pools_lem name cs = (rw (lookup_new_pools name cs) refl, rw (lookup_new_pools name cs) refl)
