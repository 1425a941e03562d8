-- ===== src/Errors/Laws.antt =====
-- What `connect.Error`'s builders and the wrappers of connecthttp/error.go keep of an error.
use connect_go.Base.{
  true, false, ◌||◌, List, [], ◌∷◌, ◌++◌, Option, none, some, ◌==◌, ◌≡◌, ◌≢◌, ◌⊎◌, inl, inr, refl,
  arith, Option-cases, ◌∙◌, if◌then◌else◌, append-nil, append_assoc,
}
use connect_go.Codes.{Code, unknown}
use connect_go.Errors.{
  Sentinel, GoError, sentinel, opaque, max_bytes, url_error, wrapped, joined, coded, coded_by,
  special_envelope, special_verdict, is, as_error, with_cause, with_detail, Verdict, Detail,
  verdict, append_detail, code_of, error_code,
}
use connect_go.Errors.Wrap.{
  recoded, is_coded, bare_code, wrap_if_context_error, coded_or_unknown, wrap_if_uncoded,
}

none-ne-some : {A : Type 0} (a : A) → ◌≢◌ {A = Option A} none (some a)
none-ne-some a = λ e. cc

-- What `errors.As` finds is a `*connect.Error` itself.
pub as_error_found :
    (e f : GoError)
    → as_error e ≡ some f
    → (v : Verdict) × (verdict f ≡ some v) × (as_error f ≡ some f)
unfolding as_error verdict
as_error_found (sentinel s t) f h = absurd (none-ne-some f h)
as_error_found (opaque t) f h = absurd (none-ne-some f h)
as_error_found (max_bytes n) f h = absurd (none-ne-some f h)
as_error_found (url_error p e) f h = as_error_found e f h
as_error_found (wrapped t e) f h = as_error_found e f h
as_error_found (joined a b) f h = elim (Option-cases (as_error a)) [
  | inl e ↦ as_error_found b f (rw e at h)
  | inr (x, e) ↦ as_error_found a f (e ∙ rw e at h)
]
as_error_found (coded v) f h = (v, ground arith, ground arith)
as_error_found (coded_by v e) f h = (v, ground arith, ground arith)
as_error_found special_envelope f h = (special_verdict, ground arith, ground arith)

-- The codes that `wrapIfContextError` gives are those that `scrubHandlerError` keeps.
wrap_if_context_error-cases :
    (e : GoError)
    → ((is_coded e ≡ true) × (wrap_if_context_error e ≡ e))
      ⊎ ((is_coded e ≡ false) × (bare_code e ≡ unknown) × (wrap_if_context_error e ≡ e))
      ⊎ ((is_coded e ≡ false) × (wrap_if_context_error e ≡ recoded (bare_code e) e))
unfolding wrap_if_context_error bare_code
wrap_if_context_error-cases e = ground arith

recoded-is_coded : (c : Code) (e : GoError) → is_coded (recoded c e) ≡ true
unfolding with_cause as_error
recoded-is_coded c e = refl

recoded-is : (c : Code) (e : GoError) (s : Sentinel) → is s (recoded c e) ≡ is s e
unfolding with_cause is
recoded-is c e s = refl

bare_code_ne_zero : (e : GoError) → (bare_code e == 0) ≡ false
unfolding bare_code
bare_code_ne_zero e = ground arith

recoded-code_of : (c : Code) (e : GoError) → (c == 0) ≡ false → code_of (recoded c e) ≡ c
unfolding with_cause code_of as_error verdict error_code
recoded-code_of c e h = rw h

-- What a wrapper makes of an error: an error with a code, the one it had or else the one for its
-- kind, that still matches exactly the package variables that it did.
pub record IsCodedForm (e w : GoError) : Type 0 where
  pub has_code : is_coded w ≡ true
  pub code_is : code_of w ≡ (if is_coded e then code_of e else bare_code e)
  pub same_identity : (s : Sentinel) → is s w ≡ is s e
  pub unchanged : is_coded e ≡ true → w ≡ e

kept-IsCodedForm : (e w : GoError) → is_coded e ≡ true → w ≡ e → IsCodedForm e w
kept-IsCodedForm e w h q = record {
  has_code = rw (q, h);
  code_is = rw (q, h);
  same_identity = λ s. rw q;
  unchanged = λ _. q;
}

recoded-IsCodedForm :
    (e w : GoError) → is_coded e ≡ false → w ≡ recoded (bare_code e) e → IsCodedForm e w
recoded-IsCodedForm e w h q = record {
  has_code = rw q (recoded-is_coded (bare_code e) e);
  code_is = rw (q, h) (recoded-code_of (bare_code e) e (bare_code_ne_zero e));
  same_identity = λ s. rw q (recoded-is (bare_code e) e s);
  unchanged = λ t. cc;
}

-- `wrapIfUncoded` gives every error a code, keeps one that is there, and hides no cause from
-- `errors.Is`; a nil error stays nil.
pub wrap_if_uncoded_lem :
    (wrap_if_uncoded none ≡ none)
    × ((e : GoError) → (w : GoError) × (wrap_if_uncoded (some e) ≡ some w) × IsCodedForm e w)
unfolding wrap_if_uncoded
wrap_if_uncoded_lem = (refl, λ e. (coded_or_unknown (wrap_if_context_error e), refl, form e))
  where
    form : (e : GoError) → IsCodedForm e (coded_or_unknown (wrap_if_context_error e))
    form e = elim (wrap_if_context_error-cases e) [
      | inl (c, q) ↦ kept-IsCodedForm e _ c (rw (q, c))
      | inr (inl (c, u, q)) ↦ recoded-IsCodedForm e _ c (rw (q, c, u))
      | inr (inr (c, q)) ↦ recoded-IsCodedForm e _ c (rw (q, recoded-is_coded (bare_code e) e))
    ]

-- Attaching a cause keeps the verdict, and lets `errors.Is` match what the error or the cause did.
pub with_cause_lem :
    (e cause : GoError) (v : Verdict)
    → verdict e ≡ some v
    → (verdict (with_cause e cause) ≡ some v)
      × (as_error (with_cause e cause) ≡ some (with_cause e cause))
      × ((s : Sentinel) → is s (with_cause e cause) ≡ (is s e || is s cause))
unfolding with_cause verdict as_error is
with_cause_lem (coded w) cause v h = (h, refl, λ s. refl)
with_cause_lem (coded_by w c) cause v h = (h, refl, λ s. refl)
with_cause_lem special_envelope cause v h = (h, refl, λ s. refl)
with_cause_lem _ cause v h = absurd (none-ne-some v h)

with_detail_lem :
    (e : GoError) (d : Detail) (v : Verdict)
    → verdict e ≡ some v
    → (verdict (with_detail e (some d)) ≡ some (append_detail v d))
      × ((s : Sentinel) → is s (with_detail e (some d)) ≡ is s e)
unfolding with_detail verdict is
with_detail_lem (coded w) d v h = (ground arith, λ s. refl)
with_detail_lem (coded_by w c) d v h = (ground arith, λ s. refl)
with_detail_lem special_envelope d v h = (ground arith, λ s. refl)
with_detail_lem _ d v h = absurd (none-ne-some v h)

-- A run of `WithDetail` calls, as the transports make when they rebuild an error.
unfoldable pub attach : GoError → List Detail → GoError
attach e [] = e
attach e (d ∷ ds) = attach (with_detail e (some d)) ds

-- Attaching details one by one leaves the code, the message, the mark and the causes as they were,
-- and puts the details behind the ones that are there, in order.
pub attach_lem :
    (e : GoError) (ds : List Detail) (v : Verdict)
    → verdict e ≡ some v
    → (verdict (attach e ds) ≡ some (record v { details = v.details ++ ds }))
      × ((s : Sentinel) → is s (attach e ds) ≡ is s e)
unfolding attach
attach_lem e [] v h = (rw append-nil h, λ s. refl)
attach_lem e (d ∷ ds) v h =
    let step = with_detail_lem e d v h in
    let rest = attach_lem (with_detail e (some d)) ds (append_detail v d) step.0 in
    (rest.0 ∙ rw append_assoc, λ s. rest.1 s ∙ step.1 s)
