-- ===== src/Streams/Laws.antt =====
-- Pieces of lists, and the looping reads on a stream that holds what they ask for.
use connect_go.Base.{
  ℕ, zero, suc, ◌-◌, ◌≤◌, ◌≡◌, refl, true, List, [], ◌∷◌, ◌++◌, Option, none, Text, arith, leb,
  le→leb, length, take, drop, ap, length-append, take_append, drop_append,
}
use connect_go.Errors.{GoError}
use connect_go.Streams.{read_full, copy_n}

module _ {ℓ} {A : Type ℓ} where
  pub take-append :
      (n : ℕ) (xs ys : List A) → take n (xs ++ ys) ≡ take n xs ++ take (n - length xs) ys
  take-append zero xs ys = let e : 0 - length xs ≡ 0 = omega arith in rw e refl
  take-append (suc n) [] ys = let e : suc n - 0 ≡ suc n = omega arith in rw e refl
  take-append (suc n) (x ∷ xs) ys =
      let e : suc n - suc (length xs) ≡ n - length xs = omega arith in
      rw e (ap (◌∷◌ x) (take-append n xs ys))

  pub drop-append :
      (n : ℕ) (xs ys : List A) → drop n (xs ++ ys) ≡ drop n xs ++ drop (n - length xs) ys
  drop-append zero xs ys = let e : 0 - length xs ≡ 0 = omega arith in rw e refl
  drop-append (suc n) [] ys = let e : suc n - 0 ≡ suc n = omega arith in rw e refl
  drop-append (suc n) (x ∷ xs) ys =
      let e : suc n - suc (length xs) ≡ n - length xs = omega arith in rw e (drop-append n xs ys)

  pub take_all : (n : ℕ) (xs : List A) → length xs ≤ n → take n xs ≡ xs
  take_all zero [] h = refl
  take_all zero (x ∷ xs) h = absurd (omega arith)
  take_all (suc n) [] h = refl
  take_all (suc n) (x ∷ xs) h = ap (◌∷◌ x) (take_all n xs (omega arith))

  pub drop_all : (n : ℕ) (xs : List A) → length xs ≤ n → drop n xs ≡ []
  drop_all zero [] h = refl
  drop_all zero (x ∷ xs) h = absurd (omega arith)
  drop_all (suc n) [] h = refl
  drop_all (suc n) (x ∷ xs) h = drop_all n xs (omega arith)

enough : (p q : Text) → leb (length p) (length (p ++ q)) ≡ true
enough p q = le→leb _ _ (omega (arith, length-append p q))

-- A read of as many bytes as a piece has takes that piece and leaves what is behind it.
pub read_full_append :
    (p q : Text) (f : Option GoError)
    → read_full (length p) (record { bytes = p ++ q; fault = f })
      ≡ record { got = p; err = none; rest = record { bytes = q; fault = f } }
unfolding read_full
read_full_append p q f = rw (enough p q, take_append p q, drop_append p q) refl

pub copy_n_append :
    (p q : Text) (f : Option GoError)
    → copy_n (length p) (record { bytes = p ++ q; fault = f })
      ≡ record { got = p; err = none; rest = record { bytes = q; fault = f } }
unfolding copy_n
copy_n_append p q f = rw (enough p q, take_append p q, drop_append p q) refl
