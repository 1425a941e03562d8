-- ===== src/Base/Decimal.antt =====
-- `strconv`: decimal printing of natural numbers, and `ParseUint` in base 10.
use Prim.Native.Nat.{ℕ, zero, suc, ◌+◌, ◌-◌, ◌*◌, ◌/◌, ◌%◌, ◌^◌, ◌≤◌, ◌<◌}
use mathlib.Core.Path.{◌≡◌}
use mathlib.Core.Bool.{Bool, true, false, ◌&&◌}
use mathlib.Core.Logic.{inl, inr}
use mathlib.Core.List.{[], ◌∷◌}
use mathlib.Core.Option.{Option, none, some}
use native.Mathlib.Omega.{arith}
use native.Mathlib.Nat.{pow-suc}
use connect_go.Base.Tests.{ltb, leb, if◌then◌else◌, Bool-cases}
use connect_go.Base.Lists.{length, All}
use connect_go.Base.Strings.{Text}

-- Digits are put in front of `acc`, the last one first.
unfoldable pub digits_onto : ℕ → ℕ → Text → Text
digits_onto zero n acc = acc
digits_onto (suc f) n acc =
    let rest = digits_onto f (n / 10) ((b'0' + n % 10) ∷ acc) in
    if ltb n 10 then (b'0' + n) ∷ acc else rest

-- The fuel is more than the number, which falls at each round.
unfoldable pub decimal : ℕ → Text
unfolding digits_onto
decimal n = digits_onto (suc n) n []

abbrev pub is_digit : ℕ → Bool
is_digit c = leb b'0' c && leb c b'9'

unfoldable pub parse_digits : ℕ → Text → Option ℕ
parse_digits acc [] = some acc
parse_digits acc (c ∷ cs) = if is_digit c then parse_digits (acc * 10 + (c - b'0')) cs else none

-- `strconv.ParseUint(s, 10, bits)` with `limit` for `2 ^ bits`; `none` for its errors.
unfoldable pub parse_uint : ℕ → Text → Option ℕ
parse_uint limit [] = none
parse_uint limit (c ∷ cs) = elim (parse_digits 0 (c ∷ cs)) [
  | none ↦ none
  | some n ↦ if ltb n limit then some n else none
]

parse_digits-digits_onto :
    (f n : ℕ) (acc : Text) → n < f → parse_digits 0 (digits_onto f n acc) ≡ parse_digits n acc
unfolding parse_digits digits_onto
parse_digits-digits_onto zero n acc h = absurd (omega arith)
parse_digits-digits_onto (suc f) n acc h =
    ground (arith, parse_digits-digits_onto f (n / 10) ((b'0' + n % 10) ∷ acc))

pub parse_digits-decimal : (n : ℕ) → parse_digits 0 (decimal n) ≡ some n
unfolding decimal parse_digits
parse_digits-decimal n = parse_digits-digits_onto (suc n) n [] (omega arith)

digits_onto_nonempty : (f n : ℕ) (acc : Text) → 0 < length acc → 0 < length (digits_onto f n acc)
unfolding digits_onto
digits_onto_nonempty zero n acc h = h
digits_onto_nonempty (suc f) n acc h =
    ground (arith, digits_onto_nonempty f (n / 10) ((b'0' + n % 10) ∷ acc))

pub decimal_nonempty : (n : ℕ) → 0 < length (decimal n)
unfolding decimal
decimal_nonempty n = ground (arith, digits_onto_nonempty n (n / 10) ((b'0' + n % 10) ∷ []))

pub parse_uint-decimal : (limit n : ℕ) → n < limit → parse_uint limit (decimal n) ≡ some n
unfolding parse_uint
parse_uint-decimal limit n h = ground (arith, decimal_nonempty n, parse_digits-decimal n)

length-digits_onto :
    (f k n : ℕ) (acc : Text) → n < 10 ^ suc k → length (digits_onto f n acc) ≤ suc k + length acc
unfolding digits_onto
length-digits_onto zero k n acc h = omega arith
length-digits_onto (suc f) zero n acc h = ground arith
length-digits_onto (suc f) (suc k) n acc h = elim (Bool-cases (ltb n 10)) [
  | inl small ↦ rw small (omega arith)
  | inr large ↦ rw large (
      let fewer : n / 10 < 10 ^ suc k = omega (arith, rw pow-suc at h) in
      omega (arith, length-digits_onto f k (n / 10) ((b'0' + n % 10) ∷ acc) fewer))
]

pub length-decimal : (k n : ℕ) → n < 10 ^ suc k → length (decimal n) ≤ suc k
unfolding decimal
length-decimal k n h = omega (arith, length-digits_onto (suc n) k n [] h)

digits_onto-All :
    (f n : ℕ) (acc : Text)
    → All (λ c. is_digit c ≡ true) acc
    → All (λ c. is_digit c ≡ true) (digits_onto f n acc)
unfolding digits_onto
digits_onto-All zero n acc h = h
digits_onto-All (suc f) n acc h = elim (Bool-cases (ltb n 10)) [
  | inl small ↦ rw small (ground arith, h)
  | inr large ↦ rw large (digits_onto-All f (n / 10) ((b'0' + n % 10) ∷ acc) (ground arith, h))
]

-- A printed number consists of digits.
pub decimal-All : (n : ℕ) → All (λ c. is_digit c ≡ true) (decimal n)
unfolding decimal
decimal-All n = digits_onto-All (suc n) n [] tt

length-digits_onto_le :
    (f k n : ℕ) (acc : Text)
    → n < f
    → 10 ^ k ≤ n
    → suc k + length acc ≤ length (digits_onto f n acc)
unfolding digits_onto
length-digits_onto_le zero k n acc b h = absurd (omega arith)
length-digits_onto_le (suc f) zero n acc b h = elim (Bool-cases (ltb n 10)) [
  | inl small ↦ rw small (omega arith)
  | inr large ↦ rw large (
      omega (
        arith,
        length-digits_onto_le f 0 (n / 10) ((b'0' + n % 10) ∷ acc) (ground arith) (ground arith),
      ))
]
length-digits_onto_le (suc f) (suc k) n acc b h =
    let ten : 10 ^ k * 10 ≤ n = rw pow-suc at h in
    let pos : 1 ≤ 10 ^ k = one_le_power k in
    rw (not_small ten pos) (
      omega (
        arith,
        length-digits_onto_le f k (n / 10) ((b'0' + n % 10) ∷ acc) (omega arith) (omega arith),
      ))
  where
    one_le_power : (k : ℕ) → 1 ≤ 10 ^ k
    one_le_power zero = omega arith
    one_le_power (suc k) = rw pow-suc (omega (arith, one_le_power k))

    not_small : 10 ^ k * 10 ≤ n → 1 ≤ 10 ^ k → ltb n 10 ≡ false
    not_small ten pos = ground arith

-- A number of at least `10 ^ k` has more than `k` digits.
pub lt-length-decimal : (k n : ℕ) → 10 ^ k ≤ n → k < length (decimal n)
unfolding decimal
lt-length-decimal k n h = omega (arith, length-digits_onto_le (suc n) k n [] (omega arith) h)
