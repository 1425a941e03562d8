-- ===== src/Timeouts/RoundTrip.antt =====
-- What a server reads from the Grpc-Timeout header that a client writes.
use connect_go.Base.{
  ℕ, ◌-◌, ◌*◌, ◌/◌, ◌^◌, ◌≤◌, ◌<◌, ◌≡◌, ◌⊎◌, refl, true, [], ◌∷◌, ◌++◌, Option, none, some, arith,
  ◌==◌, Text, codes, All, Bool-cases, Option-cases, inl, inr, ap, ◌∙◌, length, length-append,
}
use connect_go.Base.Decimal.{
  decimal, is_digit, decimal-All, decimal_nonempty, length-decimal, parse_uint, parse_digits,
  parse_uint-decimal,
}
use connect_go.Base.Ints.{ℤ, pos, negsuc, parse_int}
use connect_go.Timeouts.{
  hour, minute, pick_unit, encode_positive, encode_timeout, after, failed, invalid_unit,
  unit_lookup, split_last, scale, parse_parts, parse_timeout,
}

pub split_last-append :
    (c : ℕ) (cs : Text) (last : ℕ) → split_last c (cs ++ last ∷ []) ≡ (c ∷ cs, last)
unfolding split_last
split_last-append c [] last = refl
split_last-append c (d ∷ ds) last = rw (split_last-append d ds last)

-- On a nonempty front the last byte is the unit.
pub parse_timeout-append :
    (front : Text) (last : ℕ)
    → 0 < length front
    → parse_timeout (front ++ last ∷ []) ≡ parse_parts (front ++ last ∷ []) front last
unfolding parse_timeout
parse_timeout-append [] last h = elim h [ ]
parse_timeout-append (c ∷ cs) last h = rw (split_last-append c cs last)

parse_int-digits :
    (s : Text) (n : ℕ)
    → All (λ c. is_digit c ≡ true) s
    → parse_uint (2 ^ 63) s ≡ some n
    → parse_int s ≡ some (pos n)
unfolding parse_int
parse_int-digits [] n d h = unfold parse_uint in cc
parse_int-digits (c ∷ cs) n d h = ground arith

pub parse_int-decimal : (n : ℕ) → n < 2 ^ 63 → parse_int (decimal n) ≡ some (pos n)
parse_int-decimal n h =
    parse_int-digits (decimal n) n (decimal-All n) (parse_uint-decimal (2 ^ 63) n h)

unit_lookup-pick_unit : (n : ℕ) → unit_lookup (pick_unit n).letter ≡ some (pick_unit n).size
unfolding unit_lookup pick_unit
unit_lookup-pick_unit n = ground arith

-- The unit is the one that leaves at most eight digits, and rounding down loses little.
record Fits (n : ℕ) (u : ℕ) : Type 0 where
  nonzero : 0 < u
  digits : n / u ≤ 99_999_999
  product : n / u * u ≤ n
  precise : (n / u * u ≡ n) ⊎ ((n - n / u * u) * 100_000 < n)
  hours : u ≡ hour → n / u ≤ 2_562_047

pick_unit-Fits : (n : ℕ) → n < 2 ^ 63 → Fits n (pick_unit n).size
unfolding pick_unit
pick_unit-Fits n h = ground arith

scale_lem :
    (s : Text) (n u : ℕ)
    → Fits n u
    → n < 2 ^ 63
    → scale s u (some (pos (n / u))) ≡ after (pos (n / u * u))
unfolding scale
scale_lem s n u f h = ground (arith, f.digits, f.hours, f.product)

encode_timeout_positive : (n : ℕ) → 0 < n → encode_timeout (pos n) ≡ encode_positive n
unfolding encode_timeout
encode_timeout_positive n h = ground arith

quotient_small : (n u : ℕ) → n < 2 ^ 63 → Fits n u → n / u < 2 ^ 63
quotient_small n u h f = omega (arith, f.digits)

-- The parts that the parser takes the encoded text apart into.
parse_parts-encode_positive :
    (s : Text) (n : ℕ)
    → n < 2 ^ 63
    → parse_parts s (decimal (n / (pick_unit n).size)) (pick_unit n).letter
      ≡ after (pos (n / (pick_unit n).size * (pick_unit n).size))
unfolding parse_parts
parse_parts-encode_positive s n h =
    let f = pick_unit-Fits n h in
    rw
      (
        unit_lookup-pick_unit n,
        parse_int-decimal (n / (pick_unit n).size) (quotient_small n (pick_unit n).size h f),
        parse_parts,
      )
      (scale_lem s n (pick_unit n).size f h)

parse_timeout-encode_positive :
    (n : ℕ)
    → n < 2 ^ 63
    → parse_timeout (encode_positive n) ≡ after (pos (n / (pick_unit n).size * (pick_unit n).size))
unfolding encode_positive
parse_timeout-encode_positive n h =
    parse_timeout-append (decimal (n / (pick_unit n).size)) (pick_unit n).letter
      (decimal_nonempty (n / (pick_unit n).size))
    ∙ parse_parts-encode_positive _ n h

-- A server reads the timeout that a client sends, of any positive int64 number `n` of nanoseconds,
-- as a duration `d` that is at most `n`, and is `n` or falls short of it by less than one part in
-- 100,000.
pub parse_timeout-encode_timeout :
    (n : ℕ)
    → 0 < n
    → n < 2 ^ 63
    → (d : ℕ) × (parse_timeout (encode_timeout (pos n)) ≡ after (pos d))
      × (d ≤ n)
      × ((d ≡ n) ⊎ ((n - d) * 100_000 < n))
parse_timeout-encode_timeout n p h =
    let f = pick_unit-Fits n h in
    (
      n / (pick_unit n).size * (pick_unit n).size,
      ap parse_timeout (encode_timeout_positive n p) ∙ parse_timeout-encode_positive n h,
      f.product,
      f.precise,
    )

-- A duration that is not positive is sent as `0n`, which a server reads as no time at all.
pub parse_timeout-encode_timeout_expired :
    (d : ℤ)
    → (d ≡ pos 0) ⊎ ((k : ℕ) × (d ≡ negsuc k))
    → parse_timeout (encode_timeout d) ≡ after (pos 0)
unfolding encode_timeout parse_timeout parse_int parse_uint parse_digits codes unit_lookup
parse_timeout-encode_timeout_expired d h = ground arith

-- The header that a client writes has at most nine bytes, the eight digits and unit that gRPC allows.
length-encode_timeout : (n : ℕ) → n < 2 ^ 63 → length (encode_timeout (pos n)) ≤ 9
length-encode_timeout n h = elim (Bool-cases (n == 0)) [
  | inl e ↦ unfold encode_timeout codes in rw e (omega arith)
  | inr e ↦
      unfold encode_timeout encode_positive in
      let few =
        length-decimal 7 (n / (pick_unit n).size) (omega (arith, (pick_unit-Fits n h).digits)) in
      rw e (
        omega (
          arith,
          length-append (decimal (n / (pick_unit n).size)) ((pick_unit n).letter ∷ []),
          few,
        ))
]

unit_lookup-le-hour : (c : ℕ) {u : ℕ} → unit_lookup c ≡ some u → (u ≤ minute) ⊎ (u ≡ hour)
unfolding unit_lookup
unit_lookup-le-hour c h = ground arith

minutes_in_range : (n u : ℕ) → n ≤ 99_999_999 → u ≤ minute → n * u < 2 ^ 63
minutes_in_range n u h k = omega (arith, product_le n u h k)
  where
    product_le : (n u : ℕ) → n ≤ 99_999_999 → u ≤ minute → n * u ≤ 99_999_999 * minute
    product_le n u h k = grind arith

scale_in_range :
    (s : Text) (u : ℕ) (parsed : Option ℤ) (d : ℤ)
    → (u ≤ minute) ⊎ (u ≡ hour)
    → scale s u parsed ≡ after d
    → (k : ℕ) × (d ≡ pos k) × (k < 2 ^ 63)
unfolding scale
scale_in_range s u none d b h = cc
scale_in_range s u (some (negsuc n)) d b h = cc
scale_in_range s u (some (pos n)) d b h =
    (n * u, ground (arith, minutes_in_range n u), ground (arith, minutes_in_range n u))

parse_parts_in_range :
    (s front : Text) (last : ℕ) (d : ℤ)
    → parse_parts s front last ≡ after d
    → (k : ℕ) × (d ≡ pos k) × (k < 2 ^ 63)
unfolding parse_parts
parse_parts_in_range s front last d h = elim (Option-cases (unit_lookup last)) [
  | inl e ↦ absurd (unknown_unit (rw (e, parse_parts) at h))
  | inr (u, e) ↦
      scale_in_range s u (parse_int front) d (unit_lookup-le-hour last e) (rw (e, parse_parts) at h)
]
  where
    unknown_unit : failed (invalid_unit last) ≡ after d → ⊥
    unknown_unit e = cc

-- Whatever a client sends, a timeout that `grpcParseTimeout` accepts is not negative and fits an
-- int64: the product never overflows.
pub parse_timeout_in_range :
    (s : Text) (d : ℤ) → parse_timeout s ≡ after d → (k : ℕ) × (d ≡ pos k) × (k < 2 ^ 63)
parse_timeout_in_range [] d h = unfold parse_timeout in cc
parse_timeout_in_range (c ∷ cs) d h =
    unfold parse_timeout in
    parse_parts_in_range (c ∷ cs) (split_last c cs).0 (split_last c cs).1 d h
