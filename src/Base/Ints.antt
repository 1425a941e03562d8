-- ===== src/Base/Ints.antt =====
-- Signed 64-bit integers, read as the integers that they stand for, and `strconv.ParseInt`.
use Prim.Native.Nat.{ℕ, zero, suc, ◌+◌, ◌-◌, ◌%◌, ◌^◌}
use mathlib.Core.List.{[], ◌∷◌}
use mathlib.Core.Option.{Option, none, some}
use connect_go.Base.Tests.{ltb, ◌==◌, if◌then◌else◌}
use connect_go.Base.Strings.{Text}
use connect_go.Base.Decimal.{parse_uint}

-- `negsuc n` is -(n + 1).
pub data ℤ : Type 0 where
  pos : ℕ → ℤ
  negsuc : ℕ → ℤ

-- The int64 whose bits are those of `n`.
abbrev pub to_int64 : ℕ → ℤ
to_int64 n = let w = n % 2 ^ 64 in if ltb w (2 ^ 63) then pos w else negsuc (2 ^ 64 - w - 1)

abbrev pub neg : ℕ → ℤ
neg zero = pos 0
neg (suc n) = negsuc n

abbrev pub map_int : (ℕ → ℤ) → Option ℕ → Option ℤ
map_int f none = none
map_int f (some n) = some (f n)

-- `strconv.ParseInt(s, 10, 64)`; `none` for its errors.
unfoldable pub parse_int : Text → Option ℤ
parse_int [] = none
parse_int (c ∷ cs) =
    if c == b'+'
    then map_int pos (parse_uint (2 ^ 63) cs)
    else if c == b'-'
    then map_int neg (parse_uint (2 ^ 63 + 1) cs)
    else map_int pos (parse_uint (2 ^ 63) (c ∷ cs))
