-- ===== src/Timeouts.antt =====
-- connecthttp/protocol_grpc.go: `grpcEncodeTimeout`, `grpcParseTimeout`, `grpcTimeoutUnitLookup`,
-- and the Connect-Timeout-Ms header of connecthttp/protocol_connect.go. A `time.Duration` is an
-- int64 number of nanoseconds.
pub mod RoundTrip
pub mod Milliseconds
use connect_go.Base.{
  ℕ, suc, ◌+◌, ◌-◌, ◌*◌, ◌/◌, ◌^◌, ◌&&◌, Bool, List, [], ◌∷◌, ◌++◌, Option, none, some, Text, codes,
  ltb, leb, ◌==◌, if◌then◌else◌, length,
}
use connect_go.Base.Decimal.{decimal}
use connect_go.Base.Ints.{ℤ, pos, negsuc, to_int64, parse_int}

abbrev pub microsecond : ℕ
microsecond = 1_000

abbrev pub millisecond : ℕ
millisecond = 1_000_000

abbrev pub second : ℕ
second = 1_000_000_000

abbrev pub minute : ℕ
minute = 60_000_000_000

abbrev pub hour : ℕ
hour = 3_600_000_000_000

abbrev pub max_value : ℕ
max_value = 100_000_000

pub record TimeUnit : Type 0 where
  pub size : ℕ
  pub letter : ℕ

-- The `switch` of `grpcEncodeTimeout`.
unfoldable pub pick_unit : ℕ → TimeUnit
pick_unit n =
    if ltb n max_value
    then record { size = 1; letter = b'n' }
    else if ltb n (microsecond * max_value)
    then record { size = microsecond; letter = b'u' }
    else if ltb n (millisecond * max_value)
    then record { size = millisecond; letter = b'm' }
    else if ltb n (second * max_value)
    then record { size = second; letter = b'S' }
    else if ltb n (minute * max_value)
    then record { size = minute; letter = b'M' }
    else record { size = hour; letter = b'H' }

unfoldable pub encode_positive : ℕ → Text
encode_positive n = decimal (n / (pick_unit n).size) ++ (pick_unit n).letter ∷ []

-- `grpcEncodeTimeout`
unfoldable pub encode_timeout : ℤ → Text
unfolding encode_positive
encode_timeout (negsuc _) = codes "0n"
encode_timeout (pos n) = if n == 0 then codes "0n" else encode_positive n

-- `errNoTimeout`, and the three errors that `grpcParseTimeout` formats.
pub data TimeoutError : Type 0 where
  no_timeout : TimeoutError
  invalid_unit : ℕ → TimeoutError
  invalid_timeout : Text → TimeoutError
  too_long : Text → TimeoutError

pub data Parsed : Type 0 where
  after : ℤ → Parsed
  failed : TimeoutError → Parsed

-- `grpcTimeoutUnitLookup`
unfoldable pub unit_lookup : ℕ → Option ℕ
unit_lookup c =
    if c == b'n'
    then some 1
    else if c == b'u'
    then some microsecond
    else if c == b'm'
    then some millisecond
    else if c == b'S'
    then some second
    else if c == b'M'
    then some minute
    else if c == b'H'
    then some hour
    else none

abbrev pub max_hours : ℕ
max_hours = (2 ^ 63 - 1) / hour

-- The text without its last byte, and that byte.
unfoldable pub split_last : ℕ → Text → Text × ℕ
split_last c [] = ([], c)
split_last c (d ∷ ds) = let (front, last) = split_last d ds in (c ∷ front, last)

unfoldable pub scale : Text → ℕ → Option ℤ → Parsed
scale s unit none = failed (invalid_timeout s)
scale s unit (some (negsuc _)) = failed (invalid_timeout s)
scale s unit (some (pos n)) =
    if ltb 99_999_999 n
    then failed (too_long s)
    else if unit == hour && ltb max_hours n
    then failed no_timeout
    else after (to_int64 (n * unit))

unfoldable pub parse_parts : Text → Text → ℕ → Parsed
unfolding scale unit_lookup
parse_parts s front last = elim (unit_lookup last) [
  | none ↦ failed (invalid_unit last)
  | some unit ↦ scale s unit (parse_int front)
]

-- `grpcParseTimeout`
unfoldable pub parse_timeout : Text → Parsed
unfolding parse_parts split_last
parse_timeout [] = failed no_timeout
parse_timeout (c ∷ cs) = parse_parts (c ∷ cs) (split_last c cs).0 (split_last c cs).1
