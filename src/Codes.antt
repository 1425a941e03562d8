-- ===== src/Codes.antt =====
-- connect.go: `Code`, its names, `String`, `MarshalText` and `UnmarshalText`.
pub mod RoundTrip
use connect_go.Base.{
  ℕ, ◌<◌, ◌^◌, Bool, true, false, ◌||◌, ◌++◌, Option, none, some, Text, codes, eq_text, cut_prefix,
  ltb, ◌==◌, if◌then◌else◌,
}
use connect_go.Base.Decimal.{decimal, parse_uint}

-- A `Code` is a uint32.
abbrev pub Code : Type 0
Code = ℕ

abbrev pub canceled : Code
canceled = 1

abbrev pub unknown : Code
unknown = 2

abbrev pub invalid_argument : Code
invalid_argument = 3

abbrev pub deadline_exceeded : Code
deadline_exceeded = 4

abbrev pub not_found : Code
not_found = 5

abbrev pub already_exists : Code
already_exists = 6

abbrev pub permission_denied : Code
permission_denied = 7

abbrev pub resource_exhausted : Code
resource_exhausted = 8

abbrev pub failed_precondition : Code
failed_precondition = 9

abbrev pub aborted : Code
aborted = 10

abbrev pub out_of_range : Code
out_of_range = 11

abbrev pub unimplemented : Code
unimplemented = 12

abbrev pub internal : Code
internal = 13

abbrev pub unavailable : Code
unavailable = 14

abbrev pub data_loss : Code
data_loss = 15

abbrev pub unauthenticated : Code
unauthenticated = 16

abbrev pub min_code : Code
min_code = canceled

abbrev pub max_code : Code
max_code = unauthenticated

unfoldable pub code_string : Code → Text
code_string c =
    if c == canceled
    then codes "canceled"
    else if c == unknown
    then codes "unknown"
    else if c == invalid_argument
    then codes "invalid_argument"
    else if c == deadline_exceeded
    then codes "deadline_exceeded"
    else if c == not_found
    then codes "not_found"
    else if c == already_exists
    then codes "already_exists"
    else if c == permission_denied
    then codes "permission_denied"
    else if c == resource_exhausted
    then codes "resource_exhausted"
    else if c == failed_precondition
    then codes "failed_precondition"
    else if c == aborted
    then codes "aborted"
    else if c == out_of_range
    then codes "out_of_range"
    else if c == unimplemented
    then codes "unimplemented"
    else if c == internal
    then codes "internal"
    else if c == unavailable
    then codes "unavailable"
    else if c == data_loss
    then codes "data_loss"
    else if c == unauthenticated
    then codes "unauthenticated"
    else codes "code_" ++ decimal c

-- `Code.MarshalText`, which never fails.
unfoldable pub marshal_text : Code → Text
marshal_text c = code_string c

-- The code behind `code_`, refused if it has a name.
unfoldable pub unmarshal_numeric : Text → Option Code
unmarshal_numeric s = elim (cut_prefix (codes "code_") s) [
  | none ↦ none
  | some after ↦ elim (parse_uint (2 ^ 32) after) [
    | none ↦ none
    | some code ↦ if ltb code min_code || ltb max_code code then some code else none
  ]
]

-- The code that `UnmarshalText` stores; `none` for its error, on which it stores nothing.
unfoldable pub unmarshal_text : Text → Option Code
unfolding unmarshal_numeric
unmarshal_text s =
    if eq_text s (codes "canceled")
    then some canceled
    else if eq_text s (codes "unknown")
    then some unknown
    else if eq_text s (codes "invalid_argument")
    then some invalid_argument
    else if eq_text s (codes "deadline_exceeded")
    then some deadline_exceeded
    else if eq_text s (codes "not_found")
    then some not_found
    else if eq_text s (codes "already_exists")
    then some already_exists
    else if eq_text s (codes "permission_denied")
    then some permission_denied
    else if eq_text s (codes "resource_exhausted")
    then some resource_exhausted
    else if eq_text s (codes "failed_precondition")
    then some failed_precondition
    else if eq_text s (codes "aborted")
    then some aborted
    else if eq_text s (codes "out_of_range")
    then some out_of_range
    else if eq_text s (codes "unimplemented")
    then some unimplemented
    else if eq_text s (codes "internal")
    then some internal
    else if eq_text s (codes "unavailable")
    then some unavailable
    else if eq_text s (codes "data_loss")
    then some data_loss
    else if eq_text s (codes "unauthenticated")
    then some unauthenticated
    else unmarshal_numeric s
