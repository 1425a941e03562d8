-- ===== src/Timeouts/Milliseconds.antt =====
-- connecthttp/protocol_connect.go: the Connect-Timeout-Ms header, as `connectClient.NewConn` writes
-- it and `connectHandler.SetTimeout` reads it. An absent header reads as the empty text.
use connect_go.Base.{
  ℕ, suc, ◌%◌, ◌-◌, ◌*◌, ◌/◌, ◌^◌, ◌<◌, ◌≡◌, ◌||◌, [], Option, none, some, arith, ltb, leb, Text,
  if◌then◌else◌, length, ◌==◌,
}
use connect_go.Base.Decimal.{decimal, decimal_nonempty, length-decimal, lt-length-decimal}
use connect_go.Base.Ints.{ℤ, pos, negsuc, to_int64, parse_int}
use connect_go.Timeouts.{millisecond}
use connect_go.Timeouts.RoundTrip.{parse_int-decimal}

-- The header for the time left until the deadline; `/` on a `time.Duration` rounds towards zero.
unfoldable pub timeout_header : ℤ → Option Text
timeout_header (negsuc _) = none
timeout_header (pos n) =
    let millis = n / millisecond in
    if ltb 0 millis
    then (if leb (length (decimal millis)) 10 then some (decimal millis) else none)
    else none

pub data Deadline : Type 0 where
  no_deadline : Deadline
  deadline_after : ℤ → Deadline
  too_many_digits : Text → Deadline
  not_a_number : Text → Deadline

-- `time.Duration(millis)*time.Millisecond`
abbrev pub from_millis : ℤ → ℤ
from_millis (pos n) = to_int64 (n * millisecond)
from_millis (negsuc n) = to_int64 (2 ^ 64 - (suc n * millisecond) % 2 ^ 64)

abbrev pub parsed_millis : Text → Option ℤ → Deadline
parsed_millis s none = not_a_number s
parsed_millis s (some millis) = deadline_after (from_millis millis)

-- `connectHandler.SetTimeout`
unfoldable pub set_timeout : Text → Deadline
set_timeout s =
    if length s == 0
    then no_deadline
    else if ltb 10 (length s)
    then too_many_digits s
    else parsed_millis s (parse_int s)

abbrev pub header_value : Option Text → Text
header_value none = []
header_value (some s) = s

-- Until the deadline is `n` nanoseconds away, the server sees whole milliseconds, rounded down; it
-- sees no deadline when less than a millisecond is left, or more milliseconds than ten digits hold.
pub set_timeout-timeout_header :
    (n : ℕ)
    → n < 2 ^ 63
    → set_timeout (header_value (timeout_header (pos n))) ≡ (
        if ltb n millisecond || leb (10 ^ 16) n
        then no_deadline
        else deadline_after (pos (n / millisecond * millisecond)))
unfolding timeout_header set_timeout
set_timeout-timeout_header n h = ground (
  arith,
  lt-length-decimal 10 (n / millisecond),
  length-decimal 9 (n / millisecond),
  decimal_nonempty (n / millisecond),
  parse_int-decimal (n / millisecond),
)
