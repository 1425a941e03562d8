-- ===== src/Tests/Values.antt =====
-- Codes, percent-encoding, timeouts and errors at concrete values.
use connect_go.Base.{
  ℕ, ◌≡◌, ◌≤◌, ◌<◌, ◌-◌, ◌*◌, ◌/◌, ◌^◌, ◌⊎◌, refl, true, false, ◌||◌, [], ◌∷◌, none, some, Text,
  codes, arith, if◌then◌else◌, ltb, leb, cut_prefix, eq_text,
}
use connect_go.Base.Ints.{pos, parse_int}
use connect_go.Codes.{internal, resource_exhausted, unmarshal_text, marshal_text}
use connect_go.Codes.RoundTrip.{unmarshal_text-marshal_text}
use connect_go.Percent.{
  percent_encode, percent_decode, decoded, hex_count, encode_byte, encode_bytes, should_escape,
  upper_hex,
}
use connect_go.Percent.RoundTrip.{percent_decode-percent_encode}
use connect_go.Timeouts.{encode_timeout, parse_timeout, after, pick_unit}
use connect_go.Timeouts.RoundTrip.{parse_timeout-encode_timeout, parse_timeout_in_range}
use connect_go.Timeouts.Milliseconds.{
  set_timeout-timeout_header, set_timeout, timeout_header, header_value, no_deadline,
  deadline_after,
}
use connect_go.Errors.{
  Sentinel, GoError, coded_by, opaque, verdict, with_cause, is, as_error, wire_verdict,
}
use connect_go.Errors.Wrap.{scrub_handler_error, bare_code}
use connect_go.Errors.Scrub.{scrub_handler_error_lem, wire_view}
use connect_go.Base.Decimal.{decimal, parse_digits, parse_uint}

-- A code without a name keeps its number.
unmarshal_text-marshal_text_example : unmarshal_text (marshal_text 17) ≡ some 17
unmarshal_text-marshal_text_example = unmarshal_text-marshal_text 17 (omega arith)

-- A code that has a name is not read from its number.
numbered_named : unmarshal_text (codes "code_5") ≡ none
unfolding unmarshal_text codes eq_text cut_prefix parse_uint parse_digits
numbered_named = refl

-- "50% é": a percent sign and two bytes above ASCII.
abbrev accented : Text
accented = b'5' ∷ b'0' ∷ b'%' ∷ b' ' ∷ 0xc3 ∷ 0xa9 ∷ []

accented-encoded : percent_encode accented ≡ codes "50%25 %C3%A9"
unfolding percent_encode codes hex_count should_escape encode_bytes encode_byte upper_hex
accented-encoded = refl

percent_decode-percent_encode_example : percent_decode (percent_encode accented) ≡ decoded accented
percent_decode-percent_encode_example = percent_decode-percent_encode accented (ground arith)

-- 1.5 seconds and a nanosecond lose the nanosecond.
timeout_encoded : encode_timeout (pos 1_500_000_001) ≡ codes "1500000u"
unfolding encode_timeout codes decimal pick_unit
timeout_encoded = refl

parse_timeout-encode_timeout_example :
    (d : ℕ) × (parse_timeout (encode_timeout (pos 1_500_000_001)) ≡ after (pos d))
    × (d ≤ 1_500_000_001)
    × ((d ≡ 1_500_000_001) ⊎ ((1_500_000_001 - d) * 100_000 < 1_500_000_001))
parse_timeout-encode_timeout_example =
    parse_timeout-encode_timeout 1_500_000_001 (omega arith) (omega arith)

three_hours : parse_timeout (b'3' ∷ b'H' ∷ []) ≡ after (pos 10_800_000_000_000)
unfolding parse_timeout parse_int parse_uint parse_digits
three_hours = refl

parse_timeout_in_range_example : (k : ℕ) × (pos 10_800_000_000_000 ≡ pos k) × (k < 2 ^ 63)
parse_timeout_in_range_example =
    parse_timeout_in_range (b'3' ∷ b'H' ∷ []) (pos 10_800_000_000_000) three_hours

-- A sign and leading zeros make a longer number, which is read all the same.
twelve_digits : parse_timeout (codes "+000000000005S") ≡ after (pos 5_000_000_000)
unfolding parse_timeout codes parse_int parse_uint parse_digits
twelve_digits = refl

set_timeout-timeout_header_example : set_timeout (header_value (timeout_header (pos 2_999_999))) ≡ (
    if ltb 2_999_999 1_000_000 || leb (10 ^ 16) 2_999_999
    then no_deadline
    else deadline_after (pos (2_999_999 / 1_000_000 * 1_000_000)))
set_timeout-timeout_header_example = set_timeout-timeout_header 2_999_999 (omega arith)

-- A handler's error: a remote one that a handler passes on.
abbrev passed_on : GoError
passed_on =
    coded_by
      (record {
        code = resource_exhausted;
        message = codes "quota of tenant 7";
        details = [];
        remote = true;
      })
      (opaque (codes "backend"))

passed_on_hidden :
    scrub_handler_error (some passed_on)
    ≡ some (
        coded_by (record { code = internal; message = []; details = []; remote = false }) passed_on)
unfolding scrub_handler_error as_error verdict with_cause codes
passed_on_hidden = refl

scrub_handler_error_lem_example :
    (w : GoError) × (scrub_handler_error (some passed_on) ≡ some w)
    × (wire_verdict w ≡ some (wire_view (wire_verdict passed_on) (bare_code passed_on)))
    × ((s : Sentinel) → is s w ≡ is s passed_on)
scrub_handler_error_lem_example = scrub_handler_error_lem passed_on
