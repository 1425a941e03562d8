-- ===== src/Trailers/RoundTrip.antt =====
-- What a gRPC client reads from the trailers that a server writes.
use connect_go.Base.{
  ◌+◌, ◌≡◌, ◌<◌, ◌^◌, inl, inr, refl, false, [], ◌∷◌, Option, none, some, Text, codes, eq_text,
  eq_text_iff, eq_text_refl, All, arith, ◌==◌, if◌then◌else◌, length, Bool-cases,
}
use connect_go.Base.Decimal.{
  decimal, decimal_nonempty, parse_uint, parse_digits, parse_uint-decimal,
}
use connect_go.Codes.{Code, unknown}
use connect_go.Errors.{GoError, Verdict, new_error, error_code, text_of, wire_verdict, with_remote}
use connect_go.GrpcStatus.{Wire}
use connect_go.Headers.Laws.{find-put}
use connect_go.Headers.{Headers, get, set}
use connect_go.Percent.Encoding.{IsByte}
use connect_go.Percent.RoundTrip.{percent_decode-percent_encode}
use connect_go.Percent.{percent_encode}
use connect_go.Trailers.{
  status_key, message_key, details_key, result, error_for_trailer, error_to_trailer, read_status,
  put_status, put_verdict, put_found, with_details_of,
}

pub get-set :
    (key other value : Text) (h : Headers)
    → get other (set key value h) ≡ (if eq_text key other then value else get other h)
unfolding get set
get-set key other value h = elim (Bool-cases (eq_text key other)) [
  | inl e ↦ rw (find-put key other (value ∷ []) h, e) refl
  | inr e ↦ rw (find-put key other (value ∷ []) h, e) refl
]

status_ne_message : eq_text message_key status_key ≡ false
unfolding eq_text codes
status_ne_message = refl

status_ne_details : eq_text status_key details_key ≡ false
unfolding eq_text codes
status_ne_details = refl

message_ne_details : eq_text message_key details_key ≡ false
unfolding eq_text codes
message_ne_details = refl

zero_nonempty : (length (codes "0") == 0) ≡ false
unfolding codes
zero_nonempty = refl

decimal_ne_zero : (c : Code) → (c == 0) ≡ false → eq_text (decimal c) (codes "0") ≡ false
decimal_ne_zero c h = elim (Bool-cases (eq_text (decimal c) (codes "0"))) [
  | inr e ↦ e
  | inl e ↦
      let k = parse_uint-decimal (c + 1) c (omega arith) in
      let z = rw ((eq_text_iff (decimal c) (codes "0")).0 e, parse_zero c) at k in ground arith
]
  where
    parse_zero : (c : Code) → parse_uint (c + 1) (codes "0") ≡ some 0
    parse_zero c = unfold parse_uint parse_digits codes in ground arith

-- A trailer whose three values are known.
pub trailer-read :
    (w : Wire) (h : Headers) (c : Code) (message encoded : Text)
    → get status_key h ≡ decimal c
    → get message_key h ≡ percent_encode message
    → get details_key h ≡ encoded
    → (c == 0) ≡ false
    → c < 2 ^ 32
    → All IsByte message
    → error_for_trailer w h ≡ result (some (with_details_of w c message encoded))
unfolding error_for_trailer read_status
trailer-read w h c message encoded status text details nonzero small bytes =
    let some_bytes : (length (decimal c) == 0) ≡ false = ground (arith, decimal_nonempty c) in
    rw
      (
        status,
        some_bytes,
        decimal_ne_zero c nonzero,
        parse_uint-decimal (2 ^ 32) c small,
        text,
        percent_decode-percent_encode message bytes,
        details,
      )
      refl

module _ (h : Headers) (c : Code) (message : Text) where
  -- The trailer with its first two values.
  abbrev pub two_set : Headers
  two_set = set message_key (percent_encode message) (set status_key (decimal c) h)

  pub two_set-status : get status_key two_set ≡ decimal c
  two_set-status =
      rw
        (
          get-set message_key status_key (percent_encode message) (set status_key (decimal c) h),
          status_ne_message,
          get-set status_key status_key (decimal c) h,
          eq_text_refl status_key,
        )
        refl

  pub two_set-message : get message_key two_set ≡ percent_encode message
  two_set-message =
      rw
        (
          get-set message_key message_key (percent_encode message) (set status_key (decimal c) h),
          eq_text_refl message_key,
        )
        refl

  two_set-details : get details_key h ≡ [] → get details_key two_set ≡ []
  two_set-details none_there =
      rw
        (
          get-set message_key details_key (percent_encode message) (set status_key (decimal c) h),
          message_ne_details,
          get-set status_key details_key (decimal c) h,
          status_ne_details,
        )
        none_there

-- The three trailers without details, as they are read.
put_status-read :
    (w : Wire) (h : Headers) (c : Code) (message : Text)
    → get details_key h ≡ []
    → (c == 0) ≡ false
    → c < 2 ^ 32
    → All IsByte message
    → error_for_trailer w (put_status w h c message [])
      ≡ result (some (with_remote (new_error c message)))
unfolding put_status
put_status-read w h c message none_there =
    trailer-read w (two_set h c message) c message [] (two_set-status h c message)
      (two_set-message h c message) (two_set-details h c message none_there)

-- What the client should read of an error: its code and message if it has a verdict, else
-- CodeUnknown and its text.
abbrev pub remote_form : GoError → Option Verdict → GoError
remote_form e none = with_remote (new_error unknown (text_of e))
remote_form e (some v) = with_remote (new_error (error_code v) v.message)

-- A verdict that the trailers carry without details.
abbrev pub IsPlain : GoError → Option Verdict → Type 0
IsPlain e none = All IsByte (text_of e)
IsPlain e (some v) = (v.details ≡ []) × (error_code v < 2 ^ 32) × All IsByte v.message

pub error_code_ne_zero : (v : Verdict) → (error_code v == 0) ≡ false
unfolding error_code
error_code_ne_zero v = ground arith

found-read :
    (w : Wire) (h : Headers) (e : GoError) (o : Option Verdict)
    → get details_key h ≡ []
    → IsPlain e o
    → error_for_trailer w (put_found w h e o) ≡ result (some (remote_form e o))
unfolding put_verdict error_code
found-read w h e none n p = put_status-read w h unknown (text_of e) n refl (omega arith) p
found-read w h e (some v) n (d, small, bytes) =
    rw d (put_status-read w h (error_code v) v.message n (error_code_ne_zero v) small bytes)

-- A client reads from the trailers the code and the message that the server wrote, marked as remote,
-- for every error without details and any message bytes. An error is never read as success: only a
-- nil error is. The trailer had no details before.
pub error_for_trailer-error_to_trailer :
    (w : Wire) (h : Headers)
    → get details_key h ≡ []
    → (error_for_trailer w (error_to_trailer w h none) ≡ result none)
      × ((e : GoError)
          → IsPlain e (wire_verdict e)
          → error_for_trailer w (error_to_trailer w h (some e))
            ≡ result (some (remote_form e (wire_verdict e))))
unfolding error_to_trailer
error_for_trailer-error_to_trailer w h n = (success, λ e p. found-read w h e (wire_verdict e) n p)
  where
    success : error_for_trailer w (set status_key (codes "0") h) ≡ result none
    success =
        unfold error_for_trailer read_status in
        rw
          (
            get-set status_key status_key (codes "0") h,
            eq_text_refl status_key,
            zero_nonempty,
            eq_text_refl (codes "0"),
          )
          refl
