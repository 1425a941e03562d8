-- ===== src/Errors/Reset.antt =====
-- connecthttp/error.go: codes for HTTP/2 stream resets, and hints in errors of net/http, which are
-- known by their texts only. `strings.TrimSpace` is a parameter.
pub mod Peer
use connect_go.Base.{
  ℕ, ◌+◌, ◌-◌, ◌≡◌, ◌≢◌, refl, sym, ap, ◌∙◌, Bool, true, false, not, ◌&&◌, ◌||◌, [], ◌∷◌, ◌++◌,
  Option, none, some, Text, codes, eq_text, eq_text_refl, cut_prefix, has_prefix, arith, ltb, leb,
  ◌==◌, if◌then◌else◌, length, take, drop, Bool-cases, Option-cases, inl, inr,
}
use connect_go.Codes.{
  Code, canceled, deadline_exceeded, resource_exhausted, internal, unavailable, permission_denied,
}
use connect_go.Errors.{
  GoError, Sentinel, is, text_of, new_error, with_cause, wrapped, as_error, as_url_cause, code_of,
}
use connect_go.Errors.Wrap.{Context, is_coded, recoded}

abbrev pub cut_at : ℕ → Text → Text → Option Text
cut_at n suffix s = if eq_text (drop n s) suffix then some (take n s) else none

-- `strings.CutSuffix`
unfoldable pub cut_suffix : Text → Text → Option Text
cut_suffix suffix s =
    if leb (length suffix) (length s) then cut_at (length s - length suffix) suffix s else none

abbrev pub has_suffix : Text → Text → Bool
has_suffix suffix s = elim (cut_suffix suffix s) [ none ↦ false | some _ ↦ true ]

-- `strings.Contains`
unfoldable pub contains_text : Text → Text → Bool
contains_text part [] = has_prefix part []
contains_text part (c ∷ cs) = has_prefix part (c ∷ cs) || contains_text part cs

-- The text behind the last semicolon, if there is one.
unfoldable pub after_semicolon : Option Text → Text → Option Text
after_semicolon found [] = found
after_semicolon found (c ∷ cs) =
    let restarted = after_semicolon (some cs) cs in
    let same = after_semicolon found cs in if c == b';' then restarted else same

-- Nothing behind the semicolon counts as no semicolon.
abbrev pub trimmed : (Text → Text) → Option Text → Option Text
trimmed trim_space none = none
trimmed trim_space (some []) = none
trimmed trim_space (some (c ∷ cs)) = some (trim_space (c ∷ cs))

abbrev pub reset_of : (Text → Text) → Option Text → Option Text
reset_of trim_space none = none
reset_of trim_space (some front) = trimmed trim_space (after_semicolon none front)

-- The name of the HTTP/2 error in the text of a reset by the peer.
unfoldable pub reset_name : (Text → Text) → Text → Option Text
reset_name trim_space message =
    if has_prefix (codes "stream error: ") message
    then reset_of trim_space (cut_suffix (codes "; received from peer") message)
    else none

-- The code for a name, if there is one.
unfoldable pub reset_code : Context → Text → Option Code
reset_code ctx name =
    if eq_text name (codes "NO_ERROR")
      || (eq_text name (codes "PROTOCOL_ERROR")
          || (eq_text name (codes "INTERNAL_ERROR")
              || (eq_text name (codes "FLOW_CONTROL_ERROR")
                  || (eq_text name (codes "SETTINGS_TIMEOUT")
                      || (eq_text name (codes "FRAME_SIZE_ERROR")
                          || (eq_text name (codes "COMPRESSION_ERROR")
                              || eq_text name (codes "CONNECT_ERROR")))))))
    then some internal
    else if eq_text name (codes "REFUSED_STREAM")
    then some unavailable
    else if eq_text name (codes "CANCEL")
    then some (if ctx.past_deadline then deadline_exceeded else canceled)
    else if eq_text name (codes "ENHANCE_YOUR_CALM")
    then some resource_exhausted
    else if eq_text name (codes "INADEQUATE_SECURITY")
    then some permission_denied
    else none

abbrev pub reset_text : Code → Text → Text
reset_text c t =
    if c == resource_exhausted
    then codes "bandwidth exhausted: " ++ t
    else if c == permission_denied
    then codes "transport protocol insecure: " ++ t
    else t

abbrev pub reset_error : GoError → Option Code → GoError
reset_error e none = e
reset_error e (some c) = with_cause (new_error c (reset_text c (text_of e))) e

abbrev pub code_for : Context → Option Text → Option Code
code_for ctx none = none
code_for ctx (some name) = reset_code ctx name

abbrev pub classify : (Text → Text) → Context → GoError → GoError
classify trim_space ctx e = reset_error e (code_for ctx (reset_name trim_space (text_of e)))

abbrev pub cause_or : GoError → Option GoError → GoError
cause_or e none = e
cause_or e (some cause) = cause

-- `wrapIfRSTError`
unfoldable pub wrap_if_rst_error : (Text → Text) → Context → GoError → GoError
unfolding with_cause
wrap_if_rst_error trim_space ctx e =
    if is_coded e then e else classify trim_space ctx (cause_or e (as_url_cause e))

abbrev pub common_errors_url : Text
common_errors_url = codes "https://connectrpc.com/docs/go/common-errors"

abbrev pub hint : Text → GoError → GoError
hint what e = wrapped (what ++ (common_errors_url ++ (codes ": " ++ text_of e))) e

-- `wrapIfLikelyH2CNotConfiguredError`, with whether the request has a URL whose scheme is not http.
unfoldable pub wrap_if_likely_h2c_not_configured_error : Bool → GoError → GoError
wrap_if_likely_h2c_not_configured_error other_scheme e =
    if is_coded e || other_scheme
    then e
    else if has_prefix (codes "Post \"") (text_of e)
        && (contains_text
              (codes "net/http: HTTP/1.x transport connection broken: malformed HTTP response")
              (text_of e)
            || has_suffix (codes "write: broken pipe") (text_of e))
    then hint (codes "possible h2c configuration issue when talking to gRPC server, see ") e
    else e

-- `wrapIfLikelyWithGRPCNotUsedError`
unfoldable pub wrap_if_likely_with_grpc_not_used_error : GoError → GoError
wrap_if_likely_with_grpc_not_used_error e =
    if is_coded e
    then e
    else if has_prefix (codes "Post \"") (text_of e)
        && (contains_text (codes "http2: Transport: cannot retry err") (text_of e)
            && has_suffix
                (codes "after Request.Body was written; define Request.GetBody to avoid this error")
                (text_of e))
    then hint
        (codes
          "possible missing connecthttp.WithGRPC() client option when talking to gRPC server, see ")
        e
    else e
