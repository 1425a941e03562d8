-- ===== src/Errors.antt =====
-- Go error values as this module meets them, `connect.Error` and its methods (connect.go), and
-- `errors.Is`, `errors.As`, `errors.Join` over them. A nil error is `none` where one can occur.
pub mod Wrap
pub mod Laws
pub mod Scrub
pub mod Reset
use connect_go.Base.{
  ℕ, Bool, true, false, ◌||◌, List, [], ◌∷◌, ◌++◌, Option, none, some, Text, codes, ◌==◌,
  if◌then◌else◌, length,
}
use connect_go.Codes.{Code, code_string, unknown}

-- Error values that the code compares with `errors.Is`.
pub data Sentinel : Type 0 where
  eof unexpected_eof closed_pipe context_canceled context_deadline os_deadline : Sentinel
  not_modified trailers_without_status no_timeout_set : Sentinel

abbrev pub same_sentinel : Sentinel → Sentinel → Bool
same_sentinel eof eof = true
same_sentinel unexpected_eof unexpected_eof = true
same_sentinel closed_pipe closed_pipe = true
same_sentinel context_canceled context_canceled = true
same_sentinel context_deadline context_deadline = true
same_sentinel os_deadline os_deadline = true
same_sentinel not_modified not_modified = true
same_sentinel trailers_without_status trailers_without_status = true
same_sentinel no_timeout_set no_timeout_set = true
same_sentinel _ _ = false

-- `connect.ErrorDetail`
pub record Detail : Type 0 where
  pub type_name : Text
  pub value : Text
  pub debug : Text

-- The fields of `connect.Error` but its cause.
pub record Verdict : Type 0 where
  pub code : Code
  pub message : Text
  pub details : List Detail
  pub remote : Bool

pub data GoError : Type 0 where
  -- a package variable, with its text
  sentinel : Sentinel → Text → GoError
  -- a value of which the code reads only the text
  opaque : Text → GoError
  -- `*http.MaxBytesError`, with its limit
  max_bytes : ℕ → GoError
  -- `*url.Error`, with the text in front of its cause's
  url_error : Text → GoError → GoError
  -- `fmt.Errorf` with `%w`, with the whole text
  wrapped : Text → GoError → GoError
  -- `errors.Join` of two errors
  joined : GoError → GoError → GoError
  -- `*connect.Error`, without and with a cause
  coded : Verdict → GoError
  coded_by : Verdict → GoError → GoError
  -- the package variable `errSpecialEnvelope`, a `*connect.Error` caused by `io.EOF`
  special_envelope : GoError

abbrev pub io_eof : GoError
io_eof = sentinel eof (codes "EOF")

-- `connect.NewError`
abbrev pub new_error : Code → Text → GoError
new_error c message = coded (record { code = c; message = message; details = []; remote = false })

-- `Error.Code`: a stored zero reads as CodeUnknown.
unfoldable pub error_code : Verdict → Code
error_code v = if v.code == 0 then unknown else v.code

-- `Error.Error`
unfoldable pub error_text : Verdict → Text
unfolding error_code
error_text v =
    if length v.message == 0
    then code_string (error_code v)
    else code_string (error_code v) ++ (codes ": " ++ v.message)

abbrev pub special_verdict : Verdict
special_verdict = record {
  code = unknown;
  message = codes "final message has protocol-specific flags: EOF";
  details = [];
  remote = false;
}

-- The `Error` method of each kind of error.
unfoldable pub text_of : GoError → Text
unfolding error_text
text_of (sentinel s t) = t
text_of (opaque t) = t
text_of (max_bytes n) = codes "http: request body too large"
text_of (url_error prefix e) = prefix ++ text_of e
text_of (wrapped t e) = t
text_of (joined a b) = text_of a ++ (codes "\n" ++ text_of b)
text_of (coded v) = error_text v
text_of (coded_by v e) = error_text v
text_of special_envelope = error_text special_verdict

-- `errors.Is(err, s)` for a package variable `s`.
unfoldable pub is : Sentinel → GoError → Bool
is s (sentinel s' t) = same_sentinel s s'
is s (opaque t) = false
is s (max_bytes n) = false
is s (url_error prefix e) = is s e
is s (wrapped t e) = is s e
is s (joined a b) = is s a || is s b
is s (coded v) = false
is s (coded_by v e) = is s e
is s special_envelope = same_sentinel s eof

-- `errors.Is(err, errSpecialEnvelope)`
unfoldable pub is_special : GoError → Bool
is_special (sentinel s t) = false
is_special (opaque t) = false
is_special (max_bytes n) = false
is_special (url_error prefix e) = is_special e
is_special (wrapped t e) = is_special e
is_special (joined a b) = is_special a || is_special b
is_special (coded v) = false
is_special (coded_by v e) = is_special e
is_special special_envelope = true

abbrev pub or_else {ℓ} : {A : Type ℓ} → Option A → Option A → Option A
or_else none o = o
or_else (some a) o = some a

-- `errors.As` for `*connect.Error`: the first one of the chain.
unfoldable pub as_error : GoError → Option GoError
as_error (sentinel s t) = none
as_error (opaque t) = none
as_error (max_bytes n) = none
as_error (url_error prefix e) = as_error e
as_error (wrapped t e) = as_error e
as_error (joined a b) = or_else (as_error a) (as_error b)
as_error (coded v) = some (coded v)
as_error (coded_by v e) = some (coded_by v e)
as_error special_envelope = some special_envelope

-- `errors.As` for `*http.MaxBytesError`: its limit.
unfoldable pub as_max_bytes : GoError → Option ℕ
as_max_bytes (sentinel s t) = none
as_max_bytes (opaque t) = none
as_max_bytes (max_bytes n) = some n
as_max_bytes (url_error prefix e) = as_max_bytes e
as_max_bytes (wrapped t e) = as_max_bytes e
as_max_bytes (joined a b) = or_else (as_max_bytes a) (as_max_bytes b)
as_max_bytes (coded v) = none
as_max_bytes (coded_by v e) = as_max_bytes e
as_max_bytes special_envelope = none

-- `errors.As` for `*url.Error`, and its `Unwrap`.
unfoldable pub as_url_cause : GoError → Option GoError
as_url_cause (sentinel s t) = none
as_url_cause (opaque t) = none
as_url_cause (max_bytes n) = none
as_url_cause (url_error prefix e) = some e
as_url_cause (wrapped t e) = as_url_cause e
as_url_cause (joined a b) = or_else (as_url_cause a) (as_url_cause b)
as_url_cause (coded v) = none
as_url_cause (coded_by v e) = as_url_cause e
as_url_cause special_envelope = none

-- The fields of the `*connect.Error` that an error is; a value that is none has no verdict.
unfoldable pub verdict : GoError → Option Verdict
verdict (coded v) = some v
verdict (coded_by v e) = some v
verdict special_envelope = some special_verdict
verdict _ = none

abbrev pub found_verdict : Option GoError → Option Verdict
found_verdict none = none
found_verdict (some e) = verdict e

-- The verdict of the first `*connect.Error` of the chain.
abbrev pub wire_verdict : GoError → Option Verdict
wire_verdict e = found_verdict (as_error e)

abbrev pub verdict_code : Option Verdict → Code
verdict_code none = unknown
verdict_code (some v) = error_code v

-- `connect.CodeOf` of an error that is not nil.
unfoldable pub code_of : GoError → Code
code_of e = verdict_code (wire_verdict e)

-- `Error.WithCause`, for a cause that is not nil.
unfoldable pub with_cause : GoError → GoError → GoError
with_cause (coded v) cause = coded_by v cause
with_cause (coded_by v old) cause = coded_by v (joined old cause)
with_cause special_envelope cause = coded_by special_verdict (joined io_eof cause)
with_cause e cause = e

abbrev pub append_detail : Verdict → Detail → Verdict
append_detail v d = record v { details = v.details ++ d ∷ [] }

-- `Error.WithDetail`; a nil detail is ignored.
unfoldable pub with_detail : GoError → Option Detail → GoError
with_detail e none = e
with_detail (coded v) (some d) = coded (append_detail v d)
with_detail (coded_by v c) (some d) = coded_by (append_detail v d) c
with_detail special_envelope (some d) = coded_by (append_detail special_verdict d) io_eof
with_detail e (some d) = e

abbrev pub mark_remote : Verdict → Verdict
mark_remote v = record v { remote = true }

-- `Error.WithRemote`
unfoldable pub with_remote : GoError → GoError
with_remote (coded v) = coded (mark_remote v)
with_remote (coded_by v c) = coded_by (mark_remote v) c
with_remote special_envelope = coded_by (mark_remote special_verdict) io_eof
with_remote e = e
