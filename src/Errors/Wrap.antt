-- ===== src/Errors/Wrap.antt =====
-- connecthttp/error.go: giving codes to errors that have none. A nil error is passed through.
use connect_go.Base.{
  ℕ, Bool, true, false, ◌||◌, [], ◌++◌, Option, none, some, Text, codes, if◌then◌else◌,
}
use connect_go.Base.Decimal.{decimal}
use connect_go.Codes.{Code, canceled, unknown, deadline_exceeded, resource_exhausted, internal}
use connect_go.Errors.{
  Sentinel, context_canceled, context_deadline, os_deadline, not_modified, GoError, sentinel,
  new_error, text_of, is, as_error, as_max_bytes, with_cause, Verdict, verdict,
}

-- `connect.NewError(code, err.Error()).WithCause(err)`
abbrev pub recoded : Code → GoError → GoError
recoded c e = with_cause (new_error c (text_of e)) e

abbrev pub has_error : Option GoError → Bool
has_error none = false
has_error (some _) = true

abbrev pub is_coded : GoError → Bool
is_coded e = has_error (as_error e)

-- `NewNotModifiedError`
unfoldable pub new_not_modified_error : GoError
unfolding with_cause
new_not_modified_error =
    with_cause (new_error unknown (codes "not modified"))
      (sentinel not_modified (codes "not modified"))

-- `IsNotModifiedError`, of an error that is not nil.
abbrev pub is_not_modified_error : GoError → Bool
is_not_modified_error = is not_modified

-- `wrapIfContextError`
unfoldable pub wrap_if_context_error : GoError → GoError
unfolding with_cause
wrap_if_context_error e =
    if is_coded e
    then e
    else if is context_canceled e
    then recoded canceled e
    else if is context_deadline e
    then recoded deadline_exceeded e
    else if is os_deadline e
    then recoded deadline_exceeded e
    else e

abbrev pub coded_or_unknown : GoError → GoError
coded_or_unknown e = if is_coded e then e else recoded unknown e

-- `wrapIfUncoded`
unfoldable pub wrap_if_uncoded : Option GoError → Option GoError
unfolding with_cause
wrap_if_uncoded none = none
wrap_if_uncoded (some e) = some (coded_or_unknown (wrap_if_context_error e))

-- What the code asks of a context: `ctx.Err()`, and whether its deadline, if any, has passed.
pub record Context : Type 0 where
  pub err : Option GoError
  pub past_deadline : Bool

abbrev pub is_in : Sentinel → Option GoError → Bool
is_in s none = false
is_in s (some e) = is s e

abbrev pub blame_context : Context → GoError → GoError
blame_context ctx e =
    if is_coded e
    then e
    else if is_in context_canceled ctx.err
    then recoded canceled e
    else if is_in context_deadline ctx.err
    then recoded deadline_exceeded e
    else e

-- `wrapIfContextDone`
unfoldable pub wrap_if_context_done : Context → GoError → GoError
unfolding with_cause wrap_if_context_error
wrap_if_context_done ctx e = blame_context ctx (wrap_if_context_error e)

abbrev pub max_bytes_error : Text → GoError → Option ℕ → GoError
max_bytes_error what e none = e
max_bytes_error what e (some limit) =
    new_error resource_exhausted
      (what ++ (codes ": exceeded " ++ (decimal limit ++ codes " byte http.MaxBytesReader limit")))

-- `wrapIfMaxBytesError`, with the formatted prefix.
unfoldable pub wrap_if_max_bytes_error : Text → GoError → GoError
wrap_if_max_bytes_error what e = if is_coded e then e else max_bytes_error what e (as_max_bytes e)

abbrev pub verdict_remote : Option Verdict → Bool
verdict_remote none = false
verdict_remote (some v) = v.remote

abbrev pub scrub_coded : GoError → GoError → GoError
scrub_coded e found =
    if verdict_remote (verdict found) then with_cause (new_error internal []) e else e

-- The code that stays when the message of an error without one is dropped.
unfoldable pub bare_code : GoError → Code
bare_code e =
    if is context_canceled e
    then canceled
    else if is context_deadline e || is os_deadline e
    then deadline_exceeded
    else unknown

abbrev pub scrub_found : GoError → Option GoError → GoError
scrub_found e none = with_cause (new_error (bare_code e) []) e
scrub_found e (some found) = scrub_coded e found

-- `scrubHandlerError`
unfoldable pub scrub_handler_error : Option GoError → Option GoError
unfolding with_cause
scrub_handler_error none = none
scrub_handler_error (some e) = some (scrub_found e (as_error e))
