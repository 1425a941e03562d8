-- ===== src/Statuses.antt =====
-- The HTTP status of a code, `connectCodeToHTTP` of connecthttp/protocol_connect.go, and the code of
-- an HTTP status, `httpToCode` of connecthttp/protocol.go.
pub mod Mapping
use connect_go.Base.{ℕ, Bool, ◌||◌, ◌==◌, if◌then◌else◌}
use connect_go.Codes.{
  Code, canceled, unknown, invalid_argument, deadline_exceeded, not_found, already_exists,
  permission_denied, resource_exhausted, failed_precondition, aborted, out_of_range, unimplemented,
  internal, unavailable, data_loss, unauthenticated,
}

-- `connectCodeToHTTP`
unfoldable pub code_to_http : Code → ℕ
code_to_http c =
    if c == canceled
    then 499
    else if c == unknown
    then 500
    else if c == invalid_argument
    then 400
    else if c == deadline_exceeded
    then 504
    else if c == not_found
    then 404
    else if c == already_exists
    then 409
    else if c == permission_denied
    then 403
    else if c == resource_exhausted
    then 429
    else if c == failed_precondition
    then 400
    else if c == aborted
    then 409
    else if c == out_of_range
    then 400
    else if c == unimplemented
    then 501
    else if c == internal
    then 500
    else if c == unavailable
    then 503
    else if c == data_loss
    then 500
    else if c == unauthenticated
    then 401
    else 500

-- `httpToCode`
unfoldable pub http_to_code : ℕ → Code
http_to_code s =
    if s == 400
    then internal
    else if s == 401
    then unauthenticated
    else if s == 403
    then permission_denied
    else if s == 404
    then unimplemented
    else if s == 429
    then unavailable
    else if s == 502 || (s == 503 || s == 504)
    then unavailable
    else unknown
