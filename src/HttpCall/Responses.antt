-- ===== src/HttpCall/Responses.antt =====
-- connecthttp/duplex_http_call.go: what a call gives of its response. `none` is a call that blocks.
use connect_go.Base.{ℕ, Bool, true, false, [], Option, none, some, if◌then◌else◌}
use connect_go.Errors.Reset.{wrap_if_rst_error}
use connect_go.Errors.Wrap.{Context, wrap_if_context_done}
use connect_go.Errors.{GoError, eof, is}
use connect_go.Headers.{Headers}
use connect_go.HttpCall.{Response, Hooks, Call, block_until_response_ready, unless_done}

abbrev pub read_outcome : Hooks → Context → ℕ × Option GoError → ℕ × Option GoError
read_outcome h ctx (n, none) = (n, none)
read_outcome h ctx (n, some e) = (
  n,
  some (if is eof e then e else wrap_if_rst_error h.trim_space ctx (wrap_if_context_done ctx e)),
)

abbrev pub read_ready :
    Hooks
    → Context
    → (Response → ℕ × Option GoError)
    → Option Response × Option GoError
    → ℕ × Option GoError
read_ready h ctx body_read (_, some e) = (0, some e)
read_ready h ctx body_read (none, none) = (0, none)
read_ready h ctx body_read (some r, none) = unless_done ctx.err (read_outcome h ctx (body_read r))

-- `Read`, with the read of the response's body; `none` while it blocks. A call that is ready has a
-- response or an error.
unfoldable pub read : Hooks → (Response → ℕ × Option GoError) → Call → Option (ℕ × Option GoError)
read h body_read c = elim (block_until_response_ready c) [
  | none ↦ none
  | some found ↦ some (read_ready h c.ctx body_read found)
]

abbrev pub closed_body : Hooks → Context → Option GoError → Option GoError
closed_body h ctx none = none
closed_body h ctx (some e) = some (wrap_if_rst_error h.trim_space ctx (wrap_if_context_done ctx e))

abbrev pub close_found :
    Hooks
    → Context
    → (Response → Option GoError)
    → Option Response × Option GoError
    → Option GoError
close_found h ctx body_close (none, _) = none
close_found h ctx body_close (some r, _) = closed_body h ctx (body_close r)

-- `CloseRead`
unfoldable pub close_read : Hooks → (Response → Option GoError) → Call → Option (Option GoError)
close_read h body_close c = elim (block_until_response_ready c) [
  | none ↦ none
  | some found ↦ some (close_found h c.ctx body_close found)
]

abbrev pub status_of : Option Response × Option GoError → ℕ × Option GoError
status_of (_, some e) = (0, some e)
status_of (none, none) = (0, none)
status_of (some r, none) = (r.status_code, none)

-- `ResponseStatusCode`
unfoldable pub response_status_code : Call → Option (ℕ × Option GoError)
response_status_code c = elim (block_until_response_ready c) [
  | none ↦ none
  | some found ↦ some (status_of found)
]

abbrev pub trailer_of : Option Response × Option GoError → Headers
trailer_of (none, _) = []
trailer_of (some r, _) = r.trailer

-- `ResponseTrailer` and `ResponseHeader`
unfoldable pub response_trailer : Call → Option Headers
response_trailer c = elim (block_until_response_ready c) [
  | none ↦ none
  | some found ↦ some (trailer_of found)
]

abbrev pub header_of : Option Response × Option GoError → Headers
header_of (none, _) = []
header_of (some r, _) = r.header

unfoldable pub response_header : Call → Option Headers
response_header c = elim (block_until_response_ready c) [
  | none ↦ none
  | some found ↦ some (header_of found)
]

abbrev pub has_response : Option Response × Option GoError → Bool
has_response (none, _) = false
has_response (some _, _) = true

-- `awaitResponse`
unfoldable pub await_response : Call → Option Bool
await_response c = elim (block_until_response_ready c) [
  | none ↦ if c.request_sent then none else some false
  | some found ↦ if c.request_sent then some (has_response found) else some false
]
