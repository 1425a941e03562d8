-- ===== src/HttpCall/Payloads.antt =====
-- connecthttp/duplex_http_call.go: `Send` of a payload, into the pipe or as the whole request.
use connect_go.Base.{
  ℕ, Bool, not, ◌&&◌, Option, none, some, Text, codes, ◌==◌, if◌then◌else◌, length,
}
use connect_go.Errors.Wrap.{Context, wrap_if_context_error}
use connect_go.Errors.{GoError, io_eof, closed_pipe, opaque, is}
use connect_go.Streams.{Try}
use connect_go.HttpCall.{
  Request, Response, Hooks, Call, sends_stream, begin_request, finish_request, unless_done,
  with_payload,
}

abbrev pub no_closed_pipe : ℕ × Option GoError → ℕ × Option GoError
no_closed_pipe (n, none) = (n, none)
no_closed_pipe (n, some e) = (n, some (if is closed_pipe e then io_eof else e))

abbrev pub written : Bool → Text → (Text → ℕ × Option GoError) → ℕ × Option GoError
written first bytes pipe_write =
    if first && length bytes == 0 then (0, none) else no_closed_pipe (pipe_write bytes)

-- `Send` where the request streams, with the write side of the pipe.
unfoldable pub send_stream :
    Hooks → (Text → ℕ × Option GoError) → Text → Call → (ℕ × Option GoError) × Call
send_stream h pipe_write bytes c =
    (unless_done c.ctx.err (written (not c.request_sent) bytes pipe_write), begin_request h c)

abbrev pub unary_result : ℕ → Option GoError → Option GoError → ℕ × Option GoError
unary_result n (some e) (some done) = (0, some (wrap_if_context_error done))
unary_result n _ _ = (n, none)

abbrev pub sent_unary :
    Hooks → (Request → Try Response) → Context → Text → Call → (ℕ × Option GoError) × Call
sent_unary h do_request later bytes c =
    let c' = begin_request h (with_payload bytes c) in
    let c'' = record (finish_request h (do_request c'.request) c') { ctx = later } in
    (unary_result (length bytes) c''.response_err later.err, c'')

-- `sendUnary`, with `HTTPClient.Do`, and the context as it is when that returns.
unfoldable pub send_unary :
    Hooks → (Request → Try Response) → Context → Text → Call → (ℕ × Option GoError) × Call
send_unary h do_request later bytes c =
    if c.request_sent
    then ((0, some (opaque (codes "request already sent"))), c)
    else sent_unary h do_request later bytes c

-- `Send`
unfoldable pub send_payload :
    Hooks
    → (Text → ℕ × Option GoError)
    → (Request → Try Response)
    → Context
    → Text
    → Call
    → (ℕ × Option GoError) × Call
send_payload h pipe_write do_request later bytes c =
    if sends_stream c.stream_type
    then send_stream h pipe_write bytes c
    else send_unary h do_request later bytes c
