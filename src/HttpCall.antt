-- ===== src/HttpCall.antt =====
-- connecthttp/duplex_http_call.go: one HTTP call, of which the request streams from the client and
-- the response to it.
--
-- A payload is its bytes. `HTTPClient.Do`, the pipe of io and the reading and closing of a response's
-- body are parameters, given as their results. The goroutine of `makeRequest` is its two ends: the
-- request goes out, and the client's answer comes back; between the two the call is `in_flight`.
pub mod Payloads
pub mod Responses
pub mod Steps
pub mod Reach
pub mod Final
pub mod Failures
pub mod Sending
pub mod Body
pub mod Retry
use connect_go.Base.{
  ℕ, zero, suc, ◌+◌, ◌%◌, Bool, true, false, not, ◌&&◌, ◌||◌, List, [], ◌∷◌, ◌++◌, Option, none,
  some, Text, codes, eq_text, ltb, ◌==◌, if◌then◌else◌, length,
}
use connect_go.Base.Decimal.{decimal}
use connect_go.Codes.{unavailable, unimplemented}
use connect_go.Errors.Reset.{
  wrap_if_rst_error, wrap_if_likely_h2c_not_configured_error,
  wrap_if_likely_with_grpc_not_used_error,
}
use connect_go.Errors.Wrap.{Context, is_coded, recoded, wrap_if_context_error, wrap_if_context_done}
use connect_go.Errors.{GoError, io_eof, eof, closed_pipe, opaque, new_error, is}
use connect_go.Headers.{Headers, get}
use connect_go.Streams.{Try, ok, fail, io_unexpected_eof}

-- The body of a request: `http.NoBody`, the read side of a pipe, or a payload.
pub data RequestBody : Type 0 where
  no_body pipe : RequestBody
  payload : Text → RequestBody

pub record Request : Type 0 where
  pub method : Text
  pub scheme : Text
  pub url : Text
  pub host : Text
  pub header : Headers
  pub body : RequestBody
  pub content_length : Option ℕ  -- `none` is -1

pub record Response : Type 0 where
  pub status_code : ℕ
  pub proto_major : ℕ
  pub proto_minor : ℕ
  pub header : Headers
  pub trailer : Headers

-- What the protocol hangs into the call: `onRequestSend` as what it does to the request, and
-- `validateResponse`; and the functions of the Go library.
pub record Hooks : Type 0 where
  pub on_request_send : Option (Request → Request)
  pub validate_response : Response → Option GoError
  pub trim_space : Text → Text

-- `duplexHTTPCall`; `responseReady` is closed when `response_ready` is true.
pub record Call : Type 0 where
  pub ctx : Context
  pub stream_type : ℕ
  pub request_sent : Bool
  pub request : Request
  pub pipe_closed : Bool
  pub in_flight : Bool
  pub response_ready : Bool
  pub response : Option Response
  pub response_err : Option GoError

-- The bit `StreamTypeClient`, and both bits of `StreamTypeBidi`.
abbrev pub sends_stream : ℕ → Bool
sends_stream stream_type = stream_type % 2 == 1

abbrev pub is_bidi : ℕ → Bool
is_bidi stream_type = stream_type % 4 == 3

-- `newDuplexHTTPCall`
unfoldable pub new_call : Context → ℕ → Text → Text → Text → Headers → Call
new_call ctx stream_type scheme url host header = record {
  ctx = ctx;
  stream_type = stream_type;
  request_sent = false;
  request = record {
    method = codes "POST";
    scheme = scheme;
    url = url;
    host = host;
    header = header;
    body = if sends_stream stream_type then pipe else no_body;
    content_length = if sends_stream stream_type then none else some 0;
  };
  pipe_closed = false;
  in_flight = false;
  response_ready = false;
  response = none;
  response_err = none;
}

-- `SetMethod`
unfoldable pub set_method : Text → Call → Call
set_method method c = record c { request = record c.request { method = method } }

abbrev pub promoted : Text → Request → Request
promoted host r = if ltb 0 (length host) then record r { host = host } else r

abbrev pub sending_hook : Option (Request → Request) → Request → Request
sending_hook none r = r
sending_hook (some hook) r = hook r

-- The request as `makeRequest` hands it to the client.
unfoldable pub outgoing : Hooks → Request → Request
outgoing h r = sending_hook h.on_request_send (promoted (get (codes "Host") r.header) r)

-- `requestSent.CompareAndSwap(false, true)`, and the start of `makeRequest` where that succeeds.
unfoldable pub begin_request : Hooks → Call → Call
begin_request h c =
    if c.request_sent
    then c
    else record c { request_sent = true; in_flight = true; request = outgoing h c.request }

-- `CloseWrite`; closing a body that is no pipe does nothing.
unfoldable pub close_write : Hooks → Call → Call
close_write h c =
    let c' = begin_request h c in
    if sends_stream c.stream_type then record c' { pipe_closed = true } else c'

abbrev pub no_eof : GoError → GoError
no_eof e = if is eof e then io_unexpected_eof else e

abbrev pub coded_or_unavailable : GoError → GoError
coded_or_unavailable e = if is_coded e then e else recoded unavailable e

-- What `makeRequest` makes of an error of the client.
unfoldable pub request_error : (Text → Text) → Context → Bool → GoError → GoError
request_error trim_space ctx other_scheme e = coded_or_unavailable (
    wrap_if_rst_error trim_space ctx (
      wrap_if_likely_with_grpc_not_used_error
        (wrap_if_likely_h2c_not_configured_error other_scheme (wrap_if_context_error (no_eof e)))))

abbrev pub old_protocol : Request → Response → GoError
old_protocol request r = new_error unimplemented (
    codes "response from "
    ++ (request.url
        ++ (codes " is HTTP/"
            ++ (decimal r.proto_major
                ++ (codes "."
                    ++ (decimal r.proto_minor
                        ++ codes ": bidi streams require at least HTTP/2"))))))

-- The errors that `makeRequest` finds in a response.
unfoldable pub response_error : Hooks → Call → Response → Option GoError
response_error h c r = elim (h.validate_response r) [
  | some e ↦ some e
  | none ↦
      if is_bidi c.stream_type && ltb r.proto_major 2 then some (old_protocol c.request r) else none
]

abbrev pub failed_with : Hooks → Option GoError → Call → Call
failed_with h none c = c
failed_with h (some e) c = close_write h (record c { response_err = some e })

abbrev pub ready : Call → Call
ready c = record c { response_ready = true; in_flight = false }

-- The rest of `makeRequest`, from the client's answer on.
unfoldable pub finish_request : Hooks → Try Response → Call → Call
finish_request h (fail e) c = ready (
    failed_with h
      (some (request_error h.trim_space c.ctx (not (eq_text c.request.scheme (codes "http"))) e)) c)
finish_request h (ok r) c =
    ready (failed_with h (response_error h c r) (record c { response = some r }))

abbrev pub blocked_or : Option GoError → Option (Option Response × Option GoError)
blocked_or none = none
blocked_or (some e) = some (none, some (wrap_if_context_error e))

-- `blockUntilResponseReady`: `none` while it blocks.
unfoldable pub block_until_response_ready : Call → Option (Option Response × Option GoError)
block_until_response_ready c =
    if c.response_ready then some (c.response, c.response_err) else blocked_or c.ctx.err

abbrev pub unless_done : Option GoError → ℕ × Option GoError → ℕ × Option GoError
unless_done none result = result
unless_done (some e) result = (0, some (wrap_if_context_error e))

-- The request body that `sendUnary` sets.
abbrev pub with_payload : Text → Call → Call
with_payload bytes c =
    if ltb 0 (length bytes)
    then record c {
      request = record c.request { body = payload bytes; content_length = some (length bytes) };
    }
    else c
