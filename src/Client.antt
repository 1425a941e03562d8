-- ===== src/Client.antt =====
-- connect.go: `CallInfo`, `Client` with its interceptors, and the calls over a `ClientStream`.
--
-- A transport is a parameter: its streams have a state `T` of their own, which every operation takes
-- and returns. The `CallInfo` of a client context is given as its content.
pub mod Unary
use connect_go.Base.{ℕ, List, [], ◌∷◌, ◌++◌, Option, none, some, Text, codes}
use connect_go.Errors.{GoError, text_of, wrapped, joined}
use connect_go.Headers.{Headers}
use connect_go.Messages.{Stats}
use connect_go.Server.{Spec, chain_backward}
use connect_go.Streams.{Try, ok, fail}

abbrev pub no_stats : Stats
no_stats = record { size = 0; compressed_size = 0 }

-- `CallInfo`; `TransportInfo` is opaque.
pub record CallInfo (A : Type 0) : Type 0 where
  pub spec : Option (Spec A)  -- `none` is the zero Spec
  pub peer_addr : Text
  pub protocol : Text
  pub codec : Text
  pub request_encoding : Text
  pub response_encoding : Text
  pub send_stats : Stats
  pub receive_stats : Stats
  pub transport_info : Option Text
  pub request : Headers
  pub response : Headers
  pub trailer : Headers

abbrev pub new_call_info : {A : Type 0} → CallInfo A
new_call_info = record {
  spec = none;
  peer_addr = [];
  protocol = [];
  codec = [];
  request_encoding = [];
  response_encoding = [];
  send_stats = no_stats;
  receive_stats = no_stats;
  transport_info = none;
  request = [];
  response = [];
  trailer = [];
}

-- `ensureClientContext`, of the client-side CallInfo of a context.
unfoldable pub ensure_client_context : {A : Type 0} → Option (CallInfo A) → CallInfo A
ensure_client_context none = new_call_info
ensure_client_context (some info) = record info {
  spec = none;
  peer_addr = [];
  protocol = [];
  codec = [];
  request_encoding = [];
  response_encoding = [];
  transport_info = none;
  send_stats = no_stats;
  receive_stats = no_stats;
  response = [];
  trailer = [];
}

-- `ClientStream`, for messages `M`. `Receive` gives the message that it stored.
pub record ClientStream (M T : Type 0) : Type 0 where
  pub send : M → T → Option GoError × T
  pub close_send : T → Option GoError × T
  pub receive : T → Try M × T
  pub close : T → Option GoError × T

-- `ClientFunc`, which opens a stream.
abbrev pub ClientFunc : Type 0 → Type 0 → Type 0
ClientFunc A T = CallInfo A → Spec A → Try T

-- `NewClient`: the function behind the interceptors.
unfoldable pub new_client :
    {A T : Type 0} → List (ClientFunc A T → ClientFunc A T) → ClientFunc A T → ClientFunc A T
new_client interceptors new_client_stream = chain_backward interceptors new_client_stream

-- `errors.Join` of two errors, either of which may be nil. Of one error it is a wrapper with its text.
unfoldable pub join_errors : Option GoError → Option GoError → Option GoError
join_errors none none = none
join_errors (some e) none = some (wrapped (text_of e) e)
join_errors none (some e) = some (wrapped (text_of e) e)
join_errors (some a) (some b) = some (joined a b)

-- What a unary call returns: its error, the response that it stored, and the stream that it opened.
pub record Called (M T : Type 0) : Type 0 where
  pub err : Option GoError
  pub response : Option M
  pub stream : Option T

-- The stream that `CallServerStream` returns, or its error and the stream that it leaves behind.
pub data Opened (T : Type 0) : Type 0 where
  opened : T → Opened T
  not_opened : GoError → Option T → Opened T

module _ {M T : Type 0} (ops : ClientStream M T) where
  -- The deferred `Close`, joined to the error of the body.
  abbrev pub close_after : Option GoError → Option M → T → Called M T
  close_after e response t =
      let c = ops.close t in
      record { err = join_errors e c.0; response = response; stream = some c.1 }

  abbrev pub receive_response : Try M × T → Called M T
  receive_response (ok m, t) = close_after none (some m) t
  receive_response (fail e, t) = close_after (some e) none t

  abbrev pub after_close_send : Option GoError × T → Called M T
  after_close_send (some e, t) = close_after (some e) none t
  after_close_send (none, t) = receive_response (ops.receive t)

  abbrev pub after_send : Option GoError × T → Called M T
  after_send (some e, t) = close_after (some e) none t
  after_send (none, t) = after_close_send (ops.close_send t)

  abbrev pub with_stream : M → Try T → Called M T
  with_stream req (fail e) = record { err = some e; response = none; stream = none }
  with_stream req (ok t) = after_send (ops.send req t)

  abbrev pub opened_after_close : Option GoError × T → Opened T
  opened_after_close (none, t) = opened t
  opened_after_close (some e, t) = not_opened e (some t)

  abbrev pub opened_after_send : Option GoError × T → Opened T
  opened_after_send (none, t) = opened_after_close (ops.close_send t)
  opened_after_send (some e, t) = not_opened e (some t)

  abbrev pub open_with : M → Try T → Opened T
  open_with req (fail e) = not_opened e none
  open_with req (ok t) = opened_after_send (ops.send req t)

-- `Client.CallClientStream`
unfoldable pub call_client_stream :
    {A T : Type 0} → ClientFunc A T → Option (CallInfo A) → Spec A → Try T
call_client_stream client info spec = client (ensure_client_context info) spec

module _ {A M T : Type 0} (ops : ClientStream M T) (client : ClientFunc A T) where
  -- `Client.CallUnary`
  unfoldable pub call_unary : Option (CallInfo A) → Spec A → M → Called M T
  call_unary info spec req = with_stream ops req (client (ensure_client_context info) spec)

  -- `Client.CallServerStream`
  unfoldable pub call_server_stream : Option (CallInfo A) → Spec A → M → Opened T
  call_server_stream info spec req = open_with ops req (client (ensure_client_context info) spec)
