-- ===== src/Inprocess.antt =====
-- connectinprocess/unary.go and stream.go: unary calls inside the process, and the verdict that the
-- client sees of a server's error.
--
-- The copy of a message, `CopyFunc`, and the canonical form of a header key are parameters. The two
-- `CallInfo` values that the client and the handler share with the stream are part of its state, and
-- contexts name them.
pub mod Verdicts
pub mod Unary
use connect_go.Base.{
  ℕ, Bool, true, false, List, [], ◌∷◌, ◌++◌, Option, none, some, Text, codes, if◌then◌else◌, ◌==◌,
}
use connect_go.Client.{CallInfo, new_call_info, ClientStream}
use connect_go.Codes.{Code, canceled, unknown, deadline_exceeded, internal, unimplemented}
use connect_go.Errors.Wrap.{verdict_remote}
use connect_go.Errors.{
  GoError, io_eof, opaque, new_error, is, as_error, with_cause, with_remote, verdict,
  context_canceled, context_deadline,
}
use connect_go.Headers.{Headers}
use connect_go.Headers.Metadata.{set_values}
use connect_go.Server.{Spec, CallContext, Answer, answered, panicked, Server, call}
use connect_go.Streams.{Try, ok, fail}

-- The code that `asClientErr` gives to an error without one.
unfoldable pub client_code : GoError → Code
client_code e =
    if is context_canceled e
    then canceled
    else if is context_deadline e
    then deadline_exceeded
    else unknown

abbrev pub as_found : GoError → Option GoError → GoError
as_found e none = with_remote (with_cause (new_error (client_code e) []) e)
as_found e (some found) =
    if verdict_remote (verdict found)
    then with_remote (with_cause (new_error internal []) e)
    else with_remote found

-- `asClientErr`, of an error that is not nil.
unfoldable pub as_client_err : GoError → GoError
as_client_err e = as_found e (as_error e)

-- `syncHeader`: the new `dst`.
unfoldable pub sync_header : (Text → Text) → Headers → Headers → Headers
sync_header canonical dst [] = dst
sync_header canonical dst ((key, vs) ∷ src) =
    sync_header canonical (set_values canonical key vs dst) src

-- A `*CallInfo`: the one of the client, or that of the handler.
pub data InfoRef : Type 0 where
  client_side server_side : InfoRef

-- `unaryClientStream`, for messages `M` and schemas `A`.
pub record UnaryStream (A M : Type 0) : Type 0 where
  pub spec : Spec A
  pub client_info : Option (CallInfo A)
  pub server_info : CallInfo A
  pub request_msg : Option M
  pub response_msg : Option M
  pub server_err : Option GoError
  pub sent_once : Bool
  pub send_closed : Bool
  pub rx_end : Bool

abbrev pub UnaryServer : Type 0 → Type 0 → Type 0
UnaryServer A M = Server A InfoRef (UnaryStream A M)

-- The transport: the server, the copy, and the functions of the Go library that it uses.
pub record Inprocess (A M : Type 0) : Type 0 where
  pub server : UnaryServer A M
  pub copy : M → Try M
  pub canonical : Text → Text
  pub quote : Text → Text

abbrev pub synced_request :
    {A : Type 0} → (Text → Text) → Option (CallInfo A) → CallInfo A → CallInfo A
synced_request canonical none server_info = server_info
synced_request canonical (some info) server_info = record server_info {
  request = sync_header canonical server_info.request info.request;
}

abbrev pub synced_response :
    {A : Type 0} → (Text → Text) → CallInfo A → Option (CallInfo A) → Option (CallInfo A)
synced_response canonical server_info none = none
synced_response canonical server_info (some info) = some (record info {
  response = sync_header canonical info.response server_info.response;
  trailer = sync_header canonical info.trailer server_info.trailer;
})

module _ {A M : Type 0} where
  -- `newUnaryClientStream`
  unfoldable pub new_unary_client_stream : Option (CallInfo A) → Spec A → UnaryStream A M
  new_unary_client_stream client_info spec = record {
    spec = spec;
    client_info = elim client_info [
      | none ↦ none
      | some info ↦ some (record info { spec = some spec })
    ];
    server_info = record new_call_info { spec = some spec };
    request_msg = none;
    response_msg = none;
    server_err = none;
    sent_once = false;
    send_closed = false;
    rx_end = false;
  }

  -- `unaryClientStream.Send`
  unfoldable pub send : M → UnaryStream A M → Option GoError × UnaryStream A M
  send msg u =
      if u.send_closed
      then (some io_eof, u)
      else if u.sent_once
      then (some (opaque (codes "connectinprocess: unary stream sent more than once")), u)
      else (none, record u { sent_once = true; request_msg = some msg })

  -- `unaryClientStream.CloseSend` and `Close`
  unfoldable pub close_send : UnaryStream A M → Option GoError × UnaryStream A M
  close_send u = (none, record u { send_closed = true })

  unfoldable pub close : UnaryStream A M → Option GoError × UnaryStream A M
  close u = (none, record u { rx_end = true })

  abbrev pub handler_received : UnaryStream A M → Try M → Try M × UnaryStream A M
  handler_received u (fail e) = (fail e, u)
  handler_received u (ok m) = (ok m, record u { request_msg = none })

  -- `unaryHandlerStream.Receive`
  unfoldable pub handler_receive : (M → Try M) → UnaryStream A M → Try M × UnaryStream A M
  handler_receive copy u = elim u.request_msg [
    | none ↦ (fail io_eof, u)
    | some m ↦ handler_received u (copy m)
  ]

  -- `unaryHandlerStream.Send`
  unfoldable pub handler_send : M → UnaryStream A M → UnaryStream A M
  handler_send msg u = record u { response_msg = some msg }

  abbrev pub sync_request : (Text → Text) → UnaryStream A M → UnaryStream A M
  sync_request canonical u = record u {
    server_info = synced_request canonical u.client_info u.server_info;
  }

  abbrev pub sync_response : (Text → Text) → UnaryStream A M → UnaryStream A M
  sync_response canonical u = record u {
    client_info = synced_response canonical u.server_info u.client_info;
  }

  abbrev pub recovered : Answer (UnaryStream A M) → UnaryStream A M
  recovered (answered e u) = record u { server_err = e }
  recovered (panicked text u) = record u {
    server_err = some (new_error internal (codes "panic in server: " ++ text));
  }

  abbrev pub call_server :
      Inprocess A M → CallContext InfoRef → UnaryStream A M → Answer (UnaryStream A M)
  call_server t ctx u = call t.quote server_side t.server ctx u.spec.procedure (some server_side) u

  -- `unaryClientStream.dispatch`: the stream with its `serverErr`.
  unfoldable pub dispatch : Inprocess A M → CallContext InfoRef → UnaryStream A M → UnaryStream A M
  dispatch t ctx u =
      sync_response t.canonical (recovered (call_server t ctx (sync_request t.canonical u)))

  abbrev pub ended : UnaryStream A M → UnaryStream A M
  ended u = record u { rx_end = true }

  abbrev pub copied : UnaryStream A M → Try M → Try M × UnaryStream A M
  copied u (fail e) = (fail e, ended u)
  copied u (ok m) = (ok m, ended (record u { response_msg = none }))

  abbrev pub receive_message : Inprocess A M → UnaryStream A M → Option M → Try M × UnaryStream A M
  receive_message t u none =
      (fail (new_error unimplemented (codes "unary stream has no message")), ended u)
  receive_message t u (some m) = copied u (t.copy m)

  abbrev pub receive_dispatched :
      Inprocess A M → UnaryStream A M → Option GoError → Try M × UnaryStream A M
  receive_dispatched t u (some e) = (fail (as_client_err e), ended u)
  receive_dispatched t u none = receive_message t u u.response_msg

  -- `unaryClientStream.Receive`
  unfoldable pub receive :
      Inprocess A M → CallContext InfoRef → UnaryStream A M → Try M × UnaryStream A M
  receive t ctx u =
      let u' = dispatch t ctx u in
      if u.rx_end then (fail io_eof, u) else receive_dispatched t u' u'.server_err

  -- The stream operations as `Client` uses them.
  abbrev pub unary_operations :
      Inprocess A M → CallContext InfoRef → ClientStream M (UnaryStream A M)
  unary_operations t ctx = record {
    send = send;
    close_send = close_send;
    receive = receive t ctx;
    close = close;
  }
