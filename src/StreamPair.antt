-- ===== src/StreamPair.antt =====
-- connectinprocess/stream.go and connectinprocess.go: `streamPair`, the two halves of a stream inside the process, over
-- unbuffered channels.
--
-- A call that blocks in a select is part of the state, with the message that it holds out; each case
-- of the select that is ready is a step. One send and one receive of each side are under way at most.
-- The copy of a received message, `CopyFunc`, is the receiver's and does not show. The handler itself
-- is free: it receives, sends, sets metadata and returns an error or none, or panics, at any time, and what it has
-- started may receive and send after it has returned. `run` calls the handler once.
pub mod Halves
pub mod Closing
pub mod Ends
pub mod Progress
use connect_go.Base.{
  not, ◌==◌, ◌≡◌, Bool, true, false, not, ◌&&◌, ◌||◌, Option, none, some, Text, codes, ◌++◌,
  if◌then◌else◌,
}
use connect_go.Client.{CallInfo, new_call_info}
use connect_go.Codes.{internal}
use connect_go.Errors.{opaque, GoError, sentinel, context_canceled, io_eof, new_error}
use connect_go.Headers.{Headers}
use connect_go.Inprocess.{
  UnaryStream, new_unary_client_stream, as_client_err, synced_request, synced_response,
}
use connect_go.Server.{Spec}
use connect_go.Streams.{Try, ok, fail}

-- `streamPair`. A channel that is closed is a flag; the context is its `Err`.
pub record Pair (A M : Type 0) : Type 0 where
  pub client_info : Option (CallInfo A)
  pub server_info : CallInfo A
  pub ctx_err : Option GoError
  pub send_closed : Bool  -- `closeSendCh`
  pub dispatched : Bool
  pub returned : Bool  -- the server's handler has ended
  pub response_closed : Bool  -- `responseCh`
  pub server_done : Bool
  pub server_err : Option GoError
  pub sending : Option M  -- the client's Send
  pub receiving : Bool  -- the client's Receive
  pub handler_sending : Option M
  pub handler_receiving : Bool

-- The stream of a client: the fast path of a unary call, or a pair.
pub data ClientPath (A M : Type 0) : Type 0 where
  unary_path : UnaryStream A M → ClientPath A M
  streaming_path : Pair A M → ClientPath A M

-- What a step shows: which call returned, and with what.
pub data Event (M : Type 0) : Type 0 where
  quiet handler_panicked : Event M
  -- with its error, and its response headers and trailers at that time
  handler_ended : Option GoError → Headers → Headers → Event M
  request_passed response_passed : M → Event M
  sent received handler_sent handler_received : GoError → Event M

abbrev pub set_spec : {A : Type 0} → Spec A → Option (CallInfo A) → Option (CallInfo A)
set_spec spec none = none
set_spec spec (some info) = some (record info { spec = some spec })

-- How a handler ends: with an error or none, or with a panic.
pub data Ending : Type 0 where
  answers : Option GoError → Ending
  panics : Text → Ending

abbrev pub error_of : Ending → Option GoError
error_of (answers e) = e
error_of (panics text) = some (new_error internal (codes "panic in server: " ++ text))

-- What Receive returns once the channel of responses is closed.
abbrev pub verdict_of : Option GoError → GoError
verdict_of none = io_eof
verdict_of (some e) = as_client_err e

abbrev pub canceled_by : Option GoError → GoError
canceled_by none = sentinel context_canceled (codes "context canceled")
canceled_by (some e) = e

module _ {A M : Type 0} where
  -- `newStreamPair`
  unfoldable pub new_stream_pair : Option (CallInfo A) → Option GoError → Spec A → Pair A M
  new_stream_pair client_info ctx_err spec = record {
    client_info = set_spec spec client_info;
    server_info = record new_call_info { spec = some spec };
    ctx_err = ctx_err;
    send_closed = false;
    dispatched = false;
    returned = false;
    response_closed = false;
    server_done = false;
    server_err = none;
    sending = none;
    receiving = false;
    handler_sending = none;
    handler_receiving = false;
  }

  -- `transport.NewClientStream`, by whether the transport has a server.
  unfoldable pub new_client_stream :
      Bool → Option (CallInfo A) → Option GoError → Spec A → Try (ClientPath A M)
  new_client_stream has_server client_info ctx_err spec =
      if not has_server
      then fail (opaque (codes "connectinprocess: nil server"))
      else if spec.stream_type == 0
      then ok (unary_path (new_unary_client_stream client_info spec))
      else ok (streaming_path (new_stream_pair client_info ctx_err spec))

  -- `streamPair.dispatch`
  unfoldable pub dispatch_pair : (Text → Text) → Pair A M → Pair A M
  dispatch_pair canonical p = record p {
    dispatched = true;
    server_info =
        if p.dispatched
        then p.server_info
        else synced_request canonical p.client_info p.server_info;
  }

  -- The context's `cancel`
  unfoldable pub cancel : Pair A M → Pair A M
  cancel p = record p { ctx_err = some (canceled_by p.ctx_err) }

  -- `clientStream.CloseSend` and `Close`
  unfoldable pub close_send_pair : Pair A M → Pair A M
  close_send_pair p = record p { send_closed = true }

  unfoldable pub close_pair : Pair A M → Pair A M
  close_pair p = cancel (close_send_pair p)

  -- `clientStream.Send` up to its second select.
  unfoldable pub begin_send : (Text → Text) → M → Pair A M → Pair A M
  begin_send canonical m p = record (dispatch_pair canonical p) { sending = some m }

  -- `clientStream.Receive` up to its select.
  unfoldable pub begin_receive : (Text → Text) → Pair A M → Pair A M
  begin_receive canonical p = record (dispatch_pair canonical p) { receiving = true }

  -- The first part of `streamPair.run` behind the handler: its error, and the client's metadata.
  unfoldable pub finish_handler : (Text → Text) → Ending → Pair A M → Pair A M
  finish_handler canonical ending p = record p {
    returned = true;
    server_err = error_of ending;
    client_info = synced_response canonical p.server_info p.client_info;
  }

  -- The end that `clientStream.Receive` finds: it releases the context.
  unfoldable pub receive_end : Pair A M → Pair A M
  receive_end p = record (cancel p) { receiving = false }

  -- The steps of a pair. The guards are those of the selects.
  pub data Turn (canonical : Text → Text) : Pair A M → Event M → Pair A M → Type 0 where
    -- the context is canceled from outside, or its deadline passes
    context_ends :
        (p : Pair A M) (e : GoError)
        → p.ctx_err ≡ none
        → Turn canonical p quiet (record p { ctx_err = some e })
    -- `clientStream`
    send_headers : (p : Pair A M) → Turn canonical p quiet (dispatch_pair canonical p)
    send_refused : (p : Pair A M) → p.send_closed ≡ true → Turn canonical p (sent io_eof) p
    send_begins :
        (p : Pair A M) (m : M)
        → p.send_closed ≡ false
        → p.sending ≡ none
        → Turn canonical p quiet (begin_send canonical m p)
    send_finds_closed :
        (p : Pair A M) (m : M)
        → p.sending ≡ some m
        → p.send_closed ≡ true
        → Turn canonical p (sent io_eof) (record p { sending = none })
    send_finds_done :
        (p : Pair A M) (m : M)
        → p.sending ≡ some m
        → p.server_done ≡ true
        → Turn canonical p (sent io_eof) (record p { sending = none })
    send_fails :
        (p : Pair A M) (m : M) (e : GoError)
        → p.sending ≡ some m
        → p.ctx_err ≡ some e
        → Turn canonical p (sent e) (record p { sending = none })
    closes_send : (p : Pair A M) → Turn canonical p quiet (close_send_pair p)
    closes : (p : Pair A M) → Turn canonical p quiet (close_pair p)
    receive_begins :
        (p : Pair A M) → p.receiving ≡ false → Turn canonical p quiet (begin_receive canonical p)
    receive_fails :
        (p : Pair A M) (e : GoError)
        → p.receiving ≡ true
        → p.ctx_err ≡ some e
        → Turn canonical p (received e) (record p { receiving = false })
    receive_ends :
        (p : Pair A M)
        → p.receiving ≡ true
        → p.response_closed ≡ true
        → Turn canonical p (received (verdict_of p.server_err)) (receive_end p)
    -- a channel passes a message on
    request_passes :
        (p : Pair A M) (m : M)
        → p.sending ≡ some m
        → p.handler_receiving ≡ true
        → Turn canonical p
            (request_passed m)
            (record p { sending = none; handler_receiving = false })
    response_passes :
        (p : Pair A M) (m : M)
        → p.handler_sending ≡ some m
        → p.receiving ≡ true
        → p.response_closed ≡ false
        → Turn canonical p
            (response_passed m)
            (record p { handler_sending = none; receiving = false })
    -- `serverStream`: the handler, or what it started and left behind
    handler_receive_begins :
        (p : Pair A M)
        → p.dispatched ≡ true
        → p.handler_receiving ≡ false
        → Turn canonical p quiet (record p { handler_receiving = true })
    handler_receive_fails :
        (p : Pair A M) (e : GoError)
        → p.handler_receiving ≡ true
        → p.ctx_err ≡ some e
        → Turn canonical p (handler_received e) (record p { handler_receiving = false })
    -- the inner select finds no request
    handler_receive_ends :
        (p : Pair A M)
        → p.handler_receiving ≡ true
        → p.send_closed ≡ true
        → p.sending ≡ none
        → Turn canonical p (handler_received io_eof) (record p { handler_receiving = false })
    handler_send_begins :
        (p : Pair A M) (m : M)
        → p.dispatched ≡ true
        → p.handler_sending ≡ none
        → Turn canonical p quiet (record p { handler_sending = some m })
    handler_send_fails :
        (p : Pair A M) (m : M) (e : GoError)
        → p.handler_sending ≡ some m
        → p.ctx_err ≡ some e
        → Turn canonical p (handler_sent e) (record p { handler_sending = none })
    -- the handler changes the metadata of its CallInfo
    handler_writes :
        (p : Pair A M) (response trailer : Headers)
        → p.dispatched ≡ true
        → Turn canonical p quiet (record p {
          server_info = record p.server_info { response = response; trailer = trailer };
        })
    -- a send on a closed channel panics
    handler_send_panics :
        (p : Pair A M) (m : M)
        → p.handler_sending ≡ some m
        → p.response_closed ≡ true
        → Turn canonical p handler_panicked (record p { handler_sending = none })
    -- `streamPair.run` behind the handler, which it calls once
    handler_returns :
        (p : Pair A M) (ending : Ending)
        → p.dispatched ≡ true
        → p.returned ≡ false
        → Turn canonical p
            (handler_ended (error_of ending) p.server_info.response p.server_info.trailer)
            (finish_handler canonical ending p)
    responses_close :
        (p : Pair A M)
        → p.returned ≡ true
        → Turn canonical p quiet (record p { response_closed = true })
    server_finishes :
        (p : Pair A M)
        → p.response_closed ≡ true
        → Turn canonical p quiet (record p { server_done = true })
