-- ===== src/Inprocess/Unary.antt =====
-- A unary call inside the process from end to end: `Client.CallUnary` over `unaryClientStream`, down
-- to the handler that the server has registered.
use connect_go.Base.{
  ◌≡◌, ◌≢◌, subst, refl, true, false, Bool, if◌then◌else◌, List, ◌++◌, Option, none, some, codes,
}
use connect_go.Client.{
  CallInfo, ensure_client_context, Called, call_unary, receive_response, join_errors,
}
use connect_go.Codes.{unimplemented, internal}
use connect_go.Errors.{GoError, io_eof, new_error}
use connect_go.Inprocess.{
  InfoRef, server_side, UnaryStream, Inprocess, handler_receive, handler_received,
  new_unary_client_stream, send, close_send, sync_request, dispatch, receive, unary_operations,
  as_client_err, call_server, recovered, sync_response, receive_dispatched, receive_message, copied,
  close,
}
use connect_go.Server.Dispatch.{method_for, nest, handler_context, call-register}
use connect_go.Server.{
  Spec, CallContext, ServerInterceptor, Method, Answer, answered, panicked, registered, register,
  new_server, not_registered,
}
use connect_go.Streams.{Try, ok, fail}

abbrev pub error_of : {M : Type 0} → Try M → Option GoError
error_of (ok m) = none
error_of (fail e) = some e

abbrev pub value_of : {M : Type 0} → Try M → Option M
value_of (ok m) = some m
value_of (fail e) = none

-- A call that returned what its stream received.
pub record Sees {M T : Type 0} (c : Called M T) (r : Try M) : Type 0 where
  pub err : c.err ≡ join_errors (error_of r) none
  pub response : c.response ≡ value_of r

module _ {A M : Type 0} (t : Inprocess A M) (ctx : CallContext InfoRef) where
  -- The stream with which the handler runs: the client has sent its request and half-closed, and
  -- the handler's metadata holds the client's.
  abbrev pub started : Option (CallInfo A) → Spec A → M → UnaryStream A M
  started info spec req =
      record (new_unary_client_stream (some (ensure_client_context info)) spec) {
        request_msg = some req;
        sent_once = true;
        send_closed = true;
      }

  abbrev pub handed : Option (CallInfo A) → Spec A → M → UnaryStream A M
  handed info spec req = sync_request t.canonical (started info spec req)

  abbrev pub response_of : Option M → Try M
  response_of none = fail (new_error unimplemented (codes "unary stream has no message"))
  response_of (some m) = t.copy m

  -- What a client sees of the way a handler ended: its error or the copy of its response.
  abbrev pub seen : Answer (UnaryStream A M) → Try M
  seen (answered none u) = response_of u.response_msg
  seen (answered (some e) u) = fail (as_client_err e)
  seen (panicked text u) =
      fail (as_client_err (new_error internal (codes "panic in server: " ++ text)))

  abbrev client_stream : CallInfo A → Spec A → Try (UnaryStream A M)
  client_stream info spec = ok (new_unary_client_stream (some info) spec)

  -- What a unary call returns.
  abbrev pub unary : Option (CallInfo A) → Spec A → M → Called M (UnaryStream A M)
  unary info spec req = call_unary (unary_operations t ctx) client_stream info spec req

  -- A result of Receive that ends the stream.
  abbrev Gives : Try M → Try M × UnaryStream A M → Type 0
  Gives r p = (p.0 ≡ r) × (p.1.rx_end ≡ true)

  copied-Gives : (u : UnaryStream A M) (r : Try M) → Gives r (copied u r)
  copied-Gives u (ok m) = (refl, refl)
  copied-Gives u (fail e) = (refl, refl)

  receive_message-Gives :
      (u : UnaryStream A M) (o : Option M) → Gives (response_of o) (receive_message t u o)
  receive_message-Gives u none = (refl, refl)
  receive_message-Gives u (some m) = copied-Gives u (t.copy m)

  abbrev after : Answer (UnaryStream A M) → UnaryStream A M
  after answer = sync_response t.canonical (recovered answer)

  receive_dispatched-Gives :
      (answer : Answer (UnaryStream A M))
      → Gives (seen answer) (receive_dispatched t (after answer) (after answer).server_err)
  receive_dispatched-Gives (answered (some e) w) = (refl, refl)
  receive_dispatched-Gives (panicked text w) = (refl, refl)
  receive_dispatched-Gives (answered none w) =
      receive_message-Gives (after (answered none w)) w.response_msg

  open-Gives :
      (b : Bool) (r : Try M) (q p : Try M × UnaryStream A M)
      → b ≡ false
      → Gives r p
      → Gives r (if b then q else p)
  open-Gives b r q p h g = rw h g

  receive-Gives :
      (u : UnaryStream A M)
      → u.rx_end ≡ false
      → Gives (seen (call_server t ctx (sync_request t.canonical u))) (receive t ctx u)
  unfolding receive dispatch
  receive-Gives u h =
      let answer = call_server t ctx (sync_request t.canonical u) in
      open-Gives u.rx_end (seen answer) (fail io_eof, u)
        (receive_dispatched t (after answer) (after answer).server_err) h
        (receive_dispatched-Gives answer)

  receive_ended : (u : UnaryStream A M) → u.rx_end ≡ true → receive t ctx u ≡ (fail io_eof, u)
  unfolding receive
  receive_ended u h = closed u.rx_end _ _ h
    where
      closed : (b : Bool) (p q : Try M × UnaryStream A M) → b ≡ true → (if b then p else q) ≡ p
      closed b p q e = rw e refl

  -- The first Receive gives what the client sees of the server's answer, and every later one the
  -- end of the stream, whatever the handler did to the stream.
  pub receive_lem :
      (u : UnaryStream A M)
      → u.rx_end ≡ false
      → ((receive t ctx u).0 ≡ seen (call_server t ctx (sync_request t.canonical u)))
        × (receive t ctx (receive t ctx u).1 ≡ (fail io_eof, (receive t ctx u).1))
  receive_lem u h =
      let (first, over) = receive-Gives u h in (first, receive_ended (receive t ctx u).1 over)

  received-Sees :
      (p : Try M × UnaryStream A M) → Sees (receive_response (unary_operations t ctx) p) p.0
  unfolding close join_errors
  received-Sees (ok m, u) = record { err = refl; response = refl }
  received-Sees (fail e, u) = record { err = refl; response = refl }

  call_unary-call :
      (info : Option (CallInfo A)) (spec : Spec A) (req : M)
      → Sees (unary info spec req) (seen (call_server t ctx (handed info spec req)))
  unfolding call_unary send close_send new_unary_client_stream
  call_unary-call info spec req =
      rw⁻¹ (receive_lem (started info spec req) refl).0
        (received-Sees (receive t ctx (started info spec req)))

  -- A unary call reaches the handler that the server registered for the procedure, through the
  -- server's interceptors, and without the caller's CallInfo; the handler's stream holds the request.
  -- The caller gets the copy of the handler's response, or its error as `asClientErr` shows it, or
  -- CodeInternal for a panic, or CodeUnimplemented where there is no method or no response. An error
  -- is joined to that of Close, which is nil.
  pub call_unary-register :
      (interceptors : List (ServerInterceptor A InfoRef (UnaryStream A M)))
      (methods : List (Method A InfoRef (UnaryStream A M))) (info : Option (CallInfo A))
      (spec : Spec A) (req : M)
      → register methods (new_server interceptors) ≡ registered t.server
      → ((m : Method A InfoRef (UnaryStream A M))
          → method_for spec.procedure methods ≡ some m
          → Sees (unary info spec req) (
              seen (
                nest interceptors m.handler
                  (handler_context server_side (some server_side))
                  m.spec
                  (handed info spec req))))
        × (method_for spec.procedure methods ≡ none
            → Sees
                (unary info spec req)
                (fail (as_client_err (not_registered t.quote spec.procedure))))
  unfolding new_unary_client_stream
  call_unary-register interceptors methods info spec req h =
      let (found, missing) =
        call-register t.quote server_side interceptors methods t.server ctx spec.procedure
          (some server_side) (handed info spec req) h in
      (
        λ m k. rw⁻¹ (found m k) (call_unary-call info spec req),
        λ k.
            subst (λ a. Sees (unary info spec req) (seen a)) (missing k)
              (call_unary-call info spec req),
      )

  handler_received_lem :
      (u : UnaryStream A M) (r : Try M)
      → let p = handler_received u r in
        (p.0 ≡ r) × ((m : M) → r ≡ ok m → (handler_receive t.copy p.1).0 ≡ fail io_eof)
  unfolding handler_receive
  handler_received_lem u (ok m) = (refl, λ m' e. refl)
  handler_received_lem u (fail e) = (refl, λ m' h. absurd (other m' h))
    where
      other : (m' : M) → ◌≢◌ {A = Try M} (fail e) (ok m')
      other m' = λ h. cc

  -- The handler of a unary call receives the copy of the request, and then, if the copy succeeded,
  -- the end of the stream.
  handler_receive-handed :
      (info : Option (CallInfo A)) (spec : Spec A) (req : M)
      → let p = handler_receive t.copy (handed info spec req) in
        (p.0 ≡ t.copy req)
        × ((m : M) → t.copy req ≡ ok m → (handler_receive t.copy p.1).0 ≡ fail io_eof)
  unfolding handler_receive new_unary_client_stream
  handler_receive-handed info spec req = handler_received_lem (handed info spec req) (t.copy req)
