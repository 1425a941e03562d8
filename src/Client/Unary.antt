-- ===== src/Client/Unary.antt =====
-- What `Client.CallUnary` does with the stream that it opens, for every transport.
use connect_go.Base.{◌≡◌, ◌≢◌, ◌⊎◌, inl, inr, refl, List, Option, none, some}
use connect_go.Client.{
  CallInfo, ClientFunc, ClientStream, ensure_client_context, new_client, Called, call_unary,
  after_send, after_close_send, receive_response, join_errors,
}
use connect_go.Errors.{GoError}
use connect_go.Server.Dispatch.{nest, chain_backward-nest}
use connect_go.Server.{Spec}
use connect_go.Streams.{Try, ok, fail}

module _ {M T : Type 0} (ops : ClientStream M T) where
  -- The call's request went out, its sending side was closed, and a response came in.
  pub record Exchange (req : M) (start done : T) (response : M) : Type 0 where
    pub sent : T
    pub half_closed : T
    pub was_sent : ops.send req start ≡ (none, sent)
    pub was_half_closed : ops.close_send sent ≡ (none, half_closed)
    pub was_received : ops.receive half_closed ≡ (ok response, done)

  -- A stream that was closed at the end, and what was returned.
  pub record IsClosed (req : M) (start : T) (c : Called M T) : Type 0 where
    pub last : T
    pub failure : Option GoError
    pub closed : c.stream ≡ some (ops.close last).1
    pub err : c.err ≡ join_errors failure (ops.close last).0
    pub outcome :
        ((m : M) × (failure ≡ none) × (c.response ≡ some m) × Exchange req start last m)
        ⊎ ((failure ≢ none) × (c.response ≡ none))

  some_ne_none : (e : GoError) → ◌≢◌ {A = Option GoError} (some e) none
  some_ne_none e = λ h. cc

  received-IsClosed :
      (req : M) (start sent half_closed : T) (p : Try M × T)
      → ops.send req start ≡ (none, sent)
      → ops.close_send sent ≡ (none, half_closed)
      → ops.receive half_closed ≡ p
      → IsClosed req start (receive_response ops p)
  received-IsClosed req start sent half_closed (ok m, t) s c r = record {
    last = t;
    failure = none;
    closed = refl;
    err = refl;
    outcome = inl (
      m,
      refl,
      refl,
      record {
        sent = sent;
        half_closed = half_closed;
        was_sent = s;
        was_half_closed = c;
        was_received = r;
      },
    );
  }
  received-IsClosed req start sent half_closed (fail e, t) s c r = record {
    last = t;
    failure = some e;
    closed = refl;
    err = refl;
    outcome = inr (some_ne_none e, refl);
  }

  waiting-IsClosed :
      (req : M) (start sent : T) (p : Option GoError × T)
      → ops.send req start ≡ (none, sent)
      → ops.close_send sent ≡ p
      → IsClosed req start (after_close_send ops p)
  waiting-IsClosed req start sent (some e, t) s c = record {
    last = t;
    failure = some e;
    closed = refl;
    err = refl;
    outcome = inr (some_ne_none e, refl);
  }
  waiting-IsClosed req start sent (none, t) s c =
      received-IsClosed req start sent t (ops.receive t) s c refl

  sent-IsClosed :
      (req : M) (start : T) (p : Option GoError × T)
      → ops.send req start ≡ p
      → IsClosed req start (after_send ops p)
  sent-IsClosed req start (some e, t) s = record {
    last = t;
    failure = some e;
    closed = refl;
    err = refl;
    outcome = inr (some_ne_none e, refl);
  }
  sent-IsClosed req start (none, t) s = waiting-IsClosed req start t (ops.close_send t) s refl

-- A unary call goes through the client's interceptors, the first one outermost. It closes the stream
-- that it opened, whichever of its steps fails, and joins the error of Close to its own. It has a
-- response only where the request was sent, the sending side closed and a message received.
pub call_unary-IsClosed :
    {A M T : Type 0} (ops : ClientStream M T)
    (interceptors : List (ClientFunc A T → ClientFunc A T)) (new_client_stream : ClientFunc A T)
    (info : Option (CallInfo A)) (spec : Spec A) (req : M) (start : T)
    → nest interceptors new_client_stream (ensure_client_context info) spec ≡ ok start
    → IsClosed ops req start
        (call_unary ops (new_client interceptors new_client_stream) info spec req)
unfolding call_unary new_client
call_unary-IsClosed ops interceptors new_client_stream info spec req start h =
    rw (chain_backward-nest interceptors new_client_stream, h)
      (sent-IsClosed ops req start (ops.send req start) refl)
