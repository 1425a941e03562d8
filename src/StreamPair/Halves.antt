-- ===== src/StreamPair/Halves.antt =====
-- The order in which the messages of a stream inside the process can pass.
use connect_go.Base.{
  ◌≡◌, ◌≢◌, ◌⊎◌, inl, inr, refl, ap, ◌∙◌, Bool, true, false, List, [], ◌∷◌, Option, none, some,
  Text, All,
}
use connect_go.Errors.{GoError, io_eof}
use connect_go.StreamPair.{
  Pair, Event, request_passed, handler_received, Turn, context_ends, send_headers, send_refused,
  send_begins, send_finds_closed, send_finds_done, send_fails, closes_send, closes, receive_begins,
  receive_fails, receive_ends, request_passes, response_passes, handler_receive_begins,
  handler_receive_fails, handler_receive_ends, handler_send_begins, handler_send_fails,
  handler_send_panics, handler_writes, handler_returns, responses_close, server_finishes,
  dispatch_pair, begin_receive, cancel, close_send_pair, close_pair, receive_end, finish_handler,
}

-- A sequence of steps, with its events.
pub data Turns {A M : Type 0} (canonical : Text → Text)
    : Pair A M → List (Event M) → Pair A M → Type 0 where
  done : (p : Pair A M) → Turns canonical p [] p
  more :
      {p q r : Pair A M} {e : Event M} {es : List (Event M)}
      → Turn canonical p e q
      → Turns canonical q es r
      → Turns canonical p (e ∷ es) r

abbrev pub is_request : {M : Type 0} → Event M → Bool
is_request (request_passed m) = true
is_request _ = false

abbrev is_handler_received : {M : Type 0} → Event M → Bool
is_handler_received (handler_received e) = true
is_handler_received _ = false

abbrev received_error : {M : Type 0} → Event M → GoError
received_error (handler_received e) = e
received_error _ = io_eof

-- No request is on its way, and none can start.
record IsSealed {A M : Type 0} (p : Pair A M) : Type 0 where
  closed : p.send_closed ≡ true
  idle : p.sending ≡ none

pub true_ne_false : {b : Bool} → b ≡ true → b ≢ false
true_ne_false e = λ q. cc

pub false_ne_true : ◌≢◌ {A = Bool} false true
false_ne_true = λ q. cc

pub some_ne_none : {B : Type 0} {o : Option B} {b : B} → o ≡ some b → o ≢ none
some_ne_none e = λ q. cc

module _ {A M : Type 0} (canonical : Text → Text) where
  step-IsSealed :
      (p q : Pair A M) (e : Event M)
      → Turn canonical p e q
      → IsSealed p
      → (is_request e ≡ false) × IsSealed q
  unfolding close_send_pair close_pair cancel receive_end finish_handler begin_receive dispatch_pair
  step-IsSealed p q e (context_ends _ x h) s = (refl, record { closed = s.closed; idle = s.idle })
  step-IsSealed p q e (send_headers _) s = (refl, record { closed = s.closed; idle = s.idle })
  step-IsSealed p q e (send_refused _ h) s = (refl, s)
  step-IsSealed p q e (send_begins _ m h k) s = absurd (true_ne_false s.closed h)
  step-IsSealed p q e (send_finds_closed _ m h k) s = absurd (some_ne_none h s.idle)
  step-IsSealed p q e (send_finds_done _ m h k) s = absurd (some_ne_none h s.idle)
  step-IsSealed p q e (send_fails _ m x h k) s = absurd (some_ne_none h s.idle)
  step-IsSealed p q e (closes_send _) s = (refl, record { closed = refl; idle = s.idle })
  step-IsSealed p q e (closes _) s = (refl, record { closed = refl; idle = s.idle })
  step-IsSealed p q e (receive_begins _ h) s = (refl, record { closed = s.closed; idle = s.idle })
  step-IsSealed p q e (receive_fails _ x h k) s =
      (refl, record { closed = s.closed; idle = s.idle })
  step-IsSealed p q e (receive_ends _ h k) s = (refl, record { closed = s.closed; idle = s.idle })
  step-IsSealed p q e (request_passes _ m h k) s = absurd (some_ne_none h s.idle)
  step-IsSealed p q e (response_passes _ m h k l) s =
      (refl, record { closed = s.closed; idle = s.idle })
  step-IsSealed p q e (handler_receive_begins _ h k) s =
      (refl, record { closed = s.closed; idle = s.idle })
  step-IsSealed p q e (handler_receive_fails _ x h k) s =
      (refl, record { closed = s.closed; idle = s.idle })
  step-IsSealed p q e (handler_receive_ends _ h k l) s =
      (refl, record { closed = s.closed; idle = s.idle })
  step-IsSealed p q e (handler_send_begins _ m h k) s =
      (refl, record { closed = s.closed; idle = s.idle })
  step-IsSealed p q e (handler_send_fails _ m x h k) s =
      (refl, record { closed = s.closed; idle = s.idle })
  step-IsSealed p q e (handler_writes _ x y h) s =
      (refl, record { closed = s.closed; idle = s.idle })
  step-IsSealed p q e (handler_send_panics _ m h k) s =
      (refl, record { closed = s.closed; idle = s.idle })
  step-IsSealed p q e (handler_returns _ x h k) s =
      (refl, record { closed = s.closed; idle = s.idle })
  step-IsSealed p q e (responses_close _ h) s = (refl, record { closed = s.closed; idle = s.idle })
  step-IsSealed p q e (server_finishes _ h) s = (refl, record { closed = s.closed; idle = s.idle })

  no_requests :
      (p q : Pair A M) (es : List (Event M))
      → Turns canonical p es q
      → IsSealed p
      → All (λ e. is_request e ≡ false) es
  no_requests p q [] (done _) s = tt
  no_requests p q (e ∷ es) (more {q = r} t ts) s =
      let (not_request, s') = step-IsSealed p r e t s in (not_request, no_requests r q es ts s')

  -- The only ways in which the handler's Receive gives io.EOF.
  eof_step :
      (p q : Pair A M) (e : Event M)
      → Turn canonical p e q
      → e ≡ handler_received io_eof
      → (IsSealed q) ⊎ (p.ctx_err ≡ some io_eof)
  eof_step p q e (handler_receive_ends _ h k l) x = inl (record { closed = k; idle = l })
  eof_step p q e (handler_receive_fails _ y h k) x = inr (k ∙ ap some (ap received_error x))
  eof_step p q e (context_ends _ _ _) x = absurd (false_ne_true (ap is_handler_received x))
  eof_step p q e (send_headers _) x = absurd (false_ne_true (ap is_handler_received x))
  eof_step p q e (send_refused _ _) x = absurd (false_ne_true (ap is_handler_received x))
  eof_step p q e (send_begins _ _ _ _) x = absurd (false_ne_true (ap is_handler_received x))
  eof_step p q e (send_finds_closed _ _ _ _) x = absurd (false_ne_true (ap is_handler_received x))
  eof_step p q e (send_finds_done _ _ _ _) x = absurd (false_ne_true (ap is_handler_received x))
  eof_step p q e (send_fails _ _ _ _ _) x = absurd (false_ne_true (ap is_handler_received x))
  eof_step p q e (closes_send _) x = absurd (false_ne_true (ap is_handler_received x))
  eof_step p q e (closes _) x = absurd (false_ne_true (ap is_handler_received x))
  eof_step p q e (receive_begins _ _) x = absurd (false_ne_true (ap is_handler_received x))
  eof_step p q e (receive_fails _ _ _ _) x = absurd (false_ne_true (ap is_handler_received x))
  eof_step p q e (receive_ends _ _ _) x = absurd (false_ne_true (ap is_handler_received x))
  eof_step p q e (request_passes _ _ _ _) x = absurd (false_ne_true (ap is_handler_received x))
  eof_step p q e (response_passes _ _ _ _ _) x = absurd (false_ne_true (ap is_handler_received x))
  eof_step p q e (handler_receive_begins _ _ _) x =
      absurd (false_ne_true (ap is_handler_received x))
  eof_step p q e (handler_send_begins _ _ _ _) x = absurd (false_ne_true (ap is_handler_received x))
  eof_step p q e (handler_send_fails _ _ _ _ _) x =
      absurd (false_ne_true (ap is_handler_received x))
  eof_step p q e (handler_writes _ _ _ _) x = absurd (false_ne_true (ap is_handler_received x))
  eof_step p q e (handler_send_panics _ _ _ _) x = absurd (false_ne_true (ap is_handler_received x))
  eof_step p q e (handler_returns _ _ _ _) x = absurd (false_ne_true (ap is_handler_received x))
  eof_step p q e (responses_close _ _) x = absurd (false_ne_true (ap is_handler_received x))
  eof_step p q e (server_finishes _ _) x = absurd (false_ne_true (ap is_handler_received x))

  -- When the handler's Receive gives io.EOF, every request that the client's Send has taken was
  -- received before: no request passes afterwards, whatever the client, the handler and the context do.
  -- The context does not itself end with io.EOF.
  pub handler_received_eof :
      (p q r : Pair A M) (es : List (Event M))
      → Turn canonical p (handler_received io_eof) q
      → p.ctx_err ≢ some io_eof
      → Turns canonical q es r
      → All (λ e. is_request e ≡ false) es
  handler_received_eof p q r es t c ts = elim (eof_step p q (handler_received io_eof) t refl) [
    | inl s ↦ no_requests q r es ts s
    | inr k ↦ absurd (c k)
  ]
