-- ===== src/StreamPair/Closing.antt =====
-- What is left of a stream inside the process once its channel of responses is closed.
use connect_go.Base.{
  ◌≡◌, ◌≢◌, refl, ap, sym, ◌∙◌, Bool, true, false, List, [], ◌∷◌, some, some, Text, All,
}
use connect_go.Errors.{GoError, io_eof}
use connect_go.StreamPair.{
  Pair, Event, handler_ended, response_passed, received, Turn, verdict_of, context_ends,
  send_headers, send_refused, send_begins, send_finds_closed, send_finds_done, send_fails,
  closes_send, closes, receive_begins, receive_fails, receive_ends, request_passes, response_passes,
  handler_receive_begins, handler_receive_fails, handler_receive_ends, handler_send_begins,
  handler_send_fails, handler_send_panics, handler_writes, handler_returns, responses_close,
  server_finishes, dispatch_pair, begin_send, begin_receive, cancel, close_send_pair, close_pair,
  receive_end,
}
use connect_go.StreamPair.Halves.{Turns, done, more, true_ne_false, false_ne_true}

-- A response reaches the client, or the handler ends.
abbrev pub is_of_server : {M : Type 0} → Event M → Bool
is_of_server (response_passed m) = true
is_of_server (handler_ended o response trailer) = true
is_of_server _ = false

abbrev is_received : {M : Type 0} → Event M → Bool
is_received (received e) = true
is_received _ = false

abbrev error_received : {M : Type 0} → Event M → GoError
error_received (received e) = e
error_received _ = io_eof

module _ {A M : Type 0} (canonical : Text → Text) where
  -- Once the responses are closed, they stay closed.
  step_closed :
      (p q : Pair A M) (e : Event M)
      → Turn canonical p e q
      → p.returned ≡ true
      → p.response_closed ≡ true
      → (is_of_server e ≡ false)
        × ((q.returned ≡ true) × ((q.response_closed ≡ true) × (q.client_info ≡ p.client_info)))
  unfolding close_send_pair close_pair cancel receive_end begin_send begin_receive dispatch_pair
  step_closed p q e (context_ends _ _ _) r c = (refl, (r, (c, refl)))
  step_closed p q e (send_headers _) r c = (refl, (r, (c, refl)))
  step_closed p q e (send_refused _ _) r c = (refl, (r, (c, refl)))
  step_closed p q e (send_begins _ _ _ _) r c = (refl, (r, (c, refl)))
  step_closed p q e (send_finds_closed _ _ _ _) r c = (refl, (r, (c, refl)))
  step_closed p q e (send_finds_done _ _ _ _) r c = (refl, (r, (c, refl)))
  step_closed p q e (send_fails _ _ _ _ _) r c = (refl, (r, (c, refl)))
  step_closed p q e (closes_send _) r c = (refl, (r, (c, refl)))
  step_closed p q e (closes _) r c = (refl, (r, (c, refl)))
  step_closed p q e (receive_begins _ _) r c = (refl, (r, (c, refl)))
  step_closed p q e (receive_fails _ _ _ _) r c = (refl, (r, (c, refl)))
  step_closed p q e (receive_ends _ _ _) r c = (refl, (r, (c, refl)))
  step_closed p q e (request_passes _ _ _ _) r c = (refl, (r, (c, refl)))
  step_closed p q e (response_passes _ _ _ _ h) r c = absurd (true_ne_false c h)
  step_closed p q e (handler_receive_begins _ _ _) r c = (refl, (r, (c, refl)))
  step_closed p q e (handler_receive_fails _ _ _ _) r c = (refl, (r, (c, refl)))
  step_closed p q e (handler_receive_ends _ _ _ _) r c = (refl, (r, (c, refl)))
  step_closed p q e (handler_send_begins _ _ _ _) r c = (refl, (r, (c, refl)))
  step_closed p q e (handler_send_fails _ _ _ _ _) r c = (refl, (r, (c, refl)))
  step_closed p q e (handler_writes _ _ _ _) r c = (refl, (r, (c, refl)))
  step_closed p q e (handler_send_panics _ _ _ _) r c = (refl, (r, (c, refl)))
  step_closed p q e (handler_returns _ _ _ h) r c = absurd (true_ne_false r h)
  step_closed p q e (responses_close _ _) r c = (refl, (r, (refl, refl)))
  step_closed p q e (server_finishes _ _) r c = (refl, (r, (c, refl)))

  pub run_closed :
      (p q : Pair A M) (es : List (Event M))
      → Turns canonical p es q
      → p.returned ≡ true
      → p.response_closed ≡ true
      → All (λ e. is_of_server e ≡ false) es × (q.client_info ≡ p.client_info)
  run_closed p q [] (done _) r c = (tt, refl)
  run_closed p q (e ∷ es) (more {q = s} t ts) r c =
      let (silent, (r', (c', i))) = step_closed p s e t r c in
      let (rest, i') = run_closed s q es ts r' c' in ((silent, rest), i' ∙ i)

  -- What the client's Receive returns, if not a message or the context's error.
  pub received_step :
      (p q : Pair A M) (ev : Event M) (e : GoError)
      → Turn canonical p ev q
      → ev ≡ received e
      → p.ctx_err ≢ some e
      → (p.response_closed ≡ true)
        × ((e ≡ verdict_of p.server_err)
            × ((q.returned ≡ p.returned)
                × ((q.response_closed ≡ p.response_closed) × (q.client_info ≡ p.client_info))))
  unfolding receive_end cancel
  received_step p q ev e (receive_ends _ h k) x n =
      (k, (sym (ap error_received x), (refl, (refl, refl))))
  received_step p q ev e (receive_fails _ y h k) x n =
      absurd (n (k ∙ ap some (ap error_received x)))
  received_step p q ev e (context_ends _ _ _) x n = absurd (false_ne_true (ap is_received x))
  received_step p q ev e (send_headers _) x n = absurd (false_ne_true (ap is_received x))
  received_step p q ev e (send_refused _ _) x n = absurd (false_ne_true (ap is_received x))
  received_step p q ev e (send_begins _ _ _ _) x n = absurd (false_ne_true (ap is_received x))
  received_step p q ev e (send_finds_closed _ _ _ _) x n = absurd (false_ne_true (ap is_received x))
  received_step p q ev e (send_finds_done _ _ _ _) x n = absurd (false_ne_true (ap is_received x))
  received_step p q ev e (send_fails _ _ _ _ _) x n = absurd (false_ne_true (ap is_received x))
  received_step p q ev e (closes_send _) x n = absurd (false_ne_true (ap is_received x))
  received_step p q ev e (closes _) x n = absurd (false_ne_true (ap is_received x))
  received_step p q ev e (receive_begins _ _) x n = absurd (false_ne_true (ap is_received x))
  received_step p q ev e (request_passes _ _ _ _) x n = absurd (false_ne_true (ap is_received x))
  received_step p q ev e (response_passes _ _ _ _ _) x n = absurd (false_ne_true (ap is_received x))
  received_step p q ev e (handler_receive_begins _ _ _) x n =
      absurd (false_ne_true (ap is_received x))
  received_step p q ev e (handler_receive_fails _ _ _ _) x n =
      absurd (false_ne_true (ap is_received x))
  received_step p q ev e (handler_receive_ends _ _ _ _) x n =
      absurd (false_ne_true (ap is_received x))
  received_step p q ev e (handler_send_begins _ _ _ _) x n =
      absurd (false_ne_true (ap is_received x))
  received_step p q ev e (handler_send_fails _ _ _ _ _) x n =
      absurd (false_ne_true (ap is_received x))
  received_step p q ev e (handler_writes _ _ _ _) x n = absurd (false_ne_true (ap is_received x))
  received_step p q ev e (handler_send_panics _ _ _ _) x n =
      absurd (false_ne_true (ap is_received x))
  received_step p q ev e (handler_returns _ _ _ _) x n = absurd (false_ne_true (ap is_received x))
  received_step p q ev e (responses_close _ _) x n = absurd (false_ne_true (ap is_received x))
  received_step p q ev e (server_finishes _ _) x n = absurd (false_ne_true (ap is_received x))
