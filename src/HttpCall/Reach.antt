-- ===== src/HttpCall/Reach.antt =====
-- What holds of an HTTP call however its user, the client and the context interleave.
use connect_go.Base.{
  if_true, if_false, ℕ, ◌+◌, ◌≡◌, ◌≢◌, ◌⊎◌, inl, inr, refl, sym, subst, ◌∙◌, Bool, true, false,
  Option, none, some, Text, ltb, not, eq_text, codes, arith, Bool-cases, length,
}
use connect_go.Errors.Wrap.{Context}
use connect_go.Errors.{GoError}
use connect_go.Headers.{Headers}
use connect_go.HttpCall.Steps.{
  Transition, sends, sends_unary, closes_write, answers, context_moves, sets_method, closings,
  Execution, stays, steps, IsUnsent, IsInFlight, IsSettled, Phase, SameAnswer, begin_request-Phase,
  begin_request-IsInFlight, close_write-sent, failed_with-SameAnswer, some_ne_none,
}
use connect_go.HttpCall.{
  Hooks, Call, Response, new_call, with_payload, finish_request, failed_with, ready, response_error,
  request_error, set_method,
}
use connect_go.Streams.{Try, ok, fail}

-- A call that is ready, as its answer left it.
record IsAnswered (c : Call) : Type 0 where
  sent : c.request_sent ≡ true
  found : (c.response ≢ none) ⊎ (c.response_err ≢ none)

settled : (n : ℕ) (c : Call) → n ≡ 0 → IsAnswered c → IsSettled (1 + n) (ready c)
settled n c z a = record {
  sent = a.sent;
  landed = refl;
  is_ready = refl;
  found = a.found;
  once = omega (arith, z);
}

pub true_ne_false : {b : Bool} → b ≡ true → b ≢ false
true_ne_false e = λ q. cc

moved-Phase :
    (n : ℕ) (c c' : Call)
    → c'.request_sent ≡ c.request_sent
    → c'.in_flight ≡ c.in_flight
    → c'.response_ready ≡ c.response_ready
    → c'.pipe_closed ≡ c.pipe_closed
    → c'.response ≡ c.response
    → c'.response_err ≡ c.response_err
    → Phase n c
    → Phase n c'
moved-Phase n c c' a b d e r x (inl u) = inl (record {
  unsent = a ∙ u.unsent;
  idle = b ∙ u.idle;
  not_ready = d ∙ u.not_ready;
  pipe_open = e ∙ u.pipe_open;
  no_error = x ∙ u.no_error;
  never = u.never;
})
moved-Phase n c c' a b d e r x (inr (inl u)) = inr (
    inl (record {
      sent = a ∙ u.sent;
      flying = b ∙ u.flying;
      not_ready = d ∙ u.not_ready;
      no_error = x ∙ u.no_error;
      never = u.never;
    }))
moved-Phase n c c' a b d e r x (inr (inr u)) = inr (
    inr (record {
      sent = a ∙ u.sent;
      landed = b ∙ u.landed;
      is_ready = d ∙ u.is_ready;
      found = kept u.found;
      once = u.once;
    }))
  where
    kept :
        (c.response ≢ none) ⊎ (c.response_err ≢ none)
        → (c'.response ≢ none) ⊎ (c'.response_err ≢ none)
    kept (inl k) = inl (λ q. k (sym r ∙ q))
    kept (inr k) = inr (λ q. k (sym x ∙ q))

module _ (h : Hooks) where
  failed-IsAnswered :
      (o : Option GoError) (c : Call)
      → c.request_sent ≡ true
      → c.response_err ≡ none
      → (c.response ≢ none) ⊎ (o ≢ none)
      → IsAnswered (failed_with h o c)
  failed-IsAnswered o c e n f =
      let same = failed_with-SameAnswer h o c e n in
      record { sent = same.sent; found = kept same f }
    where
      kept :
          SameAnswer h (record c { response_err = o }) (failed_with h o c)
          → (c.response ≢ none) ⊎ (o ≢ none)
          → ((failed_with h o c).response ≢ none) ⊎ ((failed_with h o c).response_err ≢ none)
      kept same (inl r) = inl (λ q. r (sym same.response ∙ q))
      kept same (inr r) = inr (λ q. r (sym same.response_err ∙ q))

  pub finish_request-IsSettled :
      (n : ℕ) (c : Call) (reply : Try Response)
      → IsInFlight n c
      → IsSettled (1 + n) (finish_request h reply c)
  unfolding finish_request
  finish_request-IsSettled n c (fail e) f =
      let x = request_error h.trim_space c.ctx (not (eq_text c.request.scheme (codes "http"))) e in
      settled n (failed_with h (some x) c) f.never
        (failed-IsAnswered (some x) c f.sent f.no_error (inr (some_ne_none x)))
  finish_request-IsSettled n c (ok r) f =
      let c' : Call = record c { response = some r } in
      settled n (failed_with h (response_error h c r) c') f.never
        (failed-IsAnswered (response_error h c r) c' f.sent f.no_error (inl (some_ne_none r)))

  with_payload-IsUnsent :
      (n : ℕ) (c : Call) (bytes : Text) → IsUnsent n c → IsUnsent n (with_payload bytes c)
  with_payload-IsUnsent n c bytes u = elim (Bool-cases (ltb 0 (length bytes))) [
    | inl e ↦ subst (IsUnsent n) (sym (if_true (ltb 0 (length bytes)) _ c e)) (record {
      unsent = u.unsent;
      idle = u.idle;
      not_ready = u.not_ready;
      pipe_open = u.pipe_open;
      no_error = u.no_error;
      never = u.never;
    })
    | inr e ↦ subst (IsUnsent n) (sym (if_false (ltb 0 (length bytes)) _ c e)) u
  ]

  pub step-Phase :
      (n : ℕ) (c c' : Call) (s : Transition h c c') → Phase n c → Phase (closings h s n) c'
  unfolding closings set_method
  step-Phase n c c' (sends _ k) p = begin_request-Phase h n c p
  step-Phase n c c' (sends_unary _ bytes k u) (inl q) = inr (
      inl (begin_request-IsInFlight h n (with_payload bytes c) (with_payload-IsUnsent n c bytes q)))
  step-Phase n c c' (sends_unary _ bytes k u) (inr (inl q)) = absurd (true_ne_false q.sent u)
  step-Phase n c c' (sends_unary _ bytes k u) (inr (inr q)) = absurd (true_ne_false q.sent u)
  step-Phase n c c' (closes_write _) p = inr (close_write-sent h n c p)
  step-Phase n c c' (answers _ reply f) (inl u) = absurd (true_ne_false f u.idle)
  step-Phase n c c' (answers _ reply f) (inr (inl q)) =
      inr (inr (finish_request-IsSettled n c reply q))
  step-Phase n c c' (answers _ reply f) (inr (inr q)) = absurd (true_ne_false f q.landed)
  step-Phase n c c' (context_moves _ ctx) p =
      moved-Phase n c (record c { ctx = ctx }) refl refl refl refl refl refl p
  step-Phase n c c' (sets_method _ method k) p =
      moved-Phase n c (set_method method c) refl refl refl refl refl refl p

  runs_from-Phase : (a c : Call) (n : ℕ) → Phase 0 a → Execution h a n c → Phase n c
  runs_from-Phase a c n p (stays _) = p
  runs_from-Phase a c n p (steps {b = b} {n = m} r s) =
      step-Phase m b c s (runs_from-Phase a b m p r)

  -- However its user, the client and the context interleave, a call is unsent, or its request is out
  -- and unanswered, or it has its one answer. The channel `responseReady` was closed once in the
  -- last case and never before, so no step closes it twice, and then there is a response or an error.
  pub runs-Phase :
      (ctx : Context) (stream_type : ℕ) (scheme url host : Text) (header : Headers) (n : ℕ)
      (c : Call)
      → Execution h (new_call ctx stream_type scheme url host header) n c
      → Phase n c
  unfolding new_call
  runs-Phase ctx stream_type scheme url host header n c r =
      runs_from-Phase (new_call ctx stream_type scheme url host header) c n
        (inl (record {
          unsent = refl;
          idle = refl;
          not_ready = refl;
          pipe_open = refl;
          no_error = refl;
          never = refl;
        }))
        r
