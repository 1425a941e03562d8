-- ===== src/HttpCall/Final.antt =====
-- The answer of an HTTP call comes, and is final.
use connect_go.Base.{
  if_true, ℕ, ◌+◌, ◌≡◌, ◌≢◌, ◌≤◌, ◌⊎◌, inl, inr, refl, sym, subst, ap, ◌∙◌, true, Option, none,
  some, Text, arith,
}
use connect_go.Errors.Wrap.{Context}
use connect_go.Errors.{GoError}
use connect_go.Headers.{Headers}
use connect_go.HttpCall.Steps.{
  Transition, sends, sends_unary, closes_write, answers, context_moves, sets_method, closings,
  Execution, stays, steps, IsInFlight, IsSettled, Phase, close_write-sent, begin_request_sent,
  close_write-SameAnswer,
}
use connect_go.HttpCall.{
  Hooks, Call, Response, new_call, close_write, finish_request, set_method,
  block_until_response_ready,
}
use connect_go.Streams.{Try}
use connect_go.HttpCall.Reach.{true_ne_false, finish_request-IsSettled, step-Phase, runs-Phase}

module _ (h : Hooks) where
  -- `blockUntilResponseReady` gives the answer of a call that is ready.
  ready_unblocked :
      (c : Call)
      → c.response_ready ≡ true
      → block_until_response_ready c ≡ some (c.response, c.response_err)
  unfolding block_until_response_ready
  ready_unblocked c e = if_true c.response_ready (some (c.response, c.response_err)) _ e

  -- A call after `CloseWrite` that has become ready without more than one answer of the client.
  pub record Ends (c : Call) (reply : Try Response) : Type 0 where
    pub last : Call
    pub count : ℕ
    pub few : count ≤ 1
    pub ends_so : (last ≡ close_write h c) ⊎ (last ≡ finish_request h reply (close_write h c))
    pub ran : Execution h (close_write h c) count last
    pub answer : Option Response × Option GoError
    pub unblocked : block_until_response_ready last ≡ some answer
    pub found : (answer.0 ≢ none) ⊎ (answer.1 ≢ none)

  -- A call that is closed for writing, at any time of any run, needs one answer of the client at
  -- most, whatever that is, for nobody to wait for the response any longer; who waited finds a
  -- response or an error.
  pub close_write-Ends :
      (ctx : Context) (stream_type : ℕ) (scheme url host : Text) (header : Headers) (n : ℕ)
      (c : Call) (reply : Try Response)
      → Execution h (new_call ctx stream_type scheme url host header) n c
      → Ends c reply
  close_write-Ends ctx stream_type scheme url host header n c reply r =
      ends (close_write-sent h n c (runs-Phase h ctx stream_type scheme url host header n c r))
    where
      ends : IsInFlight n (close_write h c) ⊎ IsSettled n (close_write h c) → Ends c reply
      ends (inl f) =
          let s = finish_request-IsSettled h n (close_write h c) reply f in
          let d = finish_request h reply (close_write h c) in
          record {
            last = d;
            count = 1 + 0;
            few = omega arith;
            ends_so = inr refl;
            ran =
                unfold closings in
                steps (stays (close_write h c)) (answers (close_write h c) reply f.flying);
            answer = (d.response, d.response_err);
            unblocked = ready_unblocked d s.is_ready;
            found = s.found;
          }
      ends (inr s) = record {
        last = close_write h c;
        count = 0;
        few = omega arith;
        ends_so = inl refl;
        ran = stays (close_write h c);
        answer = ((close_write h c).response, (close_write h c).response_err);
        unblocked = ready_unblocked (close_write h c) s.is_ready;
        found = s.found;
      }

  -- What a call keeps that is ready.
  record SameEnd (a c : Call) : Type 0 where
    response : c.response ≡ a.response
    response_err : c.response_err ≡ a.response_err

  sent_same : {b c : Call} → c ≡ b → SameEnd b c
  sent_same {b = b} e = subst (SameEnd b) (sym e) (record { response = refl; response_err = refl })

  step-SameEnd : (n : ℕ) (b c : Call) (s : Transition h b c) → IsSettled n b → SameEnd b c
  unfolding set_method
  step-SameEnd n b c (sends _ k) p = sent_same (begin_request_sent h b p.sent)
  step-SameEnd n b c (sends_unary _ bytes k u) p = absurd (true_ne_false p.sent u)
  step-SameEnd n b c (closes_write _) p =
      let same = close_write-SameAnswer h b p.sent in
      record { response = same.response; response_err = same.response_err }
  step-SameEnd n b c (answers _ reply f) p = absurd (true_ne_false f p.landed)
  step-SameEnd n b c (context_moves _ ctx) p = record { response = refl; response_err = refl }
  step-SameEnd n b c (sets_method _ method k) p = absurd (true_ne_false p.sent k)

  closings_least : (n : ℕ) (b c : Call) (s : Transition h b c) → n ≤ closings h s n
  unfolding closings
  closings_least n b c (sends _ k) = omega arith
  closings_least n b c (sends_unary _ bytes k u) = omega arith
  closings_least n b c (closes_write _) = omega arith
  closings_least n b c (answers _ reply f) = omega arith
  closings_least n b c (context_moves _ ctx) = omega arith
  closings_least n b c (sets_method _ method k) = omega arith

  closings-IsSettled :
      (n : ℕ) (b c : Call) (s : Transition h b c) → IsSettled n b → IsSettled (closings h s n) c
  closings-IsSettled n b c s p = still (step-Phase h n b c s (inr (inr p)))
    where
      still : Phase (closings h s n) c → IsSettled (closings h s n) c
      still (inl u) = absurd (omega (arith, u.never, p.once, closings_least n b c s))
      still (inr (inl f)) = absurd (omega (arith, f.never, p.once, closings_least n b c s))
      still (inr (inr q)) = q

  final_answer :
      (n m : ℕ) (b c : Call)
      → Execution h b m c
      → IsSettled n b
      → (k : ℕ) × IsSettled k c × SameEnd b c
  final_answer n m b c (stays _) p = (n, p, sent_same refl)
  final_answer n m b c (steps {b = d} {n = i} r s) p =
      let (k, q, same) = final_answer n i b d r p in
      let last = step-SameEnd k d c s q in
      (
        closings h s k,
        closings-IsSettled k d c s q,
        record {
          response = last.response ∙ same.response;
          response_err = last.response_err ∙ same.response_err;
        },
      )

  -- The answer of a call is final: whatever happens to a call that is ready, it keeps its response
  -- and its error, and blockUntilResponseReady goes on to give them.
  pub runs_final :
      (ctx : Context) (stream_type : ℕ) (scheme url host : Text) (header : Headers) (n m : ℕ)
      (b c : Call)
      → Execution h (new_call ctx stream_type scheme url host header) n b
      → b.response_ready ≡ true
      → Execution h b m c
      → block_until_response_ready c ≡ some (b.response, b.response_err)
  runs_final ctx stream_type scheme url host header n m b c r e q =
      let (k, p, same) =
        final_answer n m b c q
          (settled_now (runs-Phase h ctx stream_type scheme url host header n b r)) in
      ready_unblocked c p.is_ready
      ∙ ap (λ x. some (x, c.response_err)) same.response
      ∙ ap (λ x. some (b.response, x)) same.response_err
    where
      settled_now : Phase n b → IsSettled n b
      settled_now (inl u) = absurd (true_ne_false e u.not_ready)
      settled_now (inr (inl f)) = absurd (true_ne_false e f.not_ready)
      settled_now (inr (inr p)) = p
