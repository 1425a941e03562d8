-- ===== src/HttpCall/Steps.antt =====
-- The interleavings of an HTTP call: its user sends and closes, the client answers, the context ends.
use connect_go.Base.{
  ℕ, ◌+◌, ◌≡◌, ◌≢◌, ◌⊎◌, inl, inr, refl, sym, subst, ap, ◌∙◌, true, false, Option, none, some, Text,
  Bool-cases, if_true, if_false,
}
use connect_go.Errors.Wrap.{Context}
use connect_go.Errors.{GoError}
use connect_go.HttpCall.{
  Hooks, Call, Response, sends_stream, begin_request, with_payload, close_write, finish_request,
  failed_with, set_method,
}
use connect_go.Streams.{Try}

module _ (h : Hooks) where
  pub data Transition : Call → Call → Type 0 where
    sends : (c : Call) → sends_stream c.stream_type ≡ true → Transition c (begin_request h c)
    sends_unary :
        (c : Call) (bytes : Text)
        → sends_stream c.stream_type ≡ false
        → c.request_sent ≡ false
        → Transition c (begin_request h (with_payload bytes c))
    closes_write : (c : Call) → Transition c (close_write h c)
    answers :
        (c : Call) (reply : Try Response)
        → c.in_flight ≡ true
        → Transition c (finish_request h reply c)
    context_moves : (c : Call) (ctx : Context) → Transition c (record c { ctx = ctx })
    sets_method :
        (c : Call) (method : Text) → c.request_sent ≡ false → Transition c (set_method method c)

  -- How often the channel `responseReady` was closed, after a step.
  unfoldable pub closings : {c c' : Call} → Transition c c' → ℕ → ℕ
  closings (sends c s) n = n
  closings (sends_unary c bytes s u) n = n
  closings (closes_write c) n = n
  closings (answers c reply f) n = 1 + n
  closings (context_moves c ctx) n = n
  closings (sets_method c method u) n = n

  pub data Execution : Call → ℕ → Call → Type 0 where
    stays : (c : Call) → Execution c 0 c
    steps :
        {a b c : Call} {n : ℕ}
        → Execution a n b
        → (s : Transition b c) → Execution a (closings s n) c

-- The states of a call, with the number of times that `responseReady` was closed.
pub record IsUnsent (n : ℕ) (c : Call) : Type 0 where
  pub unsent : c.request_sent ≡ false
  pub idle : c.in_flight ≡ false
  pub not_ready : c.response_ready ≡ false
  pub pipe_open : c.pipe_closed ≡ false
  pub no_error : c.response_err ≡ none
  pub never : n ≡ 0

pub record IsInFlight (n : ℕ) (c : Call) : Type 0 where
  pub sent : c.request_sent ≡ true
  pub flying : c.in_flight ≡ true
  pub not_ready : c.response_ready ≡ false
  pub no_error : c.response_err ≡ none
  pub never : n ≡ 0

pub record IsSettled (n : ℕ) (c : Call) : Type 0 where
  pub sent : c.request_sent ≡ true
  pub landed : c.in_flight ≡ false
  pub is_ready : c.response_ready ≡ true
  pub found : (c.response ≢ none) ⊎ (c.response_err ≢ none)
  pub once : n ≡ 1

abbrev pub Phase : ℕ → Call → Type 0
Phase n c = IsUnsent n c ⊎ (IsInFlight n c ⊎ IsSettled n c)

pub some_ne_none : {A : Type 0} (a : A) → ◌≢◌ {A = Option A} (some a) none
some_ne_none a = λ e. cc

abbrev piped : Call → Call
piped c = record c { pipe_closed = true }

piped-IsInFlight : (n : ℕ) (c : Call) → IsInFlight n c → IsInFlight n (piped c)
piped-IsInFlight n c p = record {
  sent = p.sent;
  flying = p.flying;
  not_ready = p.not_ready;
  no_error = p.no_error;
  never = p.never;
}

piped-IsSettled : (n : ℕ) (c : Call) → IsSettled n c → IsSettled n (piped c)
piped-IsSettled n c p = record {
  sent = p.sent;
  landed = p.landed;
  is_ready = p.is_ready;
  found = p.found;
  once = p.once;
}

module _ (h : Hooks) where
  pub begin_request_sent : (c : Call) → c.request_sent ≡ true → begin_request h c ≡ c
  unfolding begin_request
  begin_request_sent c e = if_true c.request_sent c _ e

  pub begin_request-IsInFlight :
      (n : ℕ) (c : Call) → IsUnsent n c → IsInFlight n (begin_request h c)
  unfolding begin_request
  begin_request-IsInFlight n c u =
      subst (IsInFlight n) (sym (if_false c.request_sent c _ u.unsent)) (record {
        sent = refl;
        flying = refl;
        not_ready = u.not_ready;
        no_error = u.no_error;
        never = u.never;
      })

  pub begin_request-Phase : (n : ℕ) (c : Call) → Phase n c → Phase n (begin_request h c)
  begin_request-Phase n c (inl u) = inr (inl (begin_request-IsInFlight n c u))
  begin_request-Phase n c (inr (inl f)) =
      subst (Phase n) (sym (begin_request_sent c f.sent)) (inr (inl f))
  begin_request-Phase n c (inr (inr s)) =
      subst (Phase n) (sym (begin_request_sent c s.sent)) (inr (inr s))

  pub close_write_lem :
      (c : Call)
      → (close_write h c ≡ begin_request h c) ⊎ (close_write h c ≡ piped (begin_request h c))
  unfolding close_write
  close_write_lem c = elim (Bool-cases (sends_stream c.stream_type)) [
    | inl e ↦ inr (if_true (sends_stream c.stream_type) _ _ e)
    | inr e ↦ inl (if_false (sends_stream c.stream_type) _ _ e)
  ]

  piped-sent :
      (n : ℕ) (c : Call)
      → IsInFlight n c ⊎ IsSettled n c
      → IsInFlight n (piped c) ⊎ IsSettled n (piped c)
  piped-sent n c (inl f) = inl (piped-IsInFlight n c f)
  piped-sent n c (inr s) = inr (piped-IsSettled n c s)

  -- `CloseWrite` has sent the request in any case.
  pub close_write-sent :
      (n : ℕ) (c : Call)
      → Phase n c
      → IsInFlight n (close_write h c) ⊎ IsSettled n (close_write h c)
  close_write-sent n c p = elim (close_write_lem c) [
    | inl e ↦ subst (λ x. IsInFlight n x ⊎ IsSettled n x) (sym e) (begun p)
    | inr e ↦
        subst (λ x. IsInFlight n x ⊎ IsSettled n x) (sym e)
          (piped-sent n (begin_request h c) (begun p))
  ]
    where
      begun : Phase n c → IsInFlight n (begin_request h c) ⊎ IsSettled n (begin_request h c)
      begun (inl u) = inl (begin_request-IsInFlight n c u)
      begun (inr q) =
          subst (λ x. IsInFlight n x ⊎ IsSettled n x) (sym (begin_request_sent c (sent_of q))) q
        where
          sent_of : IsInFlight n c ⊎ IsSettled n c → c.request_sent ≡ true
          sent_of (inl f) = f.sent
          sent_of (inr s) = s.sent

  -- What closing the write side leaves as it is, of a call whose request was sent.
  pub record SameAnswer (c c' : Call) : Type 0 where
    pub sent : c'.request_sent ≡ true
    pub response : c'.response ≡ c.response
    pub response_err : c'.response_err ≡ c.response_err

  pub close_write-SameAnswer : (c : Call) → c.request_sent ≡ true → SameAnswer c (close_write h c)
  close_write-SameAnswer c e = elim (close_write_lem c) [
    | inl q ↦
        subst (SameAnswer c) (sym (q ∙ begin_request_sent c e))
          (record { sent = e; response = refl; response_err = refl })
    | inr q ↦
        subst (SameAnswer c) (sym (q ∙ ap piped (begin_request_sent c e)))
          (record { sent = e; response = refl; response_err = refl })
  ]

  pub failed_with-SameAnswer :
      (o : Option GoError) (c : Call)
      → c.request_sent ≡ true
      → c.response_err ≡ none
      → SameAnswer (record c { response_err = o }) (failed_with h o c)
  failed_with-SameAnswer none c e n = record { sent = e; response = refl; response_err = n }
  failed_with-SameAnswer (some x) c e n =
      close_write-SameAnswer (record c { response_err = some x }) e
