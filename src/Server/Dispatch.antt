-- ===== src/Server/Dispatch.antt =====
-- Which handler a call reaches, in which context, and through which interceptors.
use connect_go.Base.{
  ◌≡◌, ◌≢◌, refl, ap, ◌∙◌, List, [], ◌∷◌, ◌++◌, Option, none, some, Text, eq_text, eq_text_iff,
  arith, if◌then◌else◌, Bool-cases, Option-cases, inl, inr,
}
use connect_go.Server.{
  answered, not_registered, CallContext, ServerInterceptor, Method, Server, registered, duplicate,
  backward, wrap_each, chain_backward, chain_server_interceptors, chained, new_server, find_method,
  wrapped_method, install, register, call, clear_client_context, with_server_context, info_or,
}

-- Interceptors around a function, the first one outermost.
unfoldable pub nest {ℓ} : {F : Type ℓ} → List (F → F) → F → F
nest [] f = f
nest (interceptor ∷ rest) f = interceptor (nest rest f)

wrap_each-append {ℓ} :
    {F : Type ℓ} (xs : List (F → F)) (x : F → F) (f : F)
    → wrap_each (xs ++ x ∷ []) f ≡ x (wrap_each xs f)
unfolding wrap_each
wrap_each-append [] x f = refl
wrap_each-append (y ∷ ys) x f = wrap_each-append ys x (y f)

pub chain_backward-nest {ℓ} :
    {F : Type ℓ} (xs : List (F → F)) (f : F) → chain_backward xs f ≡ nest xs f
unfolding chain_backward backward wrap_each nest
chain_backward-nest [] f = refl
chain_backward-nest (x ∷ xs) f =
    wrap_each-append (backward xs) x f ∙ ap x (chain_backward-nest xs f)

-- However many interceptors a server has, a handler is called through all of them, the first one
-- outermost.
chain_server_interceptors_lem {ℓ} :
    {F : Type ℓ} (interceptors : List (F → F)) (f : F)
    → chained (chain_server_interceptors interceptors) f ≡ nest interceptors f
unfolding chain_server_interceptors nest
chain_server_interceptors_lem [] f = refl
chain_server_interceptors_lem (a ∷ []) f = refl
chain_server_interceptors_lem (a ∷ b ∷ rest) f = chain_backward-nest (a ∷ b ∷ rest) f

-- The context in which every handler runs.
abbrev pub handler_context : {I : Type 0} → I → Option I → CallContext I
handler_context fresh info = record { client_info = none; server_info = some (info_or fresh info) }

context_cleared :
    {I : Type 0} (ctx : CallContext I) (info : I)
    → clear_client_context (with_server_context ctx info)
      ≡ record { client_info = none; server_info = some info }
context_cleared ctx info = elim (Option-cases ctx.client_info) [
  | inl n ↦ rw n refl
  | inr (i, n) ↦ rw n refl
]

module _ {A I S : Type 0} where
  -- The method of a list for a procedure.
  unfoldable pub method_for : Text → List (Method A I S) → Option (Method A I S)
  method_for procedure [] = none
  method_for procedure (m ∷ ms) =
      if eq_text m.spec.procedure procedure then some m else method_for procedure ms

  -- What a method for a procedure is, if there was none before.
  abbrev found_or_wrapped :
      Server A I S → Option (Method A I S) → Option (Method A I S) → Option (Method A I S)
  found_or_wrapped s (some m) o = some m
  found_or_wrapped s none none = none
  found_or_wrapped s none (some m) = some (wrapped_method s m)

  -- What holds of the server that `Register` leaves.
  record IsExtended (s : Server A I S) (ms : List (Method A I S)) (s' : Server A I S) : Type 0 where
    same_unknown : s'.unknown ≡ s.unknown
    found :
        (p : Text)
        → find_method p s'.methods ≡ found_or_wrapped s (find_method p s.methods) (method_for p ms)

  extended_again :
      (s : Server A I S) (m : Method A I S) (ms : List (Method A I S)) (p : Text)
      → find_method m.spec.procedure s.methods ≡ none
      → found_or_wrapped (install s m) (find_method p (install s m).methods) (method_for p ms)
        ≡ found_or_wrapped s (find_method p s.methods) (method_for p (m ∷ ms))
  unfolding find_method method_for
  extended_again s m ms p n = elim (Bool-cases (eq_text m.spec.procedure p)) [
    | inl e ↦
        let gone : find_method p s.methods ≡ none = rw (← (eq_text_iff m.spec.procedure p).0 e) n in
        rw (e, gone) refl
    | inr e ↦ rw e (other (find_method p s.methods) (method_for p ms))
  ]
    where
      other :
          (o q : Option (Method A I S))
          → found_or_wrapped (install s m) o q ≡ found_or_wrapped s o q
      other (some x) q = refl
      other none none = refl
      other none (some x) = refl

  register-IsExtended :
      (ms : List (Method A I S)) (s s' : Server A I S)
      → register ms s ≡ registered s'
      → IsExtended s ms s'
  unfolding register method_for
  register-IsExtended [] s s' h =
      let q : s ≡ s' = ground arith in
      rw (← q) (record { same_unknown = refl; found = λ p. unchanged (find_method p s.methods) })
    where
      unchanged : (o : Option (Method A I S)) → o ≡ found_or_wrapped s o none
      unchanged none = refl
      unchanged (some m) = refl
  register-IsExtended (m ∷ ms) s s' h =
      elim (Option-cases (find_method m.spec.procedure s.methods)) [
        | inl n ↦
            let later = register-IsExtended ms (install s m) s' (rw (n, register) at h) in
            record {
              same_unknown = later.same_unknown;
              found = λ p. later.found p ∙ extended_again s m ms p n;
            }
        | inr (old, n) ↦ absurd (duplicate_ne (rw (n, register) at h))
      ]
    where
      duplicate_ne : duplicate m.spec.procedure s ≢ registered s'
      duplicate_ne = λ q. cc

  -- A server that `Register` filled calls the handler of the method for a procedure, through the
  -- interceptors with the first one outermost, with the method's Spec, and with the CallInfo of the
  -- call and none of the caller's. A procedure for which there is no method fails as unimplemented.
  pub call-register :
      (quote : Text → Text) (fresh : I) (interceptors : List (ServerInterceptor A I S))
      (methods : List (Method A I S)) (s : Server A I S) (ctx : CallContext I) (procedure : Text)
      (info : Option I) (stream : S)
      → register methods (new_server interceptors) ≡ registered s
      → ((m : Method A I S)
          → method_for procedure methods ≡ some m
          → call quote fresh s ctx procedure info stream
            ≡ nest interceptors m.handler (handler_context fresh info) m.spec stream)
        × (method_for procedure methods ≡ none
            → call quote fresh s ctx procedure info stream
              ≡ answered (some (not_registered quote procedure)) stream)
  unfolding call new_server find_method
  call-register quote fresh interceptors methods s ctx procedure info stream h = (found, missing)
    where
      extended : IsExtended (new_server interceptors) methods s
      extended = register-IsExtended methods (new_server interceptors) s h

      found :
          (m : Method A I S)
          → method_for procedure methods ≡ some m
          → call quote fresh s ctx procedure info stream
            ≡ nest interceptors m.handler (handler_context fresh info) m.spec stream
      found m k =
          rw (extended.found procedure, k, context_cleared ctx (info_or fresh info))
            (ap (λ f. f (handler_context fresh info) m.spec stream)
              (chain_server_interceptors_lem interceptors m.handler))

      missing :
          method_for procedure methods ≡ none
          → call quote fresh s ctx procedure info stream
            ≡ answered (some (not_registered quote procedure)) stream
      missing k = rw (extended.found procedure, k, extended.same_unknown) refl
