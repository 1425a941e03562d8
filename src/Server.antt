-- ===== src/Server.antt =====
-- connect.go: `Server` with its registry of methods, the chain of interceptors, and the contexts in
-- which handlers run.
--
-- A schema, a `CallInfo` and a stream are parameters, and so is the verb %q of fmt. Of a context only
-- the two `CallInfo` values are modelled. The map of methods is the list of its entries.
pub mod Dispatch
use connect_go.Base.{
  ℕ, Bool, true, false, List, [], ◌∷◌, ◌++◌, Option, none, some, Text, codes, eq_text,
  if◌then◌else◌,
}
use connect_go.Codes.{unimplemented}
use connect_go.Errors.{GoError, new_error}

-- `StreamTypeBidi`
abbrev pub bidi : ℕ
bidi = 3

pub record Spec (A : Type 0) : Type 0 where
  pub stream_type : ℕ
  pub idempotency_level : ℕ
  pub schema : Option A
  pub procedure : Text

pub record CallContext (I : Type 0) : Type 0 where
  pub client_info : Option I
  pub server_info : Option I

-- `withServerContext`
abbrev pub with_server_context : {I : Type 0} → CallContext I → I → CallContext I
with_server_context ctx info = record ctx { server_info = some info }

-- `clearClientContext`
abbrev pub clear_client_context : {I : Type 0} → CallContext I → CallContext I
clear_client_context ctx = elim ctx.client_info [
  | none ↦ ctx
  | some _ ↦ record ctx { client_info = none }
]

-- How a call of a handler ends: with its error, or with a panic, of which `recover` gives the text;
-- and the stream as the handler leaves it.
pub data Answer (S : Type 0) : Type 0 where
  answered : Option GoError → S → Answer S
  panicked : Text → S → Answer S

-- `ServerFunc`
abbrev pub ServerFunc : Type 0 → Type 0 → Type 0 → Type 0
ServerFunc A I S = CallContext I → Spec A → S → Answer S

-- `ServerInterceptor`
abbrev pub ServerInterceptor : Type 0 → Type 0 → Type 0 → Type 0
ServerInterceptor A I S = ServerFunc A I S → ServerFunc A I S

pub record Method (A I S : Type 0) : Type 0 where
  pub spec : Spec A
  pub handler : ServerFunc A I S

pub record Server (A I S : Type 0) : Type 0 where
  pub chain : Option (ServerInterceptor A I S)
  pub methods : List (Text × Method A I S)
  pub specs : List (Spec A)
  pub unknown : Option (ServerFunc A I S)

-- What `Register` leaves: a server, or the procedure that was registered twice and the server as it
-- was then, with a panic.
pub data Registered (A I S : Type 0) : Type 0 where
  registered : Server A I S → Registered A I S
  duplicate : Text → Server A I S → Registered A I S

-- The values that `slices.Backward` yields.
unfoldable pub backward {ℓ} : {B : Type ℓ} → List B → List B
backward [] = []
backward (x ∷ xs) = backward xs ++ x ∷ []

-- `next = interceptor(next)`, in the order of the list.
unfoldable pub wrap_each {ℓ} : {F : Type ℓ} → List (F → F) → F → F
wrap_each [] next = next
wrap_each (interceptor ∷ rest) next = wrap_each rest (interceptor next)

-- `chainClientInterceptors`, and the function that `chainServerInterceptors` returns.
unfoldable pub chain_backward {ℓ} : {F : Type ℓ} → List (F → F) → F → F
chain_backward interceptors next = wrap_each (backward interceptors) next

-- `chainServerInterceptors`
unfoldable pub chain_server_interceptors {ℓ} : {F : Type ℓ} → List (F → F) → Option (F → F)
chain_server_interceptors [] = none
chain_server_interceptors (interceptor ∷ []) = some interceptor
chain_server_interceptors (a ∷ b ∷ rest) = some (chain_backward (a ∷ b ∷ rest))

abbrev pub chained {ℓ} : {F : Type ℓ} → Option (F → F) → F → F
chained none f = f
chained (some chain) f = chain f

abbrev pub info_or {ℓ} : {I : Type ℓ} → I → Option I → I
info_or fresh none = fresh
info_or fresh (some info) = info

-- The error for a procedure without a method.
abbrev pub not_registered : (Text → Text) → Text → GoError
not_registered quote procedure =
    new_error unimplemented (codes "procedure " ++ (quote procedure ++ codes " not registered"))

module _ {A I S : Type 0} where
  -- `NewServer`
  unfoldable pub new_server : List (ServerInterceptor A I S) → Server A I S
  new_server interceptors = record {
    chain = chain_server_interceptors interceptors;
    methods = [];
    specs = [];
    unknown = none;
  }

  unfoldable pub find_method : Text → List (Text × Method A I S) → Option (Method A I S)
  find_method procedure [] = none
  find_method procedure ((p, m) ∷ ms) =
      if eq_text p procedure then some m else find_method procedure ms

  abbrev pub wrapped_method : Server A I S → Method A I S → Method A I S
  wrapped_method s m = record m { handler = chained s.chain m.handler }

  abbrev pub install : Server A I S → Method A I S → Server A I S
  install s m = record s {
    methods = (m.spec.procedure, wrapped_method s m) ∷ s.methods;
    specs = s.specs ++ m.spec ∷ [];
  }

  -- `Server.Register`
  unfoldable pub register : List (Method A I S) → Server A I S → Registered A I S
  register [] s = registered s
  register (m ∷ ms) s = elim (find_method m.spec.procedure s.methods) [
    | some _ ↦ duplicate m.spec.procedure s
    | none ↦ register ms (install s m)
  ]

  abbrev pub set_unknown : Server A I S → Option (ServerFunc A I S) → Server A I S
  set_unknown s none = record s { unknown = none }
  set_unknown s (some f) = record s { unknown = some (chained s.chain f) }

  -- `Server.SetUnknownHandler`
  unfoldable pub set_unknown_handler : Option (ServerFunc A I S) → Server A I S → Server A I S
  set_unknown_handler f s = set_unknown s f

  abbrev pub call_unknown :
      (Text → Text) → CallContext I → Text → S → Option (ServerFunc A I S) → Answer S
  call_unknown quote ctx procedure stream none =
      answered (some (not_registered quote procedure)) stream
  call_unknown quote ctx procedure stream (some f) =
      f ctx
        (record { stream_type = bidi; idempotency_level = 0; schema = none; procedure = procedure })
        stream

  abbrev pub call_method :
      (Text → Text) → Server A I S → CallContext I → Text → S → Option (Method A I S) → Answer S
  call_method quote s ctx procedure stream none = call_unknown quote ctx procedure stream s.unknown
  call_method quote s ctx procedure stream (some m) = m.handler ctx m.spec stream

  -- `Server.Call`; `fresh` is the `CallInfo` that it allocates for a nil one.
  unfoldable pub call :
      (Text → Text) → I → Server A I S → CallContext I → Text → Option I → S → Answer S
  call quote fresh s ctx procedure info stream =
      call_method quote s (clear_client_context (with_server_context ctx (info_or fresh info)))
        procedure stream (find_method procedure s.methods)
