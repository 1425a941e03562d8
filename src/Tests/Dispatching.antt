-- ===== src/Tests/Dispatching.antt =====
-- A server with two methods and two interceptors.
use connect_go.Base.{ℕ, ◌≡◌, refl, [], ◌∷◌, ◌++◌, List, none, some, Text, codes, eq_text}
use connect_go.Errors.{opaque}
use connect_go.Server.Dispatch.{call-register, method_for, nest, handler_context}
use connect_go.Server.{
  answered, not_registered, Method, Server, ServerInterceptor, CallContext, registered, register,
  new_server, call, backward, chain_backward, chain_server_interceptors, find_method, wrap_each,
}
use connect_go.Tests.Negotiating.{quote}

-- Schemas and infos are numbers, streams are texts; a method answers with its stream.
abbrev echo : Text → Method ℕ ℕ Text
echo procedure = record {
  spec = record { stream_type = 0; idempotency_level = 0; schema = none; procedure = procedure };
  handler = λ ctx spec stream. answered (some (opaque stream)) stream;
}

abbrev tag : ℕ → ServerInterceptor ℕ ℕ Text
tag n next = λ ctx spec stream. next ctx spec (stream ++ n ∷ [])

abbrev interceptors : List (ServerInterceptor ℕ ℕ Text)
interceptors = tag 1 ∷ tag 2 ∷ []

abbrev methods : List (Method ℕ ℕ Text)
methods = echo (codes "/a.B/C") ∷ echo (codes "/a.B/D") ∷ []

abbrev filled : Server ℕ ℕ Text
filled = record {
  chain = (new_server interceptors).chain;
  methods =
      (
        codes "/a.B/D",
        record (echo (codes "/a.B/D")) {
          handler = λ ctx spec stream.
              answered (some (opaque ((stream ++ 1 ∷ []) ++ 2 ∷ [])))
                ((stream ++ 1 ∷ []) ++ 2 ∷ []);
        },
      )
      ∷ (
        codes "/a.B/C",
        record (echo (codes "/a.B/C")) {
          handler = λ ctx spec stream.
              answered (some (opaque ((stream ++ 1 ∷ []) ++ 2 ∷ [])))
                ((stream ++ 1 ∷ []) ++ 2 ∷ []);
        },
      )
      ∷ [];
  specs = (echo (codes "/a.B/C")).spec ∷ (echo (codes "/a.B/D")).spec ∷ [];
  unknown = none;
}

filled-registered : register methods (new_server interceptors) ≡ registered filled
unfolding register new_server codes eq_text find_method chain_server_interceptors chain_backward
    wrap_each backward
filled-registered = refl

abbrev caller : CallContext ℕ
caller = record { client_info = some 7; server_info = none }

call-register_example :
    ((m : Method ℕ ℕ Text)
      → method_for (codes "/a.B/D") methods ≡ some m
      → call quote 0 filled caller (codes "/a.B/D") (some 4) []
        ≡ nest interceptors m.handler (handler_context 0 (some 4)) m.spec [])
    × (method_for (codes "/a.B/D") methods ≡ none
        → call quote 0 filled caller (codes "/a.B/D") (some 4) []
          ≡ answered (some (not_registered quote (codes "/a.B/D"))) [])
call-register_example =
    call-register quote 0 interceptors methods filled caller (codes "/a.B/D") (some 4) []
      filled-registered
