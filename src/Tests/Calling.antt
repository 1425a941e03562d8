-- ===== src/Tests/Calling.antt =====
-- Unary calls inside the process: a server with one handler that echoes its request.
use connect_go.Base.{ℕ, ◌≡◌, inl, refl, true, [], ◌∷◌, none, some, Text, codes, eq_text}
use connect_go.Client.Unary.{IsClosed, call_unary-IsClosed}
use connect_go.Client.{ClientFunc, new_client, new_call_info, ensure_client_context, call_unary}
use connect_go.Codes.{not_found}
use connect_go.Errors.{GoError, Verdict, new_error, as_error, wire_verdict, mark_remote}
use connect_go.Errors.Wrap.{is_coded, scrub_handler_error}
use connect_go.Inprocess.Unary.{Sees, seen, unary, handed, call_unary-register}
use connect_go.Inprocess.Verdicts.{as_client_err-scrub_handler_error}
use connect_go.Inprocess.{
  InfoRef, server_side, UnaryStream, Inprocess, handler_receive, handler_send, as_client_err, send,
  close_send, dispatch, new_unary_client_stream, unary_operations, receive,
}
use connect_go.Server.Dispatch.{method_for, nest, handler_context}
use connect_go.Server.{
  Spec, CallContext, Method, Answer, answered, registered, register, new_server, not_registered,
  call, find_method, chain_server_interceptors,
}
use connect_go.Streams.{Try, ok, fail}
use connect_go.Tests.Negotiating.{quote}

abbrev procedure : Text
procedure = codes "/a.B/Echo"

abbrev unary_spec : Text → Spec ℕ
unary_spec name = record { stream_type = 0; idempotency_level = 0; schema = none; procedure = name }

abbrev plain_copy : Text → Try Text
plain_copy = ok

-- The handler receives one message and sends it back.
abbrev echoed : Try Text × UnaryStream ℕ Text → Answer (UnaryStream ℕ Text)
echoed (fail e, u) = answered (some e) u
echoed (ok m, u) = answered none (handler_send m u)

abbrev echo : Method ℕ InfoRef (UnaryStream ℕ Text)
echo = record {
  spec = unary_spec procedure;
  handler = λ ctx spec u. echoed (handler_receive plain_copy u);
}

abbrev here : Inprocess ℕ Text
here = record {
  server = record {
    chain = none;
    methods = (procedure, echo) ∷ [];
    specs = unary_spec procedure ∷ [];
    unknown = none;
  };
  copy = plain_copy;
  canonical = λ key. key;
  quote = quote;
}

abbrev outside : CallContext InfoRef
outside = record { client_info = none; server_info = none }

here-registered : register (echo ∷ []) (new_server []) ≡ registered here.server
unfolding register new_server find_method chain_server_interceptors
here-registered = refl

call_unary-register_example :
    ((m : Method ℕ InfoRef (UnaryStream ℕ Text))
      → method_for procedure (echo ∷ []) ≡ some m
      → Sees (unary here outside none (unary_spec procedure) (b'h' ∷ [])) (
          seen here outside (
            nest [] m.handler
              (handler_context server_side (some server_side))
              m.spec
              (handed here outside none (unary_spec procedure) (b'h' ∷ [])))))
    × (method_for procedure (echo ∷ []) ≡ none
        → Sees
            (unary here outside none (unary_spec procedure) (b'h' ∷ []))
            (fail (as_client_err (not_registered quote procedure))))
call_unary-register_example =
    call_unary-register here outside [] (echo ∷ []) none (unary_spec procedure) (b'h' ∷ [])
      here-registered

-- The echo comes back.
echo_run : (unary here outside none (unary_spec procedure) (b'h' ∷ [])).response ≡ some (b'h' ∷ [])
unfolding call_unary send close_send receive dispatch call find_method eq_text codes handler_receive
    handler_send new_unary_client_stream
echo_run = refl

abbrev lost : GoError
lost = new_error not_found (codes "lost")

lost-coded : is_coded lost ≡ true
unfolding as_error
lost-coded = refl

as_client_err-scrub_handler_error_example :
    (w : GoError) × (v : Verdict) × (scrub_handler_error (some lost) ≡ some w)
    × (wire_verdict w ≡ some v)
    × (wire_verdict (as_client_err lost) ≡ some (mark_remote v))
as_client_err-scrub_handler_error_example = as_client_err-scrub_handler_error lost (inl lost-coded)

abbrev counting : ClientFunc ℕ (UnaryStream ℕ Text)
counting info spec = ok (new_unary_client_stream (some info) spec)

counting_starts :
    nest [] counting (ensure_client_context none) (unary_spec procedure)
    ≡ ok (new_unary_client_stream (some new_call_info) (unary_spec procedure))
unfolding nest ensure_client_context
counting_starts = refl

call_unary-IsClosed_example :
    IsClosed
      (unary_operations here outside)
      (b'h' ∷ [])
      (new_unary_client_stream (some new_call_info) (unary_spec procedure))
      (call_unary
        (unary_operations here outside)
        (new_client [] counting)
        none
        (unary_spec procedure)
        (b'h' ∷ []))
call_unary-IsClosed_example =
    call_unary-IsClosed (unary_operations here outside) [] counting none (unary_spec procedure)
      (b'h' ∷ []) (new_unary_client_stream (some new_call_info) (unary_spec procedure))
      counting_starts
