-- ===== src/Tests/Exchanging.antt =====
-- An HTTP call that sends one message, closes its request and is answered; and one that fails.
use connect_go.Base.{
  ℕ, ◌+◌, ◌≡◌, refl, true, false, [], ◌∷◌, Option, none, some, Text, codes, arith,
}
use connect_go.Envelope.{Envelope}
use connect_go.Errors.Wrap.{Context, is_coded}
use connect_go.Errors.{GoError, io_eof, eof, closed_pipe, sentinel, opaque, url_error, is}
use connect_go.HttpCall.Body.{
  reads, writes, copied, write_payload, retries, use_body, released, get_body, read_payload, gave,
}
use connect_go.HttpCall.Failures.{request_error_lem}
use connect_go.HttpCall.Final.{Ends, close_write-Ends, runs_final}
use connect_go.HttpCall.Reach.{runs-Phase}
use connect_go.HttpCall.Retry.{IsRetryable, get_body-use_body}
use connect_go.HttpCall.Sending.{send_payload-closed}
use connect_go.HttpCall.Steps.{
  sends, closes_write, answers, Execution, stays, steps, closings, Phase,
}
use connect_go.HttpCall.Payloads.{send_payload}
use connect_go.HttpCall.{
  Hooks, Call, Response, new_call, begin_request, close_write, finish_request, request_error,
  block_until_response_ready, unless_done,
}
use connect_go.Streams.{ok, fail, Sink}

abbrev hooks : Hooks
hooks = record { on_request_send = none; validate_response = λ r. none; trim_space = λ s. s }

abbrev live : Context
live = record { err = none; past_deadline = false }

-- `StreamTypeClient` is 1.
abbrev opened : Call
opened = new_call live 1 (codes "http") (codes "/a.B/C") (codes "a.b") []

abbrev half_closed : Call
half_closed = close_write hooks (begin_request hooks opened)

abbrev found : Response
found = record { status_code = 200; proto_major = 2; proto_minor = 0; header = []; trailer = [] }

abbrev answered : Call
answered = finish_request hooks (ok found) half_closed

closed_run : Execution hooks opened 0 half_closed
unfolding closings new_call
closed_run =
    steps (steps (stays opened) (sends opened refl)) (closes_write (begin_request hooks opened))

half_closed-in_flight : half_closed.in_flight ≡ true
unfolding close_write begin_request new_call
half_closed-in_flight = refl

answered_run : Execution hooks opened (1 + 0) answered
unfolding closings new_call
answered_run = steps closed_run (answers half_closed (ok found) half_closed-in_flight)

runs-Phase_example : Phase (1 + 0) answered
runs-Phase_example =
    runs-Phase hooks live 1 (codes "http") (codes "/a.B/C") (codes "a.b") [] (1 + 0) answered
      answered_run

close_write-Ends_example : Ends hooks opened (fail io_eof)
close_write-Ends_example =
    close_write-Ends hooks live 1 (codes "http") (codes "/a.B/C") (codes "a.b") [] 0 opened
      (fail io_eof) (stays opened)

answered-ready : answered.response_ready ≡ true
unfolding finish_request
answered-ready = refl

runs_final_example :
    block_until_response_ready (close_write hooks answered)
    ≡ some (answered.response, answered.response_err)
unfolding closings new_call
runs_final_example =
    runs_final hooks live 1 (codes "http") (codes "/a.B/C") (codes "a.b") [] (1 + 0) 0 answered
      (close_write hooks answered) answered_run answered-ready
      (steps (stays answered) (closes_write answered))

request_error_lem_example :
    (is_coded (request_error hooks.trim_space live false (url_error (codes "Post: ") io_eof))
      ≡ true)
    × (is eof (request_error hooks.trim_space live false (url_error (codes "Post: ") io_eof))
        ≡ false)
request_error_lem_example =
    request_error_lem hooks.trim_space live false (url_error (codes "Post: ") io_eof)

abbrev closed_pipe_write : Text → ℕ × Option GoError
closed_pipe_write bytes = (0, some (sentinel closed_pipe (codes "io: read/write on closed pipe")))

half_closed-pipe : half_closed.pipe_closed ≡ true
unfolding close_write new_call begin_request
half_closed-pipe = refl

is-closed_pipe :
    is closed_pipe (sentinel closed_pipe (codes "io: read/write on closed pipe")) ≡ true
unfolding is
is-closed_pipe = refl

send_payload-closed_example :
    send_payload hooks closed_pipe_write (λ r. ok found) live (7 ∷ []) half_closed
    ≡ (unless_done half_closed.ctx.err (0, some io_eof), half_closed)
unfolding close_write begin_request new_call
send_payload-closed_example =
    send_payload-closed hooks live 1 (codes "http") (codes "/a.B/C") (codes "a.b") [] 0 half_closed
      closed_pipe_write (λ r. ok found) live (7 ∷ [])
      (sentinel closed_pipe (codes "io: read/write on closed pipe")) closed_run refl
      half_closed-pipe refl is-closed_pipe

abbrev message : Envelope
message = record { contents = 8 ∷ 9 ∷ []; flags = 0; offset = 0 }

abbrev sink : Sink
sink = record { log = []; room = 2; failure = opaque (codes "full") }

get_body-use_body_example :
    (released (reads 3 ∷ writes sink ∷ retries ∷ []) ≡ false
      → IsRetryable message (use_body (reads 3 ∷ writes sink ∷ retries ∷ []) (some message)))
    × (released (reads 3 ∷ writes sink ∷ retries ∷ []) ≡ true
        → (get_body (use_body (reads 3 ∷ writes sink ∷ retries ∷ []) (some message))
            ≡ fail (opaque (codes "payload cannot be retried")))
          × ((n : ℕ)
              → read_payload n (use_body (reads 3 ∷ writes sink ∷ retries ∷ []) (some message))
                ≡ gave [] (some io_eof) none)
          × ((d : Sink)
              → write_payload d (use_body (reads 3 ∷ writes sink ∷ retries ∷ []) (some message))
                ≡ copied 0 d none none))
get_body-use_body_example =
    get_body-use_body message (reads 3 ∷ writes sink ∷ retries ∷ []) (omega arith) (omega arith)
