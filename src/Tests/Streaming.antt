-- ===== src/Tests/Streaming.antt =====
-- A stream inside the process: one request, the half-close, and the end of the handler.
use connect_go.Base.{ℕ, ◌≡◌, ◌≢◌, refl, true, false, [], ◌∷◌, none, some, List, Text, codes, All}
use connect_go.Client.{new_call_info}
use connect_go.Headers.{Headers}
use connect_go.Errors.{io_eof}
use connect_go.Server.{Spec}
use connect_go.StreamPair.Halves.{Turns, done, more, is_request, handler_received_eof}
use connect_go.StreamPair.{
  Pair, Event, quiet, handler_ended, sent, handler_received, Turn, send_refused,
  handler_receive_ends, handler_returns, answers, new_stream_pair, finish_handler, begin_receive,
  receive_end,
}

abbrev same_key : Text → Text
same_key key = key

abbrev chat : Spec ℕ
chat = record {
  stream_type = 3;
  idempotency_level = 0;
  schema = none;
  procedure = codes "/a.B/Chat";
}

abbrev fresh : Pair ℕ Text
fresh = new_stream_pair none none chat

-- The handler waits for a request, and the client has half-closed.
abbrev waiting : Pair ℕ Text
waiting = record fresh { dispatched = true; send_closed = true; handler_receiving = true }

abbrev drained : Pair ℕ Text
drained = record waiting { handler_receiving = false }

abbrev ended : Pair ℕ Text
ended = finish_handler same_key (answers none) drained

drains : Turn same_key waiting (handler_received io_eof) drained
unfolding new_stream_pair
drains = handler_receive_ends waiting refl refl refl

ends : Turn same_key drained (handler_ended none [] []) ended
unfolding new_stream_pair
ends = handler_returns drained (answers none) refl refl

no_context_error : waiting.ctx_err ≢ some io_eof
unfolding new_stream_pair
no_context_error = λ h. cc

afterwards : Turns same_key drained (sent io_eof ∷ handler_ended none [] [] ∷ []) ended
afterwards = more (send_refused drained refl) (more ends (done ended))

handler_received_eof_example :
    All (λ (e : Event Text). is_request e ≡ false) (sent io_eof ∷ handler_ended none [] [] ∷ [])
handler_received_eof_example =
    handler_received_eof same_key waiting drained ended
      (sent io_eof ∷ handler_ended none [] [] ∷ []) drains no_context_error afterwards

-- A stream from its start: Receive waits, the handler sets a header, a goroutine of it is left with a
-- Send, the handler ends, the responses close, Receive gives the end, and the Send panics.
abbrev start : Pair ℕ Text
start = new_stream_pair (some new_call_info) none chat

abbrev listening : Pair ℕ Text
listening = begin_receive same_key start

abbrev answer_header : Headers
answer_header = (codes "X-Answer", codes "42" ∷ []) ∷ []

abbrev marked : Pair ℕ Text
marked = record listening {
  server_info = record listening.server_info { response = answer_header; trailer = [] };
}

abbrev left_behind : Pair ℕ Text
left_behind = record marked { handler_sending = some (codes "late") }

abbrev answered : Pair ℕ Text
answered = finish_handler same_key (answers none) left_behind

abbrev closed : Pair ℕ Text
closed = record answered { response_closed = true }

abbrev released : Pair ℕ Text
released = receive_end closed

abbrev before_end : List (Event Text)
before_end = quiet ∷ quiet ∷ quiet ∷ handler_ended none answer_header [] ∷ quiet ∷ []

abbrev panicked : Pair ℕ Text
panicked = record released { handler_sending = none }
