-- ===== src/HttpCall/Sending.antt =====
-- What Send says when the request can take no more.
use connect_go.Base.{
  if_true, ℕ, ◌≡◌, inl, inr, refl, ap, ◌∙◌, Bool, true, not, Option, some, Text, eq_text, codes,
}
use connect_go.Errors.Wrap.{Context}
use connect_go.Errors.{GoError, io_eof, closed_pipe, is}
use connect_go.Headers.{Headers}
use connect_go.HttpCall.Reach.{true_ne_false, runs-Phase}
use connect_go.HttpCall.Steps.{Execution, Phase, begin_request_sent}
use connect_go.HttpCall.Payloads.{send_stream, send_payload, written}
use connect_go.HttpCall.{
  Hooks, Call, Request, Response, new_call, sends_stream, begin_request, close_write,
  finish_request, request_error, unless_done,
}
use connect_go.Streams.{Try, fail}

module _ (h : Hooks) where
  close_write-pipe_closed :
      (c : Call) → sends_stream c.stream_type ≡ true → (close_write h c).pipe_closed ≡ true
  unfolding close_write
  close_write-pipe_closed c e =
      ap (λ (x : Call). x.pipe_closed) (if_true (sends_stream c.stream_type) _ _ e)

  -- A request that fails closes the pipe, and so does `CloseWrite`.
  finish_request-pipe_closed :
      (c : Call) (e : GoError)
      → sends_stream c.stream_type ≡ true
      → (finish_request h (fail e) c).pipe_closed ≡ true
  unfolding finish_request
  finish_request-pipe_closed c e s =
      close_write-pipe_closed
        (record c {
          response_err =
              some (
                request_error h.trim_space c.ctx (not (eq_text c.request.scheme (codes "http"))) e);
        })
        s

  sent_before : (n : ℕ) (c : Call) → Phase n c → c.pipe_closed ≡ true → c.request_sent ≡ true
  sent_before n c (inl u) e = absurd (true_ne_false e u.pipe_open)
  sent_before n c (inr (inl f)) e = f.sent
  sent_before n c (inr (inr s)) e = s.sent

  -- Once the write side of a streaming request is closed, in any run, Send gives io.EOF, and a done
  -- context its error, as wrapIfContextError gives it; neither starts the request again. A closed pipe says
  -- io.ErrClosedPipe.
  pub send_payload-closed :
      (ctx : Context) (stream_type : ℕ) (scheme url host : Text) (header : Headers) (n : ℕ)
      (c : Call) (pipe_write : Text → ℕ × Option GoError) (do_request : Request → Try Response)
      (later : Context) (bytes : Text) (e : GoError)
      → Execution h (new_call ctx stream_type scheme url host header) n c
      → sends_stream c.stream_type ≡ true
      → c.pipe_closed ≡ true
      → pipe_write bytes ≡ (0, some e)
      → is closed_pipe e ≡ true
      → send_payload h pipe_write do_request later bytes c
        ≡ (unless_done c.ctx.err (0, some io_eof), c)
  unfolding send_payload send_stream
  send_payload-closed ctx stream_type scheme url host header n c pipe_write do_request later bytes e
        r s p w k =
      if_true (sends_stream c.stream_type) _ _ s ∙ closed
    where
      sent : c.request_sent ≡ true
      sent = sent_before n c (runs-Phase h ctx stream_type scheme url host header n c r) p

      eof_written : (b : Bool) → b ≡ true → written (not b) bytes pipe_write ≡ (0, some io_eof)
      eof_written b q = rw (q, w, k) refl

      closed :
          ◌≡◌ {A = (ℕ × Option GoError) × Call}
            (
              unless_done c.ctx.err (written (not c.request_sent) bytes pipe_write),
              begin_request h c,
            )
            (unless_done c.ctx.err (0, some io_eof), c)
      closed =
          ap (λ x. (x, begin_request h c))
            (ap (unless_done c.ctx.err) (eof_written c.request_sent sent))
          ∙ ap (λ x. (unless_done c.ctx.err (0, some io_eof), x)) (begin_request_sent h c sent)
