-- ===== src/HttpCall/Retry.antt =====
-- The body of a unary request when net/http retries it.
use connect_go.Base.{
  ℕ, ◌+◌, ◌≡◌, ◌≤◌, ◌<◌, ◌^◌, refl, sym, ap, ◌∙◌, true, false, List, [], ◌∷◌, none, some, codes,
  arith, length, drop, length-take, length-drop,
}
use connect_go.Envelope.Frame.{frame, IsSendable, next_bytes, read_lem, length-frame}
use connect_go.Envelope.Seeking.{read-seek_start}
use connect_go.Envelope.{Envelope, returned, read, write_to, seek, end_of, advance}
use connect_go.Errors.{io_eof, opaque}
use connect_go.HttpCall.Body.{
  PayloadCloser, gave, read_payload, rewind, release, get_body, BodyUse, reads, retries, releases,
  use_body, released, left_by, of_payload, writes, closes, write_payload, close_payload, copied,
  of_copy, left_by_write,
}
use connect_go.Envelope.Output.{write_result, write-count, write_to_lem}
use connect_go.Streams.{ok, fail, Sink, write}

-- An envelope at some position of the frame of another one.
record IsWithin (e x : Envelope) : Type 0 where
  contents : x.contents ≡ e.contents
  flags : x.flags ≡ e.flags
  within : x.offset ≤ end_of x

-- What a body that was not released holds.
record Holds (e : Envelope) (p : PayloadCloser) : Type 0 where
  held : Envelope
  is_held : p ≡ some held
  at : IsWithin e held

read-Holds :
    (n : ℕ) (e x : Envelope)
    → length e.contents < 2 ^ 32
    → IsWithin e x
    → Holds e (left_by (some x) (read_payload n (some x)))
unfolding read_payload
read-Holds n e x small w =
    let fits : length x.contents < 2 ^ 32 = rw w.contents small in
    let m = length (next_bytes n x) in
    let inside : x.offset + m ≤ end_of x = omega (
      arith,
      w.within,
      length-take n (drop x.offset (frame x)),
      length-drop x.offset (frame x),
      length-frame x,
    ) in
    rw (read_lem n x (record { fits = fits; within = w.within })) (record {
      held = record x { offset = x.offset + m };
      is_held = refl;
      at = record { contents = w.contents; flags = w.flags; within = inside };
    })

writes-Holds :
    (d : Sink) (e x : Envelope)
    → length e.contents < 2 ^ 32
    → IsWithin e x
    → Holds e (left_by_write (some x) (write_payload d (some x)))
unfolding write_payload
writes-Holds d e x small w =
    let fits : length x.contents < 2 ^ 32 = rw w.contents small in
    let rest = drop x.offset (frame x) in
    let m = (write rest d).count in
    let inside : x.offset + m ≤ end_of x =
      omega (arith, w.within, write-count rest d, length-drop x.offset (frame x), length-frame x) in
    rw (write_to_lem d x (record { fits = fits; within = w.within })) (record {
      held = record x { offset = x.offset + m };
      is_held = refl;
      at = record { contents = w.contents; flags = w.flags; within = inside };
    })

rewind-Holds : (e x : Envelope) → IsWithin e x → Holds e (rewind (some x)).1
unfolding rewind seek
rewind-Holds e x w = record {
  held = record x { offset = 0 + 0 };
  is_held = refl;
  at = record { contents = w.contents; flags = w.flags; within = omega arith };
}

use_body-released : (us : List BodyUse) → use_body us none ≡ none
unfolding use_body read_payload write_payload close_payload rewind release
use_body-released [] = refl
use_body-released (reads n ∷ us) = use_body-released us
use_body-released (writes d ∷ us) = use_body-released us
use_body-released (closes ∷ us) = use_body-released us
use_body-released (retries ∷ us) = use_body-released us
use_body-released (releases ∷ us) = use_body-released us

use_body-none : (us : List BodyUse) (p : PayloadCloser) → released us ≡ true → use_body us p ≡ none
unfolding use_body released release close_payload
use_body-none [] p h = ground arith
use_body-none (reads n ∷ us) p h = use_body-none us (left_by p (read_payload n p)) h
use_body-none (writes d ∷ us) p h = use_body-none us (left_by_write p (write_payload d p)) h
use_body-none (closes ∷ us) p h = use_body-none us p h
use_body-none (retries ∷ us) p h = use_body-none us (rewind p).1 h
use_body-none (releases ∷ us) p h = use_body-released us

use_body-Holds :
    (us : List BodyUse) (e : Envelope) (p : PayloadCloser)
    → length e.contents < 2 ^ 32
    → Holds e p
    → released us ≡ false
    → Holds e (use_body us p)
unfolding use_body released close_payload
use_body-Holds [] e p small k h = k
use_body-Holds (reads n ∷ us) e p small k h =
    use_body-Holds us e (left_by p (read_payload n p)) small
      (rw k.is_held (read-Holds n e k.held small k.at)) h
use_body-Holds (writes d ∷ us) e p small k h =
    use_body-Holds us e (left_by_write p (write_payload d p)) small
      (rw k.is_held (writes-Holds d e k.held small k.at)) h
use_body-Holds (closes ∷ us) e p small k h = use_body-Holds us e p small k h
use_body-Holds (retries ∷ us) e p small k h =
    use_body-Holds us e (rewind p).1 small (rw k.is_held (rewind-Holds e k.held k.at)) h
use_body-Holds (releases ∷ us) e p small k h = ground arith

-- A body that net/http may retry: the first Read with enough room gives the whole frame, without an
-- error; and so does WriteTo, in one write, whose count and error it returns.
pub record IsRetryable (e : Envelope) (p : PayloadCloser) : Type 0 where
  pub retried : PayloadCloser
  pub is_retried : get_body p ≡ ok retried
  pub rest : PayloadCloser
  pub whole : read_payload (end_of e) retried ≡ gave (frame e) none rest
  pub rest_behind : Sink → PayloadCloser
  pub copies :
      (d : Sink)
      → write_payload d retried
        ≡ copied
            (write (frame e) d).count
            (write (frame e) d).sink
            (write (frame e) d).err
            (rest_behind d)

same_frame : (e x : Envelope) → IsWithin e x → frame x ≡ frame e
unfolding frame
same_frame e x w = rw (w.contents, w.flags) refl

abbrev at_start : Envelope → Envelope
at_start x = record x { offset = 0 + 0 }

read-at_start :
    (e x : Envelope)
    → length e.contents < 2 ^ 32
    → IsWithin e x
    → read (end_of e) (at_start x) ≡ returned (frame e) none (record x { offset = end_of x })
unfolding seek
read-at_start e x small w =
    let fits : length x.contents < 2 ^ 32 = rw w.contents small in
    let same_end : end_of x ≡ end_of e = ap (λ t. length t + 5) w.contents in
    ap (λ n. read n (at_start x)) (sym same_end)
    ∙ read-seek_start x (at_start x) fits refl
    ∙ ap (λ f. returned f none (record x { offset = end_of x })) (same_frame e x w)

at_start-IsSendable :
    (e x : Envelope) → length e.contents < 2 ^ 32 → IsWithin e x → IsSendable (at_start x)
at_start-IsSendable e x small w = record { fits = rw w.contents small; within = omega arith }

write-at_start :
    (d : Sink) (e x : Envelope)
    → length e.contents < 2 ^ 32
    → IsWithin e x
    → write_to d (at_start x) ≡ write_result (write (frame e) d) (at_start x)
unfolding frame
write-at_start d e x small w =
    write_to_lem d (at_start x) (at_start-IsSendable e x small w)
    ∙ ap (λ t. write_result (write t d) (at_start x)) (same_frame e x w)

held-IsRetryable :
    (e x : Envelope) → length e.contents < 2 ^ 32 → IsWithin e x → IsRetryable e (some x)
unfolding get_body rewind read_payload write_payload seek
held-IsRetryable e x small w = record {
  retried = some (at_start x);
  is_retried = refl;
  rest = some (record x { offset = end_of x });
  whole = ap of_payload (read-at_start e x small w);
  rest_behind = λ d. some (advance (at_start x) (write (frame e) d).count);
  copies = λ d. ap of_copy (write-at_start d e x small w);
}

Holds-IsRetryable :
    (e : Envelope) (p : PayloadCloser) → length e.contents < 2 ^ 32 → Holds e p → IsRetryable e p
Holds-IsRetryable e p small k = rw k.is_held (held-IsRetryable e k.held small k.at)

-- For an envelope whose size fits its prefix: however often the body of a unary request was read,
-- written, closed and rewound, until it is released GetBody gives a body that sends the whole frame
-- again, by Read or by WriteTo. Once it is released, GetBody fails, a Read that comes late gets
-- io.EOF and none of the payload, and a late WriteTo writes nothing.
pub get_body-use_body :
    (e : Envelope) (us : List BodyUse)
    → length e.contents < 2 ^ 32
    → e.offset ≤ end_of e
    → (released us ≡ false → IsRetryable e (use_body us (some e)))
      × (released us ≡ true
          → (get_body (use_body us (some e)) ≡ fail (opaque (codes "payload cannot be retried")))
            × ((n : ℕ) → read_payload n (use_body us (some e)) ≡ gave [] (some io_eof) none)
            × ((d : Sink) → write_payload d (use_body us (some e)) ≡ copied 0 d none none))
unfolding get_body rewind read_payload write_payload
get_body-use_body e us small inside = (
  λ h. Holds-IsRetryable e (use_body us (some e)) small (
      use_body-Holds us e (some e) small
        (record {
          held = e;
          is_held = refl;
          at = record { contents = refl; flags = refl; within = inside };
        })
        h),
  λ h. rw (use_body-none us (some e) h) (refl, λ n. refl, λ d. refl),
)
