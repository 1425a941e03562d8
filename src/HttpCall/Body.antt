-- ===== src/HttpCall/Body.antt =====
-- connecthttp/duplex_http_call.go: `payloadCloser`, the body of a unary request, over an envelope, and
-- the `GetBody` with which net/http retries a request.
use connect_go.Base.{ℕ, Bool, true, false, List, [], ◌∷◌, Option, none, some, Text, codes}
use connect_go.Base.Ints.{pos}
use connect_go.Envelope.{Envelope, Outcome, returned, panicked, read, write_to, seek, seek_start}
use connect_go.Errors.{GoError, io_eof, opaque}
use connect_go.Streams.{Sink, Try, ok, fail}

-- `payloadCloser`: its payload, none after `Release`.
abbrev pub PayloadCloser : Type 0
PayloadCloser = Option Envelope

-- What Read gives, or its panic.
pub data Chunk : Type 0 where
  gave : Text → Option GoError → PayloadCloser → Chunk
  read_panicked : Chunk

abbrev pub of_payload : Outcome Text → Chunk
of_payload (returned bytes err e) = gave bytes err (some e)
of_payload panicked = read_panicked

-- `payloadCloser.Read`
unfoldable pub read_payload : ℕ → PayloadCloser → Chunk
read_payload n none = gave [] (some io_eof) none
read_payload n (some e) = of_payload (read n e)

-- What WriteTo gives: how many bytes it wrote, the writer, and its error; or its panic.
pub data Copy : Type 0 where
  copied : ℕ → Sink → Option GoError → PayloadCloser → Copy
  write_panicked : Copy

abbrev pub of_copy : Outcome (ℕ × Sink) → Copy
of_copy (returned (n, dst) err e) = copied n dst err (some e)
of_copy panicked = write_panicked

-- `payloadCloser.WriteTo`
unfoldable pub write_payload : Sink → PayloadCloser → Copy
write_payload dst none = copied 0 dst none none
write_payload dst (some e) = of_copy (write_to dst e)

-- `payloadCloser.Close`
unfoldable pub close_payload : PayloadCloser → Option GoError × PayloadCloser
close_payload p = (none, p)

abbrev pub rewound_to : Envelope → Try Envelope → Bool × PayloadCloser
rewound_to e (fail _) = (false, some e)
rewound_to e (ok e') = (true, some e')

-- `payloadCloser.Rewind`
unfoldable pub rewind : PayloadCloser → Bool × PayloadCloser
rewind none = (false, none)
rewind (some e) = rewound_to e (seek (pos 0) seek_start e)

-- `payloadCloser.Release`
unfoldable pub release : PayloadCloser → PayloadCloser
release p = none

abbrev pub rewound_body : Bool × PayloadCloser → Try PayloadCloser
rewound_body (false, p) = fail (opaque (codes "payload cannot be retried"))
rewound_body (true, p) = ok p

-- The `GetBody` of `sendUnary`.
unfoldable pub get_body : PayloadCloser → Try PayloadCloser
get_body p = rewound_body (rewind p)

-- What net/http and `sendUnary` may do with a body, in any order.
pub data BodyUse : Type 0 where
  reads : ℕ → BodyUse
  writes : Sink → BodyUse
  closes retries releases : BodyUse

abbrev pub left_by : PayloadCloser → Chunk → PayloadCloser
left_by p (gave _ _ p') = p'
left_by p read_panicked = p

abbrev pub left_by_write : PayloadCloser → Copy → PayloadCloser
left_by_write p (copied _ _ _ p') = p'
left_by_write p write_panicked = p

unfoldable pub use_body : List BodyUse → PayloadCloser → PayloadCloser
use_body [] p = p
use_body (reads n ∷ us) p = use_body us (left_by p (read_payload n p))
use_body (writes dst ∷ us) p = use_body us (left_by_write p (write_payload dst p))
use_body (closes ∷ us) p = use_body us (close_payload p).1
use_body (retries ∷ us) p = use_body us (rewind p).1
use_body (releases ∷ us) p = use_body us (release p)

unfoldable pub released : List BodyUse → Bool
released [] = false
released (reads n ∷ us) = released us
released (writes dst ∷ us) = released us
released (closes ∷ us) = released us
released (retries ∷ us) = released us
released (releases ∷ us) = true
