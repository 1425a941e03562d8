-- ===== src/Streams.antt =====
-- The parts of Go's io package that the transports read and write with.
--
-- A reader is the bytes that it still yields and what ends it: EOF, or an error. How the bytes are
-- split over calls of Read does not show in io.ReadFull, io.CopyN, io.Copy and Buffer.ReadFrom,
-- which loop. A writer accepts some bytes and then fails.
pub mod Laws
use Prim.Native.Nat.{min}
use connect_go.Base.{
  ℕ, ◌+◌, ◌-◌, Bool, true, false, List, [], ◌∷◌, ◌++◌, Option, none, some, Text, codes, ltb, leb,
  ◌==◌, if◌then◌else◌, length, take, drop,
}
use connect_go.Errors.{GoError, sentinel, unexpected_eof, io_eof}

pub data Try {ℓ} (A : Type ℓ) : Type ℓ where
  ok : A → Try A
  fail : GoError → Try A

pub record Stream : Type 0 where
  pub bytes : Text
  pub fault : Option GoError

-- What one of the looping reads returns: its bytes, its error, and the reader left.
pub record Chunk : Type 0 where
  pub got : Text
  pub err : Option GoError
  pub rest : Stream

abbrev pub drained : Stream → Stream
drained s = record s { bytes = [] }

abbrev pub eof_or : Option GoError → GoError
eof_or none = io_eof
eof_or (some e) = e

abbrev pub io_unexpected_eof : GoError
io_unexpected_eof = sentinel unexpected_eof (codes "unexpected EOF")

-- A short `io.ReadFull` after at least one byte.
abbrev pub short_error : Option GoError → GoError
short_error none = io_unexpected_eof
short_error (some e) = e

-- `io.ReadFull` into a buffer of `n` bytes.
unfoldable pub read_full : ℕ → Stream → Chunk
read_full n s =
    if leb n (length s.bytes)
    then record { got = take n s.bytes; err = none; rest = record s { bytes = drop n s.bytes } }
    else record {
      got = s.bytes;
      err = some (if length s.bytes == 0 then eof_or s.fault else short_error s.fault);
      rest = drained s;
    }

-- `io.CopyN` of `n` bytes.
unfoldable pub copy_n : ℕ → Stream → Chunk
copy_n n s =
    if leb n (length s.bytes)
    then record { got = take n s.bytes; err = none; rest = record s { bytes = drop n s.bytes } }
    else record { got = s.bytes; err = some (eof_or s.fault); rest = drained s }

-- `io.Copy` and `Buffer.ReadFrom`: to the end, where EOF is no error.
unfoldable pub copy_all : Stream → Chunk
copy_all s = record { got = s.bytes; err = s.fault; rest = drained s }

-- `io.LimitReader`: EOF after `n` bytes.
unfoldable pub limit_reader : ℕ → Stream → Stream
limit_reader n s =
    if leb n (length s.bytes) then record { bytes = take n s.bytes; fault = none } else s

-- What is left of a reader after `n` bytes, or all, were read through `io.LimitReader`.
unfoldable pub after_limit : ℕ → Stream → Stream
after_limit n s = record s { bytes = drop n s.bytes }

-- A writer that has taken `log`, takes `room` bytes more, and then fails.
pub record Sink : Type 0 where
  pub log : Text
  pub room : ℕ
  pub failure : GoError

pub record Wrote : Type 0 where
  pub count : ℕ
  pub err : Option GoError
  pub sink : Sink

-- `dst.Write`
unfoldable pub write : Text → Sink → Wrote
write p d = record {
  count = min d.room (length p);
  err = if leb (length p) d.room then none else some d.failure;
  sink = record d { log = d.log ++ take d.room p; room = d.room - length p };
}
