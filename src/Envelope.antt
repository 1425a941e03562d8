-- ===== src/Envelope.antt =====
-- connecthttp/envelope.go: `envelope`, the five-byte prefix, and its io.Reader, io.WriterTo and
-- io.Seeker. Lengths are below 2^63, so `int64` arithmetic on them does not wrap.
pub mod Frame
pub mod Output
pub mod Seeking
use Prim.Native.Nat.{bit_and}
use connect_go.Base.{
  ℕ, ◌+◌, ◌-◌, ◌*◌, ◌/◌, ◌%◌, ◌^◌, Bool, true, false, ◌&&◌, List, [], ◌∷◌, ◌++◌, Option, none, some,
  Text, codes, ltb, leb, ◌==◌, if◌then◌else◌, length, take, drop,
}
use connect_go.Base.Decimal.{decimal}
use connect_go.Base.Ints.{ℤ, pos, negsuc}
use connect_go.Errors.{GoError, opaque, io_eof}
use connect_go.Streams.{Try, ok, fail, Sink, Wrote, write}

abbrev pub flag_compressed : ℕ
flag_compressed = 1

pub record Envelope : Type 0 where
  pub contents : Text  -- `Data`
  pub flags : ℕ  -- uint8
  pub offset : ℕ  -- int64; Seek refuses a negative one

-- `envelope.IsSet`
unfoldable pub is_set : ℕ → ℕ → Bool
is_set flags flag = bit_and flags flag == flag

-- `binary.BigEndian.PutUint32` and `Uint32`.
unfoldable pub put_uint32 : ℕ → Text
put_uint32 n = n / 2 ^ 24 % 256 ∷ n / 2 ^ 16 % 256 ∷ n / 2 ^ 8 % 256 ∷ n % 256 ∷ []

unfoldable pub get_uint32 : Text → ℕ
get_uint32 (a ∷ b ∷ c ∷ d ∷ _) = a * 2 ^ 24 + b * 2 ^ 16 + c * 2 ^ 8 + d
get_uint32 _ = 0

-- `makeEnvelopePrefix`
unfoldable pub make_prefix : ℕ → ℕ → Try Text
unfolding put_uint32
make_prefix flags size =
    if ltb (2 ^ 32 - 1) size
    then fail (
        opaque
          (codes "connect.makeEnvelopePrefix: size " ++ (decimal size ++ codes " out of bounds")))
    else ok (flags ∷ put_uint32 size)

-- What a call of Read, or WriteTo, does to the envelope. A slice out of range panics.
pub data Outcome {ℓ} (A : Type ℓ) : Type ℓ where
  returned : A → Option GoError → Envelope → Outcome A
  panicked : Outcome A

abbrev pub advance : Envelope → ℕ → Envelope
advance e n = record e { offset = e.offset + n }

abbrev pub end_of : Envelope → ℕ
end_of e = length e.contents + 5

-- The second half of `Read`, with `head` read from the prefix and room for `n` bytes left.
unfoldable pub read_contents : Text → ℕ → Envelope → Outcome Text
read_contents head n e =
    if ltb (length e.contents) (e.offset - 5)
    then panicked
    else let chunk = take n (drop (e.offset - 5) e.contents) in
      let done = advance e (length chunk) in
      let got = head ++ chunk in
      returned got (if length got == 0 && done.offset == end_of e then some io_eof else none) done

unfoldable pub read_prefix : ℕ → Envelope → Try Text → Outcome Text
unfolding read_contents
read_prefix n e (fail err) = returned [] (some err) e
read_prefix n e (ok prefix) =
    let head = take n (drop e.offset prefix) in
    let e' = advance e (length head) in
    if ltb e'.offset 5 then returned head none e' else read_contents head (n - length head) e'

-- `envelope.Read` into a slice of `n` bytes: the bytes copied there.
unfoldable pub read : ℕ → Envelope → Outcome Text
unfolding read_prefix
read n e =
    if ltb e.offset 5
    then read_prefix n e (make_prefix e.flags (length e.contents))
    else read_contents [] n e

-- The second half of `WriteTo`, with `wrote` bytes written before.
unfoldable pub write_contents : ℕ → Sink → Envelope → Outcome (ℕ × Sink)
write_contents wrote dst e =
    if ltb (length e.contents) (e.offset - 5)
    then panicked
    else let w = write (drop (e.offset - 5) e.contents) dst in
      returned (wrote + w.count, w.sink) w.err (advance e w.count)

unfoldable pub write_prefix : Sink → Envelope → Try Text → Outcome (ℕ × Sink)
write_prefix dst e (fail err) = returned (0, dst) (some err) e
write_prefix dst e (ok prefix) =
    let w = write (drop e.offset prefix) dst in
    let e' = advance e w.count in
    if ltb e'.offset 5
    then returned (w.count, w.sink) w.err e'
    else write_contents w.count w.sink e'

-- `envelope.WriteTo`
unfoldable pub write_to : Sink → Envelope → Outcome (ℕ × Sink)
write_to dst e =
    if ltb e.offset 5
    then write_prefix dst e (make_prefix e.flags (length e.contents))
    else write_contents 0 dst e

pub data Whence : Type 0 where
  seek_start seek_current seek_end other : Whence

-- `base + offset`, if it is not negative.
abbrev pub seek_from : Envelope → ℕ → ℤ → Try Envelope
seek_from e base (pos n) = ok (record e { offset = base + n })
seek_from e base (negsuc n) =
    if ltb n base
    then ok (record e { offset = base - n - 1 })
    else fail (opaque (codes "connect.envelope.Seek: negative position"))

-- `envelope.Seek`; the position returned is the new offset.
unfoldable pub seek : ℤ → Whence → Envelope → Try Envelope
seek offset seek_start e = seek_from e 0 offset
seek offset seek_current e = seek_from e e.offset offset
seek offset seek_end e = seek_from e (length e.contents) offset
seek offset other e = fail (opaque (codes "connect.envelope.Seek: invalid whence"))

-- `envelope.Len`; the difference stops at 0, as the test for a positive length does.
unfoldable pub unread : Envelope → ℕ
unread e = length e.contents + 5 - e.offset
