-- ===== src/Messages.antt =====
-- connecthttp/envelope.go: `envelopeWriter` and `envelopeReader`, which send and receive the
-- enveloped messages of a stream, and `discard` of connecthttp/protocol.go.
--
-- The codec (`connect.Codec`), the compressor and the sender are parameters. A limit of 0 stands for
-- any that is not positive. Buffers are values, so the pool that recycles them does not show.
pub mod Reading
pub mod Writing
pub mod Cutting
pub mod RoundTrip
use Prim.Native.Nat.{bit_and, bit_or}
use connect_go.Base.{
  ℕ, ◌+◌, ◌-◌, ◌*◌, ◌^◌, Bool, true, false, ◌&&◌, ◌||◌, not, List, [], ◌∷◌, ◌++◌, Option, none,
  some, Text, codes, ltb, leb, ◌==◌, if◌then◌else◌, length, take, drop,
}
use connect_go.Base.Decimal.{decimal}
use connect_go.Codes.{Code, unknown, internal, invalid_argument, resource_exhausted}
use connect_go.Compression.{
  Compressor, compress, decompress, caused, found_or, coded_or, too_large, too_large_unknown,
}
use connect_go.Envelope.{Envelope, flag_compressed, is_set, get_uint32}
use connect_go.Errors.Wrap.{
  Context, wrap_if_context_error, wrap_if_context_done, wrap_if_max_bytes_error,
}
use connect_go.Errors.{GoError, new_error, text_of, is, eof, as_error, with_cause, special_envelope}
use connect_go.Streams.{
  Try, ok, fail, Stream, Chunk, read_full, copy_n, copy_all, limit_reader, after_limit,
}

-- `connect.MessageStats`
pub record Stats : Type 0 where
  pub size : ℕ
  pub compressed_size : ℕ

-- What a sender is given: `nopPayload`, or an envelope.
pub data Payload : Type 0 where
  nop : Payload
  framed : Envelope → Payload

pub record Writer (M : Type 0) : Type 0 where
  pub ctx : Context
  pub send : Payload → Option GoError
  pub marshal : M → Try Text
  pub compress_min_bytes : ℕ
  pub pool : Option Compressor
  pub send_max_bytes : ℕ
  pub keeps_stats : Bool  -- `stats` is not nil

-- What a call of the writer did: what it handed to the sender, the stats it stored, its error.
pub record Sent : Type 0 where
  pub payload : Option Payload
  pub stats : Option Stats
  pub err : Option GoError

abbrev pub refuse : GoError → Sent
refuse e = record { payload = none; stats = none; err = some e }

abbrev pub exceeds : Text → ℕ → ℕ → GoError
exceeds what size max =
    new_error resource_exhausted
      (what ++ (decimal size ++ (codes " exceeds sendMaxBytes " ++ decimal max)))

abbrev pub new_envelope : Text → ℕ → Envelope
new_envelope contents flags = record { contents = contents; flags = flags; offset = 0 }

-- The error of a sender that was given nothing to frame.
abbrev pub nop_error : GoError → Option GoError → GoError
nop_error e none = with_cause (new_error unknown (text_of e)) e
nop_error e (some found) = found

abbrev pub sent_nop : Option GoError → Sent
sent_nop none = record { payload = some nop; stats = none; err = none }
sent_nop (some e) = record {
  payload = some nop;
  stats = none;
  err = some (nop_error e (as_error e));
}

module _ {M : Type 0} where
  -- `recordStats`: `flags &^ flagEnvelopeCompressed` clears the lowest of the eight bits.
  abbrev pub record_stats : Writer M → ℕ → ℕ → ℕ → Option Stats
  record_stats w flags size compressed_size =
      if not w.keeps_stats || not (bit_and flags 0xfe == 0)
      then none
      else some (record { size = size; compressed_size = compressed_size })

  abbrev pub sent_with : Writer M → Payload → Option Stats → Option GoError → Sent
  sent_with w p stats none = record { payload = some p; stats = stats; err = none }
  sent_with w p stats (some e) = record {
    payload = some p;
    stats = none;
    err = some (coded_or unknown (codes "write envelope") (wrap_if_context_done w.ctx e));
  }

  -- `write`, and the stats that are recorded if it succeeds.
  unfoldable pub write_envelope : Writer M → Envelope → Option Stats → Sent
  write_envelope w env stats = sent_with w (framed env) stats (w.send (framed env))

  unfoldable pub write_plain : Writer M → Envelope → Sent
  write_plain w env =
      let size = length env.contents in
      let packed = is_set env.flags flag_compressed in
      if ltb 0 w.send_max_bytes && ltb w.send_max_bytes size
      then refuse (exceeds (codes "message size ") size w.send_max_bytes)
      else write_envelope w env
          (record_stats w env.flags (if packed then 0 else size) (if packed then size else 0))

  unfoldable pub write_packed : Writer M → Envelope → Text → Sent
  write_packed w env packed =
      if ltb 0 w.send_max_bytes && ltb w.send_max_bytes (length packed)
      then refuse (exceeds (codes "compressed message size ") (length packed) w.send_max_bytes)
      else write_envelope w (new_envelope packed (bit_or env.flags flag_compressed))
          (record_stats w env.flags (length env.contents) (length packed))

  abbrev pub write_compressed : Writer M → Envelope → Try Text → Sent
  write_compressed w env (ok packed) = write_packed w env packed
  write_compressed w env (fail e) = refuse e

  -- `envelopeWriter.Write`
  unfoldable pub write : Writer M → Envelope → Sent
  unfolding write_plain write_packed write_envelope
  write w env = elim w.pool [
    | none ↦ write_plain w env
    | some c ↦
        if is_set env.flags flag_compressed || ltb (length env.contents) w.compress_min_bytes
        then write_plain w env
        else write_compressed w env (compress c env.contents)
  ]

  abbrev pub write_marshaled : Writer M → Try Text → Sent
  write_marshaled w (ok bytes) = write w (new_envelope bytes 0)
  write_marshaled w (fail e) = refuse (caused internal (codes "marshal message") e)

  -- `envelopeWriter.Marshal`; `none` is a nil message.
  unfoldable pub marshal : Writer M → Option M → Sent
  unfolding write
  marshal w none = sent_nop (w.send nop)
  marshal w (some m) = write_marshaled w (w.marshal m)
