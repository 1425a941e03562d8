-- ===== src/Messages/Reading.antt =====
-- connecthttp/envelope.go: `envelopeReader`.
use connect_go.Base.{
  ℕ, ◌+◌, ◌*◌, Bool, ◌&&◌, ◌||◌, not, [], ◌∷◌, ◌++◌, Option, none, some, Text, codes, ltb, ◌==◌,
  if◌then◌else◌, length,
}
use connect_go.Base.Decimal.{decimal}
use connect_go.Codes.{Code, unknown, internal, invalid_argument}
use connect_go.Compression.{Compressor, decompress, caused, coded_or, too_large, too_large_unknown}
use connect_go.Envelope.{Envelope, flag_compressed, is_set, get_uint32}
use connect_go.Errors.Wrap.{
  Context, wrap_if_context_error, wrap_if_context_done, wrap_if_max_bytes_error,
}
use connect_go.Errors.{GoError, new_error, text_of, is, eof, with_cause, special_envelope}
use connect_go.Messages.{Stats, new_envelope}
use connect_go.Streams.{
  Try, ok, fail, Stream, Chunk, read_full, copy_n, copy_all, limit_reader, after_limit,
}

pub record Reader (M : Type 0) : Type 0 where
  pub ctx : Context
  pub stream : Stream
  pub bytes_read : ℕ
  pub unmarshal : Text → Try M
  pub pool : Option Compressor
  pub read_max_bytes : ℕ
  pub keeps_stats : Bool  -- `stats` is not nil

-- What `Read` leaves: its error, or the envelope read.
pub data ReadEnvelope : Type 0 where
  envelope_read : Envelope → ReadEnvelope
  read_failed : GoError → ReadEnvelope

-- What a call of `Unmarshal` did: its error, the message it stored, the envelope it saved in
-- `last`, and the stats it stored.
pub record Received (M : Type 0) : Type 0 where
  pub err : Option GoError
  pub message : Option M
  pub last : Option Envelope
  pub stats : Option Stats

abbrev pub failed : {M : Type 0} → GoError → Received M
failed e = record { err = some e; message = none; last = none; stats = none }

-- `discard` reads at most four MiB.
abbrev pub discard_limit : ℕ
discard_limit = 1024 * 1024 * 4

abbrev pub is_message : ℕ → Bool
is_message flags = flags == 0 || flags == flag_compressed

module _ {M : Type 0} where
  abbrev pub moved : Reader M → Chunk → Reader M
  moved r c = record r { stream = c.rest; bytes_read = r.bytes_read + length c.got }

  -- `wrapIfMaxBytesError`, `wrapIfContextDone`, and the code for what has none.
  abbrev pub read_error : Reader M → Text → Code → Text → GoError → GoError
  read_error r reading c what e =
      coded_or c what (wrap_if_context_done r.ctx (wrap_if_max_bytes_error reading e))

  unfoldable pub prefix_error : Reader M → GoError → GoError
  prefix_error r e =
      if is eof e
      then with_cause (new_error unknown (text_of e)) e
      else read_error r (codes "read 5 byte message prefix") invalid_argument
          (codes "protocol error: incomplete envelope") e

  unfoldable pub body_error : Reader M → ℕ → ℕ → GoError → GoError
  body_error r size got e =
      if is eof e
      then new_error invalid_argument (
          codes "protocol error: promised "
          ++ (decimal size
              ++ (codes " bytes in enveloped message, got " ++ (decimal got ++ codes " bytes"))))
      else read_error r (codes "read " ++ (decimal size ++ codes " byte message")) unknown
          (codes "read enveloped message") e

  abbrev pub oversized : Reader M → ℕ → Option GoError → GoError
  oversized r size none = too_large size r.read_max_bytes
  oversized r size (some e) =
      if is eof e then too_large size r.read_max_bytes else too_large_unknown r.read_max_bytes e

  abbrev pub finish_body : Reader M → ℕ → ℕ → Chunk → ReadEnvelope × Reader M
  finish_body r flags size c = elim c.err [
    | none ↦ (envelope_read (new_envelope c.got flags), moved r c)
    | some e ↦ (read_failed (body_error r size (length c.got) e), moved r c)
  ]

  unfoldable pub read_body : Reader M → ℕ → ℕ → ReadEnvelope × Reader M
  read_body r flags size =
      let c = copy_n size r.stream in
      if ltb 0 r.read_max_bytes && ltb r.read_max_bytes size
      then (read_failed (oversized r size c.err), moved r c)
      else finish_body r flags size c

  -- The five bytes of a prefix that was read in full.
  abbrev pub read_prefixed : Reader M → Text → ReadEnvelope × Reader M
  read_prefixed r [] = read_body r 0 0
  read_prefixed r (flags ∷ size) = read_body r flags (get_uint32 size)

  abbrev pub finish_prefix : Reader M → Chunk → ReadEnvelope × Reader M
  finish_prefix r c = elim c.err [
    | none ↦ read_prefixed (moved r c) c.got
    | some e ↦ (read_failed (prefix_error r e), moved r c)
  ]

  -- `envelopeReader.Read`
  unfoldable pub read : Reader M → ReadEnvelope × Reader M
  read r = finish_prefix r (read_full 5 r.stream)

  abbrev pub stats_of : Reader M → ℕ → ℕ → Option Stats
  stats_of r size compressed_size =
      if r.keeps_stats
      then some (record { size = size; compressed_size = compressed_size })
      else none

  unfoldable pub discard : Reader M → Option GoError × ℕ × Reader M
  discard r =
      let c = copy_all (limit_reader discard_limit r.stream) in
      (
        c.err,
        length c.got,
        record r {
          stream = after_limit discard_limit r.stream;
          bytes_read = r.bytes_read + length c.got;
        },
      )

  abbrev pub after_discard : Envelope → Option GoError × ℕ → Received M
  after_discard env (some e, n) = failed (
      coded_or internal (codes "corrupt response: I/O error after end-stream message")
        (wrap_if_context_error e))
  after_discard env (none, n) =
      if ltb 0 n
      then failed (
          new_error internal
            (codes "corrupt response: " ++ (decimal n ++ codes " extra bytes after end of stream")))
      else record { err = some special_envelope; message = none; last = some env; stats = none }

  -- An envelope with flags of the protocol ends the stream.
  unfoldable pub end_of_stream : Reader M → Envelope → Received M × Reader M
  end_of_stream r env = let (e, n, r') = discard r in (after_discard env (e, n), r')

  abbrev pub unmarshaled : Option Stats → Try M → Received M
  unmarshaled stats (ok m) = record { err = none; message = some m; last = none; stats = stats }
  unmarshaled stats (fail e) = failed (caused invalid_argument (codes "unmarshal message") e)

  abbrev pub handle : Reader M → ℕ → ℕ → Try Text → Received M × Reader M
  handle r flags packed (fail e) = (failed e, r)
  handle r flags packed (ok contents) =
      if not (is_message flags)
      then end_of_stream r (new_envelope contents flags)
      else (unmarshaled (stats_of r (length contents) packed) (r.unmarshal contents), r)

  abbrev pub unpack : Reader M → Envelope → Option Compressor → Received M × Reader M
  unpack r env none =
      if is_set env.flags flag_compressed
      then (
        failed (
            new_error internal
              (codes "protocol error: sent compressed message without compression support")),
        r,
      )
      else if is_message env.flags && length env.contents == 0
      then (record { err = none; message = none; last = none; stats = stats_of r 0 0 }, r)
      else handle r env.flags 0 (ok env.contents)
  unpack r env (some c) =
      if is_message env.flags && length env.contents == 0
      then (record { err = none; message = none; last = none; stats = stats_of r 0 0 }, r)
      else if ltb 0 (length env.contents) && is_set env.flags flag_compressed
      then handle r env.flags (length env.contents) (decompress c env.contents r.read_max_bytes)
      else handle r env.flags 0 (ok env.contents)

  abbrev pub unmarshal_read : ReadEnvelope × Reader M → Received M × Reader M
  unmarshal_read (read_failed e, r) = (failed e, r)
  unmarshal_read (envelope_read env, r) = unpack r env r.pool

  -- `envelopeReader.Unmarshal`
  unfoldable pub unmarshal : Reader M → Received M × Reader M
  unmarshal r = unmarshal_read (read r)
