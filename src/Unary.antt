-- ===== src/Unary.antt =====
-- connecthttp/protocol_connect.go: the messages of a unary call in the Connect protocol, which are not
-- framed: `connectUnaryMarshaler` and `connectUnaryUnmarshaler`.
--
-- The codec, the compressor and the sender are parameters. A limit of 0 stands for any that is not
-- positive.
pub mod Get
pub mod RoundTrip
pub mod Limits
pub mod Query
pub mod Params
pub mod GetRoundTrip
use connect_go.Base.{
  ℕ, ◌+◌, Bool, true, false, ◌&&◌, ◌||◌, not, List, [], ◌∷◌, ◌++◌, Option, none, some, Text, codes,
  ltb, leb, ◌==◌, if◌then◌else◌, length,
}
use connect_go.Base.Decimal.{decimal}
use connect_go.Codes.{Code, unknown, internal, invalid_argument, resource_exhausted}
use connect_go.Compression.{
  Compressor, compress, decompress, caused, coded_or, read_limited, left_over, report_size,
}
use connect_go.Errors.Wrap.{
  Context, recoded, wrap_if_context_error, wrap_if_context_done, wrap_if_max_bytes_error,
}
use connect_go.Errors.{GoError, io_eof, new_error}
use connect_go.Headers.{Headers, set}
use connect_go.Messages.{Stats, exceeds}
use connect_go.Streams.{Try, ok, fail, Stream, Chunk, copy_all}

-- `connectUnaryHeaderCompression`
abbrev pub compression_key : Text
compression_key = codes "Content-Encoding"

-- `connectUnaryMarshaler`, with the send of its `messageSender`.
pub record UnaryWriter (M : Type 0) : Type 0 where
  pub send : Text → Option GoError
  pub marshal : M → Try Text
  pub compress_min_bytes : ℕ
  pub compression_name : Text
  pub pool : Option Compressor
  pub header : Headers
  pub send_max_bytes : ℕ
  pub keeps_stats : Bool  -- `stats` is not nil

-- What a marshaler did: the query of the URL that it set for a GET request, the body that it handed
-- to the sender, the header as it left it, the stats that it stored, and its error.
pub record UnarySent : Type 0 where
  pub query : Option Text
  pub body : Option Text
  pub header : Headers
  pub stats : Option Stats
  pub err : Option GoError

abbrev pub refusal : Headers → GoError → UnarySent
refusal header e = record { query = none; body = none; header = header; stats = none; err = some e }

-- A size above the limit, if there is one.
abbrev pub over : ℕ → ℕ → Bool
over max size = ltb 0 max && ltb max size

abbrev pub sent_body : Headers → Text → Option Stats → Option GoError → UnarySent
sent_body header bytes stats none = record {
  query = none;
  body = some bytes;
  header = header;
  stats = stats;
  err = none;
}
sent_body header bytes stats (some e) = record {
  query = none;
  body = some bytes;
  header = header;
  stats = none;
  err = some (coded_or unknown (codes "write message") (wrap_if_context_error e));
}

module _ {M : Type 0} where
  -- `recordStats`
  abbrev pub recorded : UnaryWriter M → ℕ → ℕ → Option Stats
  recorded w size compressed_size =
      if w.keeps_stats
      then some (record { size = size; compressed_size = compressed_size })
      else none

  -- `write`, and the stats that are recorded if it succeeds: `writeAndRecord`.
  unfoldable pub write_and_record : UnaryWriter M → Headers → Text → Option Stats → UnarySent
  write_and_record w header bytes stats = sent_body header bytes stats (w.send bytes)

  unfoldable pub write_uncompressed : UnaryWriter M → Text → UnarySent
  write_uncompressed w bytes =
      if over w.send_max_bytes (length bytes)
      then refusal w.header (exceeds (codes "message size ") (length bytes) w.send_max_bytes)
      else write_and_record w w.header bytes (recorded w (length bytes) 0)

  unfoldable pub write_compressed : UnaryWriter M → ℕ → Try Text → UnarySent
  write_compressed w size (fail e) = refusal w.header e
  write_compressed w size (ok packed) =
      if over w.send_max_bytes (length packed)
      then refusal w.header
          (exceeds (codes "compressed message size ") (length packed) w.send_max_bytes)
      else write_and_record w (set compression_key w.compression_name w.header) packed
          (recorded w size (length packed))

  unfoldable pub write_marshaled : UnaryWriter M → Option Compressor → Try Text → UnarySent
  write_marshaled w pool (fail e) = refusal w.header (caused internal (codes "marshal message") e)
  write_marshaled w none (ok bytes) = write_uncompressed w bytes
  write_marshaled w (some c) (ok bytes) =
      if ltb (length bytes) w.compress_min_bytes
      then write_uncompressed w bytes
      else write_compressed w (length bytes) (compress c bytes)

  -- `connectUnaryMarshaler.Marshal`; `none` is a nil message.
  unfoldable pub marshal_unary : UnaryWriter M → Option M → UnarySent
  marshal_unary w none = write_and_record w w.header [] none
  marshal_unary w (some m) = write_marshaled w w.pool (w.marshal m)

-- `connectUnaryUnmarshaler`
pub record UnaryReader (M : Type 0) : Type 0 where
  pub ctx : Context
  pub stream : Stream
  pub unmarshal : Text → Try M
  pub pool : Option Compressor
  pub already_read : Bool
  pub read_max_bytes : ℕ
  pub keeps_stats : Bool  -- `stats` is not nil

module _ {M : Type 0} where
  abbrev pub finish_unmarshal : UnaryReader M → ℕ → ℕ → Try M → Try (M × Option Stats)
  finish_unmarshal r size packed (fail e) =
      fail (caused invalid_argument (codes "unmarshal message") e)
  finish_unmarshal r size packed (ok m) =
      ok
        (m, if r.keeps_stats then some (record { size = size; compressed_size = packed }) else none)

  abbrev pub unmarshal_bytes : UnaryReader M → ℕ → Try Text → Try (M × Option Stats)
  unmarshal_bytes r packed (fail e) = fail e
  unmarshal_bytes r packed (ok bytes) = finish_unmarshal r (length bytes) packed (r.unmarshal bytes)

  abbrev pub unpack_bytes : UnaryReader M → Option Compressor → Text → Try (M × Option Stats)
  unpack_bytes r none bytes = unmarshal_bytes r 0 (ok bytes)
  unpack_bytes r (some c) bytes =
      if ltb 0 (length bytes)
      then unmarshal_bytes r (length bytes) (decompress c bytes r.read_max_bytes)
      else unmarshal_bytes r 0 (ok bytes)

  abbrev pub unary_read_error : UnaryReader M → ℕ → GoError → GoError
  unary_read_error r got e = coded_or unknown (codes "read message") (
      wrap_if_context_done r.ctx (
        wrap_if_max_bytes_error (codes "read first " ++ (decimal got ++ codes " bytes of message"))
          e))

  unfoldable pub after_read : UnaryReader M → Text → Option GoError → Try (M × Option Stats)
  after_read r got (some e) = fail (unary_read_error r (length got) e)
  after_read r got none =
      if over r.read_max_bytes (length got)
      then fail (
          report_size (length got) r.read_max_bytes
            (copy_all (left_over r.read_max_bytes r.stream)))
      else unpack_bytes r r.pool got

  -- `connectUnaryUnmarshaler.UnmarshalFunc`: the message with the stats, and the unmarshaler.
  unfoldable pub unmarshal_unary : UnaryReader M → Try (M × Option Stats) × UnaryReader M
  unmarshal_unary r =
      let c = read_limited r.read_max_bytes r.stream in
      if r.already_read
      then (fail (recoded internal io_eof), r)
      else (after_read r c.got c.err, record r { already_read = true; stream = c.rest })
