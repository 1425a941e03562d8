-- ===== src/Unary/Get.antt =====
-- connecthttp/protocol_connect.go: `connectUnaryRequestMarshaler`, which may send a request as a GET.
--
-- `url.QueryEscape`, URL-safe base64 and `URL.String` are parameters. The URL of the call without its
-- query does not change and is part of `url_string`.
use connect_go.Base.{
  ℕ, Bool, true, false, ◌&&◌, ◌||◌, not, [], ◌++◌, Option, none, some, Text, codes, if◌then◌else◌,
  length,
}
use connect_go.Base.Decimal.{decimal}
use connect_go.Codes.{internal, resource_exhausted}
use connect_go.Compression.{Compressor, compress, caused}
use connect_go.Errors.{GoError, new_error}
use connect_go.Headers.{Headers, set, delete}
use connect_go.Messages.{Stats, exceeds}
use connect_go.Streams.{Try, ok, fail}
use connect_go.Unary.{
  UnaryWriter, UnarySent, refusal, over, recorded, compression_key, write_and_record, marshal_unary,
}

-- `connect.StableCodec`
pub record StableCodec (M : Type 0) : Type 0 where
  pub is_binary : Bool
  pub marshal_stable : M → Try Text

-- `connectUnaryRequestMarshaler`
pub record RequestWriter (M : Type 0) : Type 0 where
  pub base : UnaryWriter M
  pub codec_name : Text
  pub enable_get : Bool
  pub get_url_max_bytes : ℕ
  pub get_use_fallback : Bool
  pub stable_codec : Option (StableCodec M)
  pub url_string : Text → Text
  pub query_escape : Text → Text
  pub base64_url : Text → Text

-- `appendQueryParam`
abbrev pub append_query_param : Text → Bool → Text → Text → Text
append_query_param query with_separator key escaped =
    query ++ ((if with_separator then codes "&" else []) ++ (key ++ (codes "=" ++ escaped)))

abbrev pub query_too_long : Text → ℕ → ℕ → Text → GoError
query_too_long what size max tail =
    new_error resource_exhausted
      (what ++ (decimal size ++ (codes " exceeds getURLMaxBytes " ++ (decimal max ++ tail))))

-- What `writeWithGet` removes from the header.
unfoldable pub header_for_get : Headers → Headers
header_for_get header = delete (codes "Content-Length") (
    delete (codes "Content-Encoding")
      (delete (codes "Content-Type") (delete (codes "Connect-Protocol-Version") header)))

-- `writeWithGet`, and the stats that are recorded with it.
unfoldable pub write_with_get : Headers → Text → Option Stats → UnarySent
write_with_get header query stats = record {
  query = some query;
  body = none;
  header = header_for_get header;
  stats = stats;
  err = none;
}

module _ {M : Type 0} where
  -- `buildGetURL`: the query of the URL.
  unfoldable pub build_get_url : RequestWriter M → StableCodec M → Text → Bool → Text
  build_get_url w codec bytes compressed =
      let binary = codec.is_binary || compressed in
      let q₀ = append_query_param [] false (codes "connect") (codes "v1") in
      let q₁ = if binary then append_query_param q₀ true (codes "base64") (codes "1") else q₀ in
      let q₂ =
        if compressed
        then append_query_param q₁ true (codes "compression")
            (w.query_escape w.base.compression_name)
        else q₁ in
      let q₃ = append_query_param q₂ true (codes "encoding") (w.query_escape w.codec_name) in
      append_query_param q₃ true (codes "message")
        (if binary then w.base64_url bytes else w.query_escape bytes)

  -- Whether a URL is short enough for a GET.
  abbrev pub url_fits : RequestWriter M → Text → Bool
  url_fits w query = not (over w.get_url_max_bytes (length (w.url_string query)))

  unfoldable pub get_compressed : RequestWriter M → StableCodec M → ℕ → Try Text → UnarySent
  get_compressed w codec size (fail e) = refusal w.base.header e
  get_compressed w codec size (ok packed) =
      let query = build_get_url w codec packed true in
      let stats = recorded w.base size (length packed) in
      if over w.base.send_max_bytes (length packed)
      then refusal w.base.header
          (exceeds (codes "compressed message size ") (length packed) w.base.send_max_bytes)
      else if url_fits w query
      then write_with_get w.base.header query stats
      else if w.get_use_fallback
      then write_and_record w.base (set compression_key w.base.compression_name w.base.header)
          packed stats
      else refusal w.base.header (
          query_too_long (codes "compressed url size ") (length (w.url_string query))
            w.get_url_max_bytes [])

  unfoldable pub get_plain : RequestWriter M → Text → Text → UnarySent
  get_plain w bytes query =
      if w.get_use_fallback
      then write_and_record w.base w.base.header bytes (recorded w.base (length bytes) 0)
      else refusal w.base.header (
          query_too_long (codes "url size ") (length (w.url_string query)) w.get_url_max_bytes
            (codes ": enabling request compression may help"))

  unfoldable pub get_marshaled :
      RequestWriter M → StableCodec M → Option Compressor → Try Text → UnarySent
  get_marshaled w codec pool (fail e) =
      refusal w.base.header (caused internal (codes "marshal message stable") e)
  get_marshaled w codec none (ok bytes) =
      let query = build_get_url w codec bytes false in
      if over w.base.send_max_bytes (length bytes)
      then refusal w.base.header (
          new_error resource_exhausted (
            codes "message size "
            ++ (decimal (length bytes)
                ++ (codes " exceeds sendMaxBytes "
                    ++ (decimal w.base.send_max_bytes
                        ++ codes ": enabling request compression may help")))))
      else if url_fits w query
      then write_with_get w.base.header query (recorded w.base (length bytes) 0)
      else get_plain w bytes query
  get_marshaled w codec (some c) (ok bytes) =
      let query = build_get_url w codec bytes false in
      if not (over w.base.send_max_bytes (length bytes)) && url_fits w query
      then write_with_get w.base.header query (recorded w.base (length bytes) 0)
      else get_compressed w codec (length bytes) (compress c bytes)

  abbrev pub stable_bytes : StableCodec M → Option M → Try Text
  stable_bytes codec none = ok []
  stable_bytes codec (some m) = codec.marshal_stable m

  -- `marshalWithGet`
  unfoldable pub marshal_with_get : RequestWriter M → StableCodec M → Option M → UnarySent
  marshal_with_get w codec message = get_marshaled w codec w.base.pool (stable_bytes codec message)

  abbrev pub marshal_enabled : RequestWriter M → Option M → Option (StableCodec M) → UnarySent
  marshal_enabled w message (some codec) = marshal_with_get w codec message
  marshal_enabled w message none =
      if w.get_use_fallback
      then marshal_unary w.base message
      else refusal w.base.header (
          new_error internal (
            codes "codec "
            ++ (w.codec_name ++ codes " doesn't support stable marshal; can't use get")))

  -- `connectUnaryRequestMarshaler.Marshal`
  unfoldable pub marshal_request : RequestWriter M → Option M → UnarySent
  marshal_request w message =
      if w.enable_get
      then marshal_enabled w message w.stable_codec
      else marshal_unary w.base message
