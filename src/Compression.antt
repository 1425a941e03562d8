-- ===== src/Compression.antt =====
-- connecthttp/compression.go: `compressionPool` over a `connect.Compressor`, which is a parameter,
-- and the named pools; and `negotiateCompression` of connecthttp/protocol.go.
--
-- A limit of 0 stands for any that is not positive: the code asks only whether it is positive.
pub mod Limits
pub mod Registry
pub mod Negotiation
use connect_go.Base.{
  ℕ, ◌+◌, ◌-◌, ◌^◌, Bool, true, false, ◌&&◌, ◌||◌, not, List, [], ◌∷◌, ◌++◌, Option, none, some,
  Text, codes, eq_text, ltb, leb, ◌==◌, if◌then◌else◌, length,
}
use connect_go.Base.Decimal.{decimal}
use connect_go.Codes.{Code, unknown, internal, invalid_argument, resource_exhausted, unimplemented}
use connect_go.Errors.{GoError, new_error, text_of, as_error, with_cause}
use connect_go.Errors.Wrap.{wrap_if_context_error}
use connect_go.Streams.{Try, ok, fail, Stream, Chunk, copy_all, limit_reader, after_limit}

-- `connect.Compressor`: what opening a writer or a reader returns, the bytes that reach the
-- destination of a closed writer with the error of writing, and the reader of the decompressed form.
pub record Compressor : Type 0 where
  pub name : Text
  pub open_writer : Option GoError
  pub deflate : Text → Text × Option GoError
  pub open_reader : Text → Option GoError
  pub inflate : Text → Stream

-- `connect.Errorf(code, "what: %s", err).WithCause(err)`
abbrev pub caused : Code → Text → GoError → GoError
caused c what e = with_cause (new_error c (what ++ (codes ": " ++ text_of e))) e

-- An error that `asError` finds is returned as it is; any other gets the code and the text.
abbrev pub found_or : Code → Text → GoError → Option GoError → GoError
found_or c what e none = caused c what e
found_or c what e (some found) = found

abbrev pub coded_or : Code → Text → GoError → GoError
coded_or c what e = found_or c what e (as_error e)

abbrev pub compressed : Text × Option GoError → Try Text
compressed (out, none) = ok out
compressed (out, some e) = fail (coded_or internal (codes "compress") (wrap_if_context_error e))

-- `compressionPool.Compress`: the bytes in `dst`.
unfoldable pub compress : Compressor → Text → Try Text
compress c src = elim c.open_writer [
  | none ↦ compressed (c.deflate src)
  | some e ↦ fail (caused unknown (codes "get compressor") e)
]

abbrev pub max_int64 : ℕ
max_int64 = 2 ^ 63 - 1

unfoldable pub too_large : ℕ → ℕ → GoError
too_large size max = new_error resource_exhausted (
    codes "message size "
    ++ (decimal size ++ (codes " is larger than configured max " ++ decimal max)))

unfoldable pub too_large_unknown : ℕ → GoError → GoError
too_large_unknown max e =
    caused resource_exhausted
      (codes "message is larger than configured max "
        ++ (decimal max ++ codes " - unable to determine message size"))
      e

-- Reading on to the end, to tell the size of a message that is too large.
abbrev pub report_size : ℕ → ℕ → Chunk → GoError
report_size read max c = elim c.err [
  | none ↦ too_large (read + length c.got) max
  | some e ↦ too_large_unknown max e
]

abbrev pub is_limited : ℕ → Bool
is_limited max = ltb 0 max && ltb max max_int64

abbrev pub check_size : ℕ → Stream → Text → Option GoError → Try Text
check_size max rest got (some e) =
    fail (coded_or invalid_argument (codes "decompress") (wrap_if_context_error e))
check_size max rest got none =
    if ltb 0 max && ltb max (length got)
    then fail (report_size (length got) max (copy_all rest))
    else ok got

abbrev pub read_limited : ℕ → Stream → Chunk
read_limited max s = copy_all (if is_limited max then limit_reader (max + 1) s else s)

abbrev pub left_over : ℕ → Stream → Stream
left_over max s = if is_limited max then after_limit (max + 1) s else (copy_all s).rest

unfoldable pub decompress_stream : ℕ → Stream → Try Text
decompress_stream max s = let c = read_limited max s in check_size max (left_over max s) c.got c.err

-- `compressionPool.Decompress`: the bytes in `dst`.
unfoldable pub decompress : Compressor → Text → ℕ → Try Text
unfolding decompress_stream
decompress c src max = elim (c.open_reader src) [
  | none ↦ decompress_stream max (c.inflate src)
  | some e ↦ fail (caused invalid_argument (codes "get decompressor") e)
]

abbrev pub identity : Text
identity = codes "identity"

-- `namedCompressionPools`
pub record Pools : Type 0 where
  pub by_name : List (Text × Compressor)
  pub comma_separated_names : Text

unfoldable pub lookup_pool : Text → List (Text × Compressor) → Option Compressor
lookup_pool name [] = none
lookup_pool name ((n, c) ∷ ps) = if eq_text n name then some c else lookup_pool name ps

abbrev pub is_some : Option Compressor → Bool
is_some none = false
is_some (some _) = true

-- `Get` and `Contains`
unfoldable pub get : Pools → Text → Option Compressor
get p name = if length name == 0 || eq_text name identity then none else lookup_pool name p.by_name

unfoldable pub contains : Pools → Text → Bool
contains p name = is_some (lookup_pool name p.by_name)

-- The loop of `newReadOnlyCompressionPools`, over the names and pools kept so far.
unfoldable pub collect : List (Text × Compressor) → List Compressor → List (Text × Compressor)
collect kept [] = kept
collect kept (c ∷ cs) =
    collect (if is_some (lookup_pool c.name kept) then kept else kept ++ (c.name, c) ∷ []) cs

unfoldable pub join : Text → List (Text × Compressor) → Text
join sep [] = []
join sep ((n, c) ∷ []) = n
join sep ((n, c) ∷ p ∷ ps) = n ++ (sep ++ join sep (p ∷ ps))

-- `newReadOnlyCompressionPools`
unfoldable pub new_pools : List Compressor → Pools
unfolding collect
new_pools cs = record {
  by_name = collect [] cs;
  comma_separated_names = join (codes ",") (collect [] cs);
}

-- `strings.FieldsFuncSeq(accept, isCommaOrSpace)`, with the field read so far.
abbrev pub is_comma_or_space : ℕ → Bool
is_comma_or_space c = c == b',' || c == b' '

abbrev pub end_field : Text → List Text → List Text
end_field [] rest = rest
end_field (c ∷ cs) rest = (c ∷ cs) ∷ rest

unfoldable pub fields : Text → Text → List Text
fields current [] = end_field current []
fields current (c ∷ cs) =
    let next = end_field current (fields [] cs) in
    let longer = fields (current ++ c ∷ []) cs in if is_comma_or_space c then next else longer

-- The loop over the accepted names: the first one that is available.
unfoldable pub first_available : Pools → Text → List Text → Text
first_available p otherwise [] = otherwise
first_available p otherwise (name ∷ names) =
    if contains p name then name else first_available p otherwise names

pub data Negotiated : Type 0 where
  agreed : Text → Text → Negotiated
  refused : GoError → Negotiated

unfoldable pub response_compression : Pools → Text → Text → Text
response_compression p request accept =
    if eq_text request identity && not (length accept == 0)
    then first_available p request (fields [] accept)
    else request

unfoldable pub unknown_compression : (Text → Text) → Pools → Text → GoError
unknown_compression quote p sent = new_error unimplemented (
    codes "unknown compression "
    ++ (quote sent ++ (codes ": supported encodings are " ++ p.comma_separated_names)))

-- `negotiateCompression`; `quote` is the verb %q of fmt.
unfoldable pub negotiate : (Text → Text) → Pools → Text → Text → Negotiated
unfolding response_compression
negotiate quote p sent accept =
    if not (length sent == 0) && not (eq_text sent identity)
    then (if contains p sent
        then agreed sent (response_compression p sent accept)
        else refused (unknown_compression quote p sent))
    else agreed identity (response_compression p identity accept)
