-- ===== src/Unary/RoundTrip.antt =====
-- The message of a unary call as its receiver reads it.
use connect_go.Base.{
  ℕ, ◌+◌, ◌≡◌, ◌≢◌, ◌<◌, inl, inr, refl, ap, ◌∙◌, true, false, [], ◌∷◌, Option, none, some, Text,
  eq_text_refl, ltb, leb, arith, Bool-cases, if◌then◌else◌, if_false, length,
}
use connect_go.Compression.Limits.{decompress_lem}
use connect_go.Compression.{Compressor, compress, decompress, max_int64, read_limited, is_limited}
use connect_go.Errors.{GoError}
use connect_go.Headers.{Headers, get, set}
use connect_go.Messages.RoundTrip.{IsLossless, Within, compress-eq-ok}
use connect_go.Messages.{Stats}
use connect_go.Streams.{Try, ok, fail, Chunk, copy_all, limit_reader}
use connect_go.Trailers.RoundTrip.{get-set}
use connect_go.Unary.{
  UnaryWriter, UnarySent, UnaryReader, refusal, over, sent_body, compression_key, write_and_record,
  write_uncompressed, write_compressed, write_marshaled, marshal_unary, unmarshal_unary, after_read,
  unpack_bytes, unmarshal_bytes,
}

-- The compressor that a Content-Encoding names, of a receiver that knows the one of the sender.
abbrev pub named_pool : Option Compressor → Text → Option Compressor
named_pool pool [] = none
named_pool pool (c ∷ cs) = pool

-- The two forms in which a message is sent as a body, with their headers.
data Form {M : Type 0} (w : UnaryWriter M) (bytes body : Text) (header : Headers) : Type 0 where
  plain : body ≡ bytes → header ≡ w.header → Form w bytes body header
  packed :
      (c : Compressor)
      → w.pool ≡ some c
      → c.deflate bytes ≡ (body, none)
      → header ≡ set compression_key w.compression_name w.header
      → Form w bytes body header

module _ {M : Type 0} (w : UnaryWriter M) (body : Text) (header : Headers)
    (stats : Option Stats) where
  abbrev pub posted : UnarySent
  posted = record { query = none; body = some body; header = header; stats = stats; err = none }

  refusal_ne : (h : Headers) (e : GoError) → refusal h e ≢ posted
  refusal_ne h e = λ q. cc

  sent_body-posted :
      (h : Headers) (bytes : Text) (st : Option Stats) (r : Option GoError)
      → sent_body h bytes st r ≡ posted
      → (body ≡ bytes) × (header ≡ h)
  sent_body-posted h bytes st none q = (ground arith, ground arith)
  sent_body-posted h bytes st (some e) q = absurd (no q)
    where
      no : sent_body h bytes st (some e) ≢ posted
      no = λ k. cc

  uncompressed-posted :
      (bytes : Text) → write_uncompressed w bytes ≡ posted → (body ≡ bytes) × (header ≡ w.header)
  unfolding write_uncompressed write_and_record
  uncompressed-posted bytes h = elim (Bool-cases (over w.send_max_bytes (length bytes))) [
    | inl big ↦ absurd (refusal_ne _ _ (rw big at h))
    | inr small ↦ sent_body-posted _ bytes _ _ (rw small at h)
  ]

  compressed-posted :
      (c : Compressor) (bytes : Text) (r : Try Text)
      → w.pool ≡ some c
      → compress c bytes ≡ r
      → write_compressed w (length bytes) r ≡ posted
      → Form w bytes body header
  unfolding write_compressed write_and_record
  compressed-posted c bytes (fail e) p q h = absurd (refusal_ne _ e h)
  compressed-posted c bytes (ok z) p q h = elim (Bool-cases (over w.send_max_bytes (length z))) [
    | inl big ↦ absurd (refusal_ne _ _ (rw big at h))
    | inr small ↦
        let same = sent_body-posted _ z _ _ (rw small at h) in
        packed c p (rw same.0 (compress-eq-ok c bytes z q)) same.1
  ]

  marshaled-posted :
      (bytes : Text) (pool : Option Compressor)
      → w.pool ≡ pool
      → write_marshaled w pool (ok bytes) ≡ posted
      → Form w bytes body header
  unfolding write_marshaled
  marshaled-posted bytes none p h = let same = uncompressed-posted bytes h in plain same.0 same.1
  marshaled-posted bytes (some c) p h =
      elim (Bool-cases (ltb (length bytes) w.compress_min_bytes)) [
        | inl small ↦ let same = uncompressed-posted bytes (rw small at h) in plain same.0 same.1
        | inr large ↦ compressed-posted c bytes (compress c bytes) p refl (rw large at h)
      ]

-- A whole body that is within the limit is read whole.
read_limited-whole :
    (max : ℕ) (bytes : Text)
    → Within max (length bytes)
    → read_limited max (record { bytes = bytes; fault = none })
      ≡ record { got = bytes; err = none; rest = record { bytes = []; fault = none } }
unfolding copy_all limit_reader
read_limited-whole max bytes h = elim (Bool-cases (is_limited max)) [
  | inl l ↦ let short : leb (max + 1) (length bytes) ≡ false = ground arith in rw (l, short) refl
  | inr u ↦ rw u refl
]

named_pool-nonempty :
    (pool : Option Compressor) (s : Text) → 0 < length s → named_pool pool s ≡ pool
named_pool-nonempty pool [] h = absurd (omega arith)
named_pool-nonempty pool (c ∷ cs) h = refl

module _ {M : Type 0} (r : UnaryReader M) (m : M) (bytes : Text)
    (u : r.unmarshal bytes ≡ ok m) where
  -- The stats of a message that was read.
  abbrev kept : ℕ → Option Stats
  kept from =
      if r.keeps_stats then some (record { size = length bytes; compressed_size = from }) else none

  finish_bytes : (from : ℕ) → unmarshal_bytes r from (ok bytes) ≡ ok (m, kept from)
  finish_bytes from = rw u refl

  unpack_plain : (o : Option Compressor) → o ≡ none → unpack_bytes r o bytes ≡ ok (m, kept 0)
  unpack_plain o h = rw h (finish_bytes 0)

  unpack_packed :
      (o : Option Compressor) (c : Compressor) (z : Text)
      → o ≡ some c
      → 0 < length z
      → decompress c z r.read_max_bytes ≡ ok bytes
      → unpack_bytes r o z ≡ ok (m, kept (length z))
  unpack_packed o c z h pos d =
      let some_bytes : ltb 0 (length z) ≡ true = ground arith in
      rw (h, some_bytes, d) (finish_bytes (length z))

  unpack-Form :
      (w : UnaryWriter M) (body : Text) (header : Headers)
      → Form w bytes body header
      → get compression_key w.header ≡ []
      → 0 < length w.compression_name
      → r.pool ≡ named_pool w.pool (get compression_key header)
      → ((c : Compressor) → w.pool ≡ some c → IsLossless c)
      → ((c : Compressor) (x z : Text) → w.pool ≡ some c → c.deflate x ≡ (z, none) → 0 < length z)
      → length bytes < max_int64
      → Within r.read_max_bytes (length bytes)
      → (stats : Option Stats) × (unpack_bytes r r.pool body ≡ ok (m, stats))
  unpack-Form w body header (plain e f) clean name same lossless some_bytes k within =
      (kept 0, rw e (unpack_plain r.pool (rw (f, clean) at same)))
  unpack-Form w body header (packed c p q f) clean name same lossless some_bytes k within =
      let named : get compression_key header ≡ w.compression_name = rw f (
        get-set compression_key compression_key w.compression_name w.header
        ∙ rw (eq_text_refl compression_key) refl) in
      let pool : r.pool ≡ some c =
        same
        ∙ ap (named_pool w.pool) named
        ∙ named_pool-nonempty w.pool w.compression_name name
        ∙ p in
      let l = lossless c p in
      (
        kept (length body),
        unpack_packed r.pool c body pool (some_bytes c bytes body p q) (
            decompress_lem c body bytes r.read_max_bytes (l.opens bytes body q)
              (l.inverts bytes body q) k
            ∙ rw within refl),
      )

unmarshal_unary-whole :
    {M : Type 0} (r : UnaryReader M) (body : Text) (result : Try (M × Option Stats))
    → r.already_read ≡ false
    → r.stream ≡ record { bytes = body; fault = none }
    → Within r.read_max_bytes (length body)
    → unpack_bytes r r.pool body ≡ result
    → (unmarshal_unary r).0 ≡ result
unfolding unmarshal_unary after_read
unmarshal_unary-whole {M} r body result fresh wire small h =
    ap (λ (p : Try (M × Option Stats) × UnaryReader M). p.0) (if_false r.already_read _ _ fresh)
    ∙ ap (λ (c : Chunk). after_read r c.got c.err)
        (ap (read_limited r.read_max_bytes) wire ∙ read_limited-whole r.read_max_bytes body small)
    ∙ if_false (over r.read_max_bytes (length body)) _ _ small
    ∙ h

-- The body that a unary marshaler writes for a message, its receiver reads as that message, if it has
-- the compressor that the header names, if any, and if body and message are within its limit. The
-- codec reads back what it wrote; the compressor opens and reads back what it wrote, and never writes
-- nothing, as gzip, whose output has a header.
pub unmarshal_unary-marshal_unary :
    {M : Type 0} (w : UnaryWriter M) (r : UnaryReader M) (m : M) (bytes body : Text)
    (header : Headers) (stats : Option Stats)
    → w.marshal m ≡ ok bytes
    → r.unmarshal bytes ≡ ok m
    → marshal_unary w (some m) ≡ posted w body header stats
    → get compression_key w.header ≡ []
    → 0 < length w.compression_name
    → r.pool ≡ named_pool w.pool (get compression_key header)
    → ((c : Compressor) → w.pool ≡ some c → IsLossless c)
    → ((c : Compressor) (x z : Text) → w.pool ≡ some c → c.deflate x ≡ (z, none) → 0 < length z)
    → r.already_read ≡ false
    → r.stream ≡ record { bytes = body; fault = none }
    → Within r.read_max_bytes (length body)
    → length bytes < max_int64
    → Within r.read_max_bytes (length bytes)
    → (stats' : Option Stats) × ((unmarshal_unary r).0 ≡ ok (m, stats'))
unfolding marshal_unary unmarshal_unary after_read
unmarshal_unary-marshal_unary w r m bytes body header stats written reads sent clean name same
      lossless some_bytes fresh wire small k within =
    let form = marshaled-posted w body header stats bytes w.pool refl (rw written at sent) in
    let (st, q) =
      unpack-Form r m bytes reads w body header form clean name same lossless some_bytes k within in
    (st, unmarshal_unary-whole r body (ok (m, st)) fresh wire small q)
