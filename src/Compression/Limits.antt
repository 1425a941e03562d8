-- ===== src/Compression/Limits.antt =====
-- The size limit of `compressionPool.Decompress`.
use connect_go.Base.{
  ℕ, ◌+◌, ◌≤◌, ◌<◌, ◌≡◌, refl, true, false, ◌&&◌, none, Text, arith, ltb, leb, if◌then◌else◌,
  length, take, drop, Bool-cases, inl, inr, length-take, length-drop,
}
use connect_go.Streams.{ok, fail, copy_all, limit_reader, after_limit}
use connect_go.Compression.{
  Compressor, too_large, max_int64, is_limited, decompress_stream, decompress,
}

unlimited_case :
    (max : ℕ) (bytes : Text)
    → is_limited max ≡ false
    → length bytes < max_int64
    → decompress_stream max (record { bytes = bytes; fault = none }) ≡ ok bytes
unfolding decompress_stream copy_all
unlimited_case max bytes u h =
    let within : ltb 0 max && ltb max (length bytes) ≡ false = ground arith in rw (u, within) refl

within_case :
    (max : ℕ) (bytes : Text)
    → is_limited max ≡ true
    → length bytes ≤ max
    → decompress_stream max (record { bytes = bytes; fault = none }) ≡ ok bytes
unfolding decompress_stream copy_all limit_reader
within_case max bytes l h =
    let short : leb (max + 1) (length bytes) ≡ false = ground arith in
    let within : ltb 0 max && ltb max (length bytes) ≡ false = ground arith in
    rw (l, short, within) refl

beyond_case :
    (max : ℕ) (bytes : Text)
    → is_limited max ≡ true
    → max < length bytes
    → decompress_stream max (record { bytes = bytes; fault = none })
      ≡ fail (too_large (length bytes) max)
unfolding decompress_stream copy_all limit_reader after_limit
beyond_case max bytes l h =
    let long : leb (max + 1) (length bytes) ≡ true = ground arith in
    let got : length (take (max + 1) bytes) ≡ max + 1 =
      omega (arith, length-take (max + 1) bytes) in
    let beyond : ltb 0 max && ltb max (max + 1) ≡ true = ground arith in
    let size : max + 1 + length (drop (max + 1) bytes) ≡ length bytes =
      omega (arith, length-drop (max + 1) bytes) in
    rw (l, long, got, beyond, size) refl

decompress_stream_lem :
    (max : ℕ) (bytes : Text)
    → length bytes < max_int64
    → decompress_stream max (record { bytes = bytes; fault = none }) ≡ (
        if ltb 0 max && ltb max (length bytes)
        then fail (too_large (length bytes) max)
        else ok bytes)
decompress_stream_lem max bytes h = elim (Bool-cases (is_limited max)) [
  | inr u ↦
      let within : ltb 0 max && ltb max (length bytes) ≡ false = ground arith in
      rw within (unlimited_case max bytes u h)
  | inl l ↦ elim (Bool-cases (ltb max (length bytes))) [
    | inl long ↦
        let beyond : ltb 0 max && ltb max (length bytes) ≡ true = ground arith in
        rw beyond (beyond_case max bytes l (ground arith))
    | inr short ↦
        let within : ltb 0 max && ltb max (length bytes) ≡ false = ground arith in
        rw within (within_case max bytes l (ground arith))
  ]
]

-- A payload that decompresses without an error to `bytes` comes back whole if there is no limit or
-- it is within it. Otherwise it is refused, with a message that gives its full decompressed size,
-- also when the limit is the largest int64.
pub decompress_lem :
    (c : Compressor) (src bytes : Text) (max : ℕ)
    → c.open_reader src ≡ none
    → c.inflate src ≡ record { bytes = bytes; fault = none }
    → length bytes < max_int64
    → decompress c src max ≡ (
        if ltb 0 max && ltb max (length bytes)
        then fail (too_large (length bytes) max)
        else ok bytes)
unfolding decompress
decompress_lem c src bytes max opened yields h =
    rw (opened, yields, decompress) (decompress_stream_lem max bytes h)
