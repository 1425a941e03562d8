-- ===== src/Unary/Limits.antt =====
-- The limits that a unary request keeps, on whichever way it is sent.
use connect_go.Base.{
  ℕ, ◌≡◌, ◌≢◌, inl, inr, refl, Bool, true, false, ◌&&◌, not, [], Option, none, some, Text, ltb,
  arith, Bool-cases, if◌then◌else◌, length,
}
use connect_go.Compression.{Compressor, compress}
use connect_go.Errors.{GoError}
use connect_go.Headers.{Headers}
use connect_go.Messages.{Stats}
use connect_go.Streams.{Try, ok, fail}
use connect_go.Unary.Get.{
  StableCodec, RequestWriter, build_get_url, url_fits, get_compressed, get_plain, get_marshaled,
  marshal_with_get, marshal_enabled, marshal_request, stable_bytes, write_with_get,
}
use connect_go.Unary.{
  UnarySent, refusal, over, sent_body, write_and_record, write_uncompressed, write_compressed,
  write_marshaled, marshal_unary,
}

-- What a marshaler may have sent: nothing, with an error; a GET of bytes; or bytes as a body.
pub data Sends {M : Type 0} (w : RequestWriter M) (s : UnarySent) : Type 0 where
  nothing : s.query ≡ none → s.body ≡ none → s.err ≢ none → Sends w s
  asks :
      (codec : StableCodec M) (bytes : Text) (compressed : Bool)
      → w.stable_codec ≡ some codec
      → s.query ≡ some (build_get_url w codec bytes compressed)
      → s.body ≡ none
      → over w.base.send_max_bytes (length bytes) ≡ false
      → url_fits w (build_get_url w codec bytes compressed) ≡ true
      → Sends w s
  posts :
      (bytes : Text)
      → s.query ≡ none
      → s.body ≡ some bytes
      → over w.base.send_max_bytes (length bytes) ≡ false
      → Sends w s

some_ne_none : (e : GoError) → ◌≢◌ {A = Option GoError} (some e) none
some_ne_none e = λ h. cc

module _ {M : Type 0} (w : RequestWriter M) where
  refusal-Sends : (header : Headers) (e : GoError) → Sends w (refusal header e)
  refusal-Sends header e = nothing refl refl (some_ne_none e)

  written-Sends :
      (header : Headers) (bytes : Text) (stats : Option Stats)
      → over w.base.send_max_bytes (length bytes) ≡ false
      → Sends w (write_and_record w.base header bytes stats)
  unfolding write_and_record
  written-Sends header bytes stats h = by_result (w.base.send bytes)
    where
      by_result : (r : Option GoError) → Sends w (sent_body header bytes stats r)
      by_result none = posts bytes refl refl h
      by_result (some e) = posts bytes refl refl h

  -- A branch on the limit.
  limited :
      (n : ℕ) (a b : UnarySent)
      → Sends w a
      → (over w.base.send_max_bytes n ≡ false → Sends w b)
      → Sends w (if over w.base.send_max_bytes n then a else b)
  limited n a b p q = elim (Bool-cases (over w.base.send_max_bytes n)) [
    | inl e ↦ rw e p
    | inr e ↦ rw e (q e)
  ]

  branch :
      (c : Bool) (a b : UnarySent)
      → (c ≡ true → Sends w a)
      → (c ≡ false → Sends w b)
      → Sends w (if c then a else b)
  branch true a b p q = p refl
  branch false a b p q = q refl

  uncompressed-Sends : (bytes : Text) → Sends w (write_uncompressed w.base bytes)
  unfolding write_uncompressed
  uncompressed-Sends bytes =
      limited (length bytes) _ _ (refusal-Sends w.base.header _)
        (written-Sends w.base.header bytes _)

  compressed-Sends : (size : ℕ) (r : Try Text) → Sends w (write_compressed w.base size r)
  unfolding write_compressed
  compressed-Sends size (fail e) = refusal-Sends w.base.header e
  compressed-Sends size (ok packed) =
      limited (length packed) _ _ (refusal-Sends w.base.header _) (written-Sends _ packed _)

  marshaled-Sends :
      (pool : Option Compressor) (r : Try Text) → Sends w (write_marshaled w.base pool r)
  unfolding write_marshaled
  marshaled-Sends pool (fail e) = refusal-Sends w.base.header _
  marshaled-Sends none (ok bytes) = uncompressed-Sends bytes
  marshaled-Sends (some c) (ok bytes) =
      branch (ltb (length bytes) w.base.compress_min_bytes) _ _ (λ _. uncompressed-Sends bytes)
        (λ _. compressed-Sends (length bytes) (compress c bytes))

  unary-Sends : (message : Option M) → Sends w (marshal_unary w.base message)
  unfolding marshal_unary
  unary-Sends none = written-Sends w.base.header [] none (ground arith)
  unary-Sends (some m) = marshaled-Sends w.base.pool (w.base.marshal m)

  module _ (codec : StableCodec M) (known : w.stable_codec ≡ some codec) where
    asked-Sends :
        (bytes : Text) (compressed : Bool) (stats : Option Stats)
        → over w.base.send_max_bytes (length bytes) ≡ false
        → url_fits w (build_get_url w codec bytes compressed) ≡ true
        → Sends w (write_with_get w.base.header (build_get_url w codec bytes compressed) stats)
    unfolding write_with_get
    asked-Sends bytes compressed stats h k = asks codec bytes compressed known refl refl h k

    get_plain-Sends :
        (bytes query : Text)
        → over w.base.send_max_bytes (length bytes) ≡ false
        → Sends w (get_plain w bytes query)
    unfolding get_plain
    get_plain-Sends bytes query h =
        branch w.get_use_fallback _ _ (λ _. written-Sends w.base.header bytes _ h)
          (λ _. refusal-Sends w.base.header _)

    get_compressed-Sends : (size : ℕ) (r : Try Text) → Sends w (get_compressed w codec size r)
    unfolding get_compressed
    get_compressed-Sends size (fail e) = refusal-Sends w.base.header e
    get_compressed-Sends size (ok packed) =
        limited (length packed) _ _ (refusal-Sends w.base.header _) (λ h.
          branch (url_fits w (build_get_url w codec packed true)) _ _
            (λ k. asked-Sends packed true _ h k)
            (λ _.
              branch w.get_use_fallback _ _ (λ _. written-Sends _ packed _ h)
                (λ _. refusal-Sends w.base.header _)))

    get_marshaled-Sends :
        (pool : Option Compressor) (r : Try Text) → Sends w (get_marshaled w codec pool r)
    unfolding get_marshaled
    get_marshaled-Sends pool (fail e) = refusal-Sends w.base.header _
    get_marshaled-Sends none (ok bytes) =
        limited (length bytes) _ _ (refusal-Sends w.base.header _) (λ h.
          branch (url_fits w (build_get_url w codec bytes false)) _ _
            (λ k. asked-Sends bytes false _ h k) (λ _. get_plain-Sends bytes _ h))
    get_marshaled-Sends (some c) (ok bytes) =
        branch
          (not (over w.base.send_max_bytes (length bytes))
            && url_fits w (build_get_url w codec bytes false))
          _ _ (λ k. asked-Sends bytes false _ (ground arith) (ground arith))
          (λ _. get_compressed-Sends (length bytes) (compress c bytes))

  enabled-Sends :
      (message : Option M) (o : Option (StableCodec M))
      → w.stable_codec ≡ o
      → Sends w (marshal_enabled w message o)
  unfolding marshal_with_get
  enabled-Sends message (some codec) h =
      get_marshaled-Sends codec h w.base.pool (stable_bytes codec message)
  enabled-Sends message none h =
      branch w.get_use_fallback _ _ (λ _. unary-Sends message) (λ _. refusal-Sends w.base.header _)

  -- However the request of a unary call is sent, as a GET, as a POST, or as the POST to which a GET
  -- falls back, compressed or not, what is sent keeps the limit on the size of a message, and a GET
  -- keeps the limit on the length of its URL too. A request is sent in one way at most, and where
  -- nothing is sent there is an error.
  pub marshal_request-Sends : (message : Option M) → Sends w (marshal_request w message)
  unfolding marshal_request
  marshal_request-Sends message =
      branch w.enable_get _ _ (λ _. enabled-Sends message w.stable_codec refl)
        (λ _. unary-Sends message)
