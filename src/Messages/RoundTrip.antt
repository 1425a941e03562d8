-- ===== src/Messages/RoundTrip.antt =====
-- A message that `envelopeWriter` sends is the one that `envelopeReader` receives.
use connect_go.Base.{
  ℕ, suc, ◌+◌, ◌^◌, ◌<◌, ◌≡◌, ◌≢◌, refl, true, false, ◌&&◌, ◌||◌, ◌∷◌, ◌++◌, Option, none, some,
  Text, arith, ltb, ◌==◌, if◌then◌else◌, length, Bool-cases, Option-cases, inl, inr, ap, sym, ◌∙◌,
  append_assoc,
}
use connect_go.Compression.Limits.{decompress_lem}
use connect_go.Compression.{Compressor, compress, compressed, decompress, max_int64}
use connect_go.Envelope.Frame.{frame, get_uint32-put_uint32, length-put_uint32}
use connect_go.Envelope.{Envelope, is_set, put_uint32, flag_compressed}
use connect_go.Errors.{GoError}
use connect_go.Messages.Reading.{
  Reader, envelope_read, read, read_body, Received, unmarshal, unpack,
}
use connect_go.Messages.{
  Writer, framed, Sent, Stats, new_envelope, refuse, write, write_plain, write_packed,
  write_compressed, write_envelope, marshal, sent_with,
}
use connect_go.Streams.Laws.{read_full_append, copy_n_append}
use connect_go.Streams.{Try, ok, fail, Stream, read_full}

-- A size that a limit, if there is one, lets through.
abbrev pub Within : ℕ → ℕ → Type 0
Within max size = (ltb 0 max && ltb max size) ≡ false

-- What a compressor is for: what it wrote without an error it opens and reads back, as the original.
-- Of any other bytes nothing is said: opening them may fail.
pub record IsLossless (c : Compressor) : Type 0 where
  pub opens : (x z : Text) → c.deflate x ≡ (z, none) → c.open_reader z ≡ none
  pub inverts :
      (x z : Text) → c.deflate x ≡ (z, none) → c.inflate z ≡ record { bytes = x; fault = none }

read_prefix_append :
    (s : Stream) (env : Envelope) (rest : Text) (fault : Option GoError)
    → s ≡ record { bytes = frame env ++ rest; fault = fault }
    → read_full 5 s ≡ record {
      got = env.flags ∷ put_uint32 (length env.contents);
      err = none;
      rest = record { bytes = env.contents ++ rest; fault = fault };
    }
unfolding frame
read_prefix_append s env rest fault e =
    let p = env.flags ∷ put_uint32 (length env.contents) in
    let five : length p ≡ 5 = ap suc (length-put_uint32 (length env.contents)) in
    rw (e, append_assoc p env.contents rest)
      (ap (λ k. read_full k (record { bytes = p ++ (env.contents ++ rest); fault = fault }))
          (sym five)
        ∙ read_full_append p (env.contents ++ rest) fault)

module _ {M : Type 0} where
  abbrev pub behind : Reader M → ℕ → Text → Option GoError → Reader M
  behind r n rest fault = record r {
    stream = record { bytes = rest; fault = fault };
    bytes_read = r.bytes_read + 5 + n;
  }

  pub read_body_append :
      (r : Reader M) (flags : ℕ) (contents rest : Text) (fault : Option GoError)
      → r.stream ≡ record { bytes = contents ++ rest; fault = fault }
      → Within r.read_max_bytes (length contents)
      → read_body r flags (length contents) ≡ (
        envelope_read (new_envelope contents flags),
        record r {
          stream = record { bytes = rest; fault = fault };
          bytes_read = r.bytes_read + length contents;
        },
      )
  unfolding read_body
  read_body_append r flags contents rest fault s w =
      rw (s, w, copy_n_append contents rest fault) refl

  -- Reading at a frame takes exactly that frame.
  pub read-frame :
      (r : Reader M) (env : Envelope) (rest : Text) (fault : Option GoError)
      → length env.contents < 2 ^ 32
      → Within r.read_max_bytes (length env.contents)
      → r.stream ≡ record { bytes = frame env ++ rest; fault = fault }
      → read r ≡ (
        envelope_read (new_envelope env.contents env.flags),
        behind r (length env.contents) rest fault,
      )
  unfolding read
  read-frame r env rest fault h w s =
      let five : length (put_uint32 (length env.contents)) ≡ 4 =
        length-put_uint32 (length env.contents) in
      rw
        (
          read_prefix_append r.stream env rest fault s,
          get_uint32-put_uint32 (length env.contents) h,
          five,
        )
        (read_body_append
          (record r {
            stream = record { bytes = env.contents ++ rest; fault = fault };
            bytes_read = r.bytes_read + 5;
          })
          env.flags env.contents rest fault refl w)

compressed-eq-ok : (p : Text × Option GoError) (z : Text) → compressed p ≡ ok z → p ≡ (z, none)
compressed-eq-ok (out, none) z h = let q : out ≡ z = ground arith in rw q refl
compressed-eq-ok (out, some e) z h = cc

pub compress-eq-ok : (c : Compressor) (x z : Text) → compress c x ≡ ok z → c.deflate x ≡ (z, none)
unfolding compress
compress-eq-ok c x z h = elim (Option-cases c.open_writer) [
  | inl e ↦ compressed-eq-ok (c.deflate x) z (rw (e, compress) at h)
  | inr (f, e) ↦ absurd (not_ok (rw (e, compress) at h))
]
  where
    not_ok : {e : GoError} → ◌≢◌ {A = Try Text} (fail e) (ok z)
    not_ok = λ q. cc

-- The two forms in which a message is put on the wire.
data Form (pool : Option Compressor) (bytes : Text) (env : Envelope) : Type 0 where
  plain : env ≡ new_envelope bytes 0 → Form pool bytes env
  packed :
      (c : Compressor) (z : Text)
      → pool ≡ some c
      → c.deflate bytes ≡ (z, none)
      → env ≡ new_envelope z 1
      → Form pool bytes env

module _ {M : Type 0} (w : Writer M) (env : Envelope) (stats : Option Stats) where
  abbrev handed : Sent
  handed = record { payload = some (framed env); stats = stats; err = none }

  sent_with-handed :
      (env' : Envelope) (st : Option Stats) (result : Option GoError)
      → sent_with w (framed env') st result ≡ handed
      → env ≡ env'
  sent_with-handed env' st none h = ground arith
  sent_with-handed env' st (some e) h = cc

  refuse-not-handed : (e : GoError) → refuse e ≢ handed
  refuse-not-handed e = λ q. cc

  write_plain-handed : (e : Envelope) → write_plain w e ≡ handed → env ≡ e
  unfolding write_plain write_envelope
  write_plain-handed e h =
      elim (Bool-cases (ltb 0 w.send_max_bytes && ltb w.send_max_bytes (length e.contents))) [
        | inl big ↦ absurd (refuse-not-handed _ (rw big at h))
        | inr small ↦ sent_with-handed e _ _ (rw small at h)
      ]

  write_packed-handed :
      (bytes z : Text) → write_packed w (new_envelope bytes 0) z ≡ handed → env ≡ new_envelope z 1
  unfolding write_packed write_envelope
  write_packed-handed bytes z h =
      elim (Bool-cases (ltb 0 w.send_max_bytes && ltb w.send_max_bytes (length z))) [
        | inl big ↦ absurd (refuse-not-handed _ (rw big at h))
        | inr small ↦ sent_with-handed (new_envelope z 1) _ _ (rw small at h)
      ]

  write_compressed-handed :
      (c : Compressor) (bytes : Text) (t : Try Text)
      → w.pool ≡ some c
      → compress c bytes ≡ t
      → write_compressed w (new_envelope bytes 0) t ≡ handed
      → Form w.pool bytes env
  write_compressed-handed c bytes (fail e) p q h = absurd (refuse-not-handed e h)
  write_compressed-handed c bytes (ok z) p q h =
      packed c z p (compress-eq-ok c bytes z q) (write_packed-handed bytes z h)

  write-handed : (bytes : Text) → write w (new_envelope bytes 0) ≡ handed → Form w.pool bytes env
  write-handed bytes h = elim (Option-cases w.pool) [
    | inl e ↦ plain (write_plain-handed (new_envelope bytes 0) (unfold write in rw (e, write) at h))
    | inr (c, e) ↦
        elim (Bool-cases (is_set 0 flag_compressed || ltb (length bytes) w.compress_min_bytes)) [
          | inl small ↦ plain (
              write_plain-handed (new_envelope bytes 0) (unfold write in rw (e, write, small) at h))
          | inr large ↦
              write_compressed-handed c bytes (compress c bytes) e refl
                (unfold write in rw (e, write, large) at h)
        ]
  ]

module _ {M : Type 0} where
  -- The message `m` arrived, from an envelope that held `wire`, and `rest` is still to be read. An
  -- empty envelope leaves the message alone: it is the encoding of a message with no content.
  abbrev pub Arrives : Received M × Reader M → M → Text → Stream → Type 0
  Arrives out m wire rest =
      (out.0.err ≡ none)
      × (out.0.message ≡ (if length wire == 0 then none else some m))
      × (out.1.stream ≡ rest)

  unpack-plain :
      (r : Reader M) (m : M) (bytes : Text) (pool : Option Compressor)
      → r.unmarshal bytes ≡ ok m
      → Arrives (unpack r (new_envelope bytes 0) pool) m bytes r.stream
  unfolding is_set
  unpack-plain r m bytes none u = elim (Bool-cases (length bytes == 0)) [
    | inl e ↦ rw e (refl, refl, refl)
    | inr e ↦ rw (e, u) (refl, refl, refl)
  ]
  unpack-plain r m bytes (some c) u = elim (Bool-cases (length bytes == 0)) [
    | inl e ↦ rw e (refl, refl, refl)
    | inr e ↦ rw (e, not_packed (length bytes), u) (refl, refl, refl)
  ]
    where
      not_packed : (n : ℕ) → (ltb 0 n && false) ≡ false
      not_packed n = ground arith

  unpack-packed :
      (r : Reader M) (m : M) (bytes z : Text) (c : Compressor)
      → r.unmarshal bytes ≡ ok m
      → decompress c z r.read_max_bytes ≡ ok bytes
      → Arrives (unpack r (new_envelope z 1) (some c)) m z r.stream
  unfolding is_set
  unpack-packed r m bytes z c u d = elim (Bool-cases (length z == 0)) [
    | inl e ↦ rw e (refl, refl, refl)
    | inr e ↦
        let nonempty : (ltb 0 (length z) && true) ≡ true = ground arith in
        rw (e, nonempty, d, u) (refl, refl, refl)
  ]

  decompress-Form :
      (r : Reader M) (bytes z : Text) (c : Compressor)
      → IsLossless c
      → c.deflate bytes ≡ (z, none)
      → length bytes < max_int64
      → Within r.read_max_bytes (length bytes)
      → decompress c z r.read_max_bytes ≡ ok bytes
  decompress-Form r bytes z c l q h w =
      decompress_lem c z bytes r.read_max_bytes (l.opens bytes z q) (l.inverts bytes z q) h
      ∙ rw w refl

  unpack-Form :
      (r : Reader M) (m : M) (bytes : Text) (env : Envelope) (pool : Option Compressor)
      → ((c : Compressor) → pool ≡ some c → IsLossless c)
      → r.unmarshal bytes ≡ ok m
      → length bytes < max_int64
      → Within r.read_max_bytes (length bytes)
      → Form pool bytes env
      → Arrives (unpack r (new_envelope env.contents env.flags) pool) m env.contents r.stream
  unpack-Form r m bytes env pool l u h w (plain e) = rw e (unpack-plain r m bytes pool u)
  unpack-Form r m bytes env pool l u h w (packed c z p q e) =
      rw (e, p) (unpack-packed r m bytes z c u (decompress-Form r bytes z c (l c p) q h w))

  written-Form :
      (w : Writer M) (m : M) (bytes : Text) (env : Envelope) (stats : Option Stats)
      → w.marshal m ≡ ok bytes
      → marshal w (some m) ≡ record { payload = some (framed env); stats = stats; err = none }
      → Form w.pool bytes env
  unfolding marshal
  written-Form w m bytes env stats e h = write-handed w env stats bytes (rw e at h)

  -- What a writer hands to its sender for a message, a reader with the same codec and compressor
  -- receives as that message, whether or not it was compressed, if it is within the reader's limit
  -- before and after decompression; and it stops right behind the frame. Only where the envelope's
  -- contents are empty on the wire the reader stores no message and leaves its destination alone. The
  -- codec reads back what it wrote, and the compressor opens and reads back what it wrote.
  pub unmarshal-marshal :
      (w : Writer M) (r : Reader M) (m : M) (bytes rest : Text) (fault : Option GoError)
      (env : Envelope) (stats : Option Stats)
      → w.marshal m ≡ ok bytes
      → r.unmarshal bytes ≡ ok m
      → w.pool ≡ r.pool
      → ((c : Compressor) → r.pool ≡ some c → IsLossless c)
      → marshal w (some m) ≡ record { payload = some (framed env); stats = stats; err = none }
      → length env.contents < 2 ^ 32
      → Within r.read_max_bytes (length env.contents)
      → length bytes < max_int64
      → Within r.read_max_bytes (length bytes)
      → r.stream ≡ record { bytes = frame env ++ rest; fault = fault }
      → Arrives (unmarshal r) m env.contents (record { bytes = rest; fault = fault })
  unfolding unmarshal
  unmarshal-marshal w r m bytes rest fault env stats written reads same lossless sent fits wire h
        within s =
      rw (read-frame r env rest fault fits wire s) (
        unpack-Form (behind r (length env.contents) rest fault) m bytes env r.pool lossless reads h
          within (rw same at (written-Form w m bytes env stats written sent)))
