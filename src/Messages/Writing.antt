-- ===== src/Messages/Writing.antt =====
-- The size limit of a sender.
use connect_go.Base.{
  ℕ, ◌≡◌, ◌&&◌, ◌||◌, Option, none, some, Text, arith, ltb, length, Bool-cases, Option-cases, inl,
  inr, codes,
}
use connect_go.Codes.{internal}
use connect_go.Compression.{compress, caused}
use connect_go.Envelope.{Envelope, is_set, flag_compressed}
use connect_go.Errors.{GoError}
use connect_go.Messages.RoundTrip.{Within}
use connect_go.Messages.{
  Writer, nop, framed, Sent, Stats, new_envelope, refuse, exceeds, write, write_plain, write_packed,
  write_compressed, write_envelope, write_marshaled, marshal, sent_nop,
}
use connect_go.Streams.{Try, ok, fail}

-- What a call handed to its sender is within the limit.
abbrev pub PayloadWithin : ℕ → Sent → Type 0
PayloadWithin max s =
    (env : Envelope) → s.payload ≡ some (framed env) → Within max (length env.contents)

module _ {M : Type 0} (w : Writer M) where
  refuse-PayloadWithin : (e : GoError) → PayloadWithin w.send_max_bytes (refuse e)
  refuse-PayloadWithin e env h = cc

  write_envelope-PayloadWithin :
      (e : Envelope) (st : Option Stats)
      → Within w.send_max_bytes (length e.contents)
      → PayloadWithin w.send_max_bytes (write_envelope w e st)
  unfolding write_envelope
  write_envelope-PayloadWithin e st within env h = elim (Option-cases (w.send (framed e))) [
    | inl n ↦ same env (rw n at h)
    | inr (f, n) ↦ same env (rw n at h)
  ]
    where
      same :
          (env : Envelope)
          → some (framed e) ≡ some (framed env)
          → Within w.send_max_bytes (length env.contents)
      same env q = let p : e ≡ env = ground arith in rw (← p) within

  write_plain-PayloadWithin : (e : Envelope) → PayloadWithin w.send_max_bytes (write_plain w e)
  unfolding write_plain
  write_plain-PayloadWithin e =
      elim (Bool-cases (ltb 0 w.send_max_bytes && ltb w.send_max_bytes (length e.contents))) [
        | inl big ↦ rw big (
            refuse-PayloadWithin
              (exceeds (codes "message size ") (length e.contents) w.send_max_bytes))
        | inr small ↦ rw small (write_envelope-PayloadWithin e _ small)
      ]

  write_packed-PayloadWithin :
      (e : Envelope) (z : Text) → PayloadWithin w.send_max_bytes (write_packed w e z)
  unfolding write_packed
  write_packed-PayloadWithin e z =
      elim (Bool-cases (ltb 0 w.send_max_bytes && ltb w.send_max_bytes (length z))) [
        | inl big ↦ rw big (
            refuse-PayloadWithin
              (exceeds (codes "compressed message size ") (length z) w.send_max_bytes))
        | inr small ↦ rw small (write_envelope-PayloadWithin (new_envelope z _) _ small)
      ]

  write_compressed-PayloadWithin :
      (e : Envelope) (t : Try Text) → PayloadWithin w.send_max_bytes (write_compressed w e t)
  write_compressed-PayloadWithin e (ok z) = write_packed-PayloadWithin e z
  write_compressed-PayloadWithin e (fail x) = refuse-PayloadWithin x

  write-PayloadWithin : (e : Envelope) → PayloadWithin w.send_max_bytes (write w e)
  write-PayloadWithin e = elim (Option-cases w.pool) [
    | inl n ↦ unfold write in rw (n, write) (write_plain-PayloadWithin e)
    | inr (c, n) ↦
        elim (Bool-cases
          (is_set e.flags flag_compressed || ltb (length e.contents) w.compress_min_bytes)) [
            | inl small ↦ unfold write in rw (n, write, small) (write_plain-PayloadWithin e)
            | inr large ↦
                unfold write in
                rw (n, write, large) (write_compressed-PayloadWithin e (compress c e.contents))
          ]
  ]

  write_marshaled-PayloadWithin :
      (t : Try Text) → PayloadWithin w.send_max_bytes (write_marshaled w t)
  write_marshaled-PayloadWithin (ok bytes) = write-PayloadWithin (new_envelope bytes 0)
  write_marshaled-PayloadWithin (fail e) =
      refuse-PayloadWithin (caused internal (codes "marshal message") e)

  sent_nop-PayloadWithin : (o : Option GoError) → PayloadWithin w.send_max_bytes (sent_nop o)
  sent_nop-PayloadWithin none env h = cc
  sent_nop-PayloadWithin (some e) env h = cc

  -- No call of `Marshal` hands its sender a payload that is larger than the configured limit,
  -- counted as it goes on the wire, whatever the codec, the compressor and the message.
  pub marshal_within_limit : (m : Option M) → PayloadWithin w.send_max_bytes (marshal w m)
  unfolding marshal
  marshal_within_limit none = sent_nop-PayloadWithin (w.send nop)
  marshal_within_limit (some m) = write_marshaled-PayloadWithin (w.marshal m)
