-- ===== src/Messages/Cutting.antt =====
-- What `envelopeReader.Read` makes of a stream that ends without an error: of a whole frame, of one
-- that is cut short, and of the end.
use connect_go.Base.{
  ℕ, suc, ◌+◌, ◌<◌, ◌≡◌, ◌⊎◌, refl, Bool, true, false, ◌&&◌, [], ◌∷◌, ◌++◌, Option, none, some,
  Text, arith, ltb, length, take, drop, length-take, take-append-drop, Bool-cases, inl, inr, sym,
  ap, subst, ◌∙◌,
}
use connect_go.Envelope.{get_uint32}
use connect_go.Errors.Wrap.{wrap_if_context_done, wrap_if_max_bytes_error}
use connect_go.Errors.{GoError, is, eof, as_error, as_max_bytes, with_cause, io_eof}
use connect_go.Compression.{too_large}
use connect_go.Messages.Reading.{
  Reader, ReadEnvelope, envelope_read, read_failed, read, read_body, finish_prefix, finish_body,
  prefix_error, body_error, oversized,
}
use connect_go.Messages.RoundTrip.{Within, behind, read_body_append}
use connect_go.Messages.{new_envelope}
use connect_go.Streams.Laws.{read_full_append}
use connect_go.Streams.{Stream, Chunk, read_full, copy_n, io_unexpected_eof}

-- The bytes that arrive, under a limit: none, fewer than the five of a prefix, or a prefix with a size
-- that is too large, with less data than it announces, or with all of it.
pub data Arriving (max : ℕ) : Text → Type 0 where
  nothing : Arriving max []
  cut_prefix_bytes : (s : Text) → 0 < length s → length s < 5 → Arriving max s
  too_long :
      (flags : ℕ) (size got : Text)
      → length size ≡ 4
      → (ltb 0 max && ltb max (get_uint32 size)) ≡ true
      → Arriving max (flags ∷ (size ++ got))
  cut_frame :
      (flags : ℕ) (size got : Text)
      → length size ≡ 4
      → length got < get_uint32 size
      → Arriving max (flags ∷ (size ++ got))
  whole_frame :
      (flags : ℕ) (size contents rest : Text)
      → length size ≡ 4
      → length contents ≡ get_uint32 size
      → Within max (length contents)
      → Arriving max (flags ∷ (size ++ (contents ++ rest)))

abbrev of_bytes : Text → Stream
of_bytes s = record { bytes = s; fault = none }

-- Every text is one of these.
by_size :
    (max flags : ℕ) (size body : Text) → length size ≡ 4 → Arriving max (flags ∷ (size ++ body))
by_size max flags size body four = elim (Bool-cases (ltb 0 max && ltb max (get_uint32 size))) [
  | inl big ↦ too_long flags size body four big
  | inr small ↦ elim (Bool-cases (ltb (length body) (get_uint32 size))) [
    | inl less ↦ cut_frame flags size body four (ground arith)
    | inr enough ↦
        let n = get_uint32 size in
        let k : length (take n body) ≡ n = ground (arith, length-take n body) in
        subst (λ t. Arriving max (flags ∷ (size ++ t))) (take-append-drop n body)
          (whole_frame flags size (take n body) (drop n body) four k (rw k small))
  ]
]

pub arriving : (max : ℕ) (s : Text) → Arriving max s
arriving max [] = nothing
arriving max (a ∷ []) = cut_prefix_bytes (a ∷ []) (omega arith) (omega arith)
arriving max (a ∷ b ∷ []) = cut_prefix_bytes (a ∷ b ∷ []) (omega arith) (omega arith)
arriving max (a ∷ b ∷ c ∷ []) = cut_prefix_bytes (a ∷ b ∷ c ∷ []) (omega arith) (omega arith)
arriving max (a ∷ b ∷ c ∷ d ∷ []) =
    cut_prefix_bytes (a ∷ b ∷ c ∷ d ∷ []) (omega arith) (omega arith)
arriving max (a ∷ b ∷ c ∷ d ∷ e ∷ body) = by_size max a (b ∷ c ∷ d ∷ e ∷ []) body refl

read_full_prefix :
    (flags : ℕ) (size body : Text)
    → length size ≡ 4
    → read_full 5 (of_bytes (flags ∷ (size ++ body)))
      ≡ record { got = flags ∷ size; err = none; rest = of_bytes body }
read_full_prefix flags size body four =
    ap (λ k. read_full k (of_bytes (flags ∷ (size ++ body)))) (sym (ap suc four))
    ∙ read_full_append (flags ∷ size) body none

read_full_cut :
    (s : Text)
    → 0 < length s
    → length s < 5
    → (read_full 5 (of_bytes s)).err ≡ some io_unexpected_eof
unfolding read_full
read_full_cut s h k = ground arith

copy_n-err : (n : ℕ) (s : Text) → length s < n → (copy_n n (of_bytes s)).err ≡ some io_eof
unfolding copy_n
copy_n-err n s h = ground arith

copy_n-ended :
    (n : ℕ) (s : Text)
    → ((copy_n n (of_bytes s)).err ≡ none) ⊎ ((copy_n n (of_bytes s)).err ≡ some io_eof)
unfolding copy_n
copy_n-ended n s = ground arith

module _ {M : Type 0} where
  -- A read that fails, with EOF or with something else.
  abbrev pub FailsAs : Bool → ReadEnvelope × Reader M → Type 0
  FailsAs at_end out = (e : GoError) × (out.0 ≡ read_failed e) × (is eof e ≡ at_end)

  -- What a read of these bytes gives.
  abbrev pub Reads :
      (r : Reader M) (s : Text) → Arriving r.read_max_bytes s → ReadEnvelope × Reader M → Type 0
  Reads r _ nothing out = FailsAs true out
  Reads r _ (cut_prefix_bytes s h k) out = FailsAs false out
  Reads r _ (too_long flags size got four big) out = FailsAs false out
  Reads r _ (cut_frame flags size got four less) out = FailsAs false out
  Reads r _ (whole_frame flags size contents rest four n w) out =
      out ≡ (envelope_read (new_envelope contents flags), behind r (length contents) rest none)

  prefix_error_cut : (r : Reader M) → is eof (prefix_error r io_unexpected_eof) ≡ false
  unfolding prefix_error is wrap_if_max_bytes_error wrap_if_context_done as_error as_max_bytes
      with_cause
  prefix_error_cut r = ground arith

  prefix_error_end : (r : Reader M) → is eof (prefix_error r io_eof) ≡ true
  unfolding prefix_error is with_cause
  prefix_error_end r = refl

  body_error_cut : (r : Reader M) (size got : ℕ) → is eof (body_error r size got io_eof) ≡ false
  unfolding body_error is
  body_error_cut r size got = refl

  oversized_cut :
      (r : Reader M) (size : ℕ) (o : Option GoError)
      → (o ≡ none) ⊎ (o ≡ some io_eof)
      → is eof (oversized r size o) ≡ false
  unfolding is too_large
  oversized_cut r size o (inl h) = rw h refl
  oversized_cut r size o (inr h) = rw h refl

  finish_body_cut :
      (r : Reader M) (flags size : ℕ) (c : Chunk)
      → c.err ≡ some io_eof
      → FailsAs false (finish_body r flags size c)
  finish_body_cut r flags size c h =
      let n = length c.got in (body_error r size n io_eof, rw h refl, body_error_cut r size n)

  finish_prefix_failed :
      (r : Reader M) (c : Chunk) (e : GoError) (b : Bool)
      → c.err ≡ some e
      → is eof (prefix_error r e) ≡ b
      → FailsAs b (finish_prefix r c)
  finish_prefix_failed r c e b h k = (prefix_error r e, rw h refl, k)

  body_too_long :
      (r : Reader M) (flags size : ℕ) (s : Text)
      → r.stream ≡ of_bytes s
      → (ltb 0 r.read_max_bytes && ltb r.read_max_bytes size) ≡ true
      → FailsAs false (read_body r flags size)
  unfolding read_body
  body_too_long r flags size s h big =
      let o = (copy_n size (of_bytes s)).err in
      (oversized r size o, rw (big, h) refl, oversized_cut r size o (copy_n-ended size s))

  body_cut :
      (r : Reader M) (flags size : ℕ) (s : Text)
      → r.stream ≡ of_bytes s
      → length s < size
      → FailsAs false (read_body r flags size)
  unfolding read_body
  body_cut r flags size s h less =
      elim (Bool-cases (ltb 0 r.read_max_bytes && ltb r.read_max_bytes size)) [
        | inl big ↦ body_too_long r flags size s h big
        | inr small ↦ rw small (
            finish_body_cut r flags size (copy_n size r.stream)
              (ap (λ t. (copy_n size t).err) h ∙ copy_n-err size s less))
      ]

  -- Behind a prefix that is there in full.
  read-prefixed :
      (r : Reader M) (flags : ℕ) (size body : Text)
      → r.stream ≡ of_bytes (flags ∷ (size ++ body))
      → length size ≡ 4
      → read r
        ≡ read_body
            (record r { stream = of_bytes body; bytes_read = r.bytes_read + 5 })
            flags
            (get_uint32 size)
  unfolding read
  read-prefixed r flags size body h four = rw (h, read_full_prefix flags size body four, four) refl

  read-Reads :
      (r : Reader M) (s : Text)
      → r.stream ≡ of_bytes s
      → (a : Arriving r.read_max_bytes s) → Reads r s a (read r)
  unfolding read read_full
  read-Reads r _ h nothing =
      finish_prefix_failed r (read_full 5 r.stream) io_eof true (rw (h, read_full) refl)
        (prefix_error_end r)
  read-Reads r _ h (cut_prefix_bytes s some_bytes few) =
      finish_prefix_failed r (read_full 5 r.stream) io_unexpected_eof false
        (ap (λ t. (read_full 5 t).err) h ∙ read_full_cut s some_bytes few) (prefix_error_cut r)
  read-Reads r _ h (too_long flags size got four big) = rw (read-prefixed r flags size got h four) (
      body_too_long (record r { stream = of_bytes got; bytes_read = r.bytes_read + 5 }) flags
        (get_uint32 size) got refl big)
  read-Reads r _ h (cut_frame flags size got four less) =
      rw (read-prefixed r flags size got h four) (
        body_cut (record r { stream = of_bytes got; bytes_read = r.bytes_read + 5 }) flags
          (get_uint32 size) got refl less)
  read-Reads r _ h (whole_frame flags size contents rest four n w) =
      read-prefixed r flags size (contents ++ rest) h four
      ∙ rw (← n) (
          read_body_append
            (record r { stream = of_bytes (contents ++ rest); bytes_read = r.bytes_read + 5 }) flags
            contents rest none refl w)

  -- What arrives on a stream that ends without an error is nothing, a frame that is cut short in its
  -- prefix or in its data, one that is too long, or a whole frame. The first reads as EOF, the next
  -- three fail with an error that is not EOF, and the last, and it alone, gives an envelope: that of
  -- its flags and its data, with the stream right behind it.
  pub read_whole :
      (r : Reader M) (s : Text)
      → r.stream ≡ of_bytes s
      → Arriving r.read_max_bytes s × ((a : Arriving r.read_max_bytes s) → Reads r s a (read r))
  read_whole r s h = (arriving r.read_max_bytes s, read-Reads r s h)
