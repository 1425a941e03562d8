-- ===== src/GrpcStatus/Decoding.antt =====
-- The decoder of google.rpc.Status: it ends, and reads back what the encoder writes.
use connect_go.Base.{
  ℕ, zero, suc, ◌%◌, ◌^◌, ◌≤◌, ◌<◌, ◌≡◌, refl, ap, ◌∙◌, List, [], ◌∷◌, ◌++◌, Text, arith, ◌==◌,
  if◌then◌else◌, length, drop, length-drop, drop_append, append_assoc, append-nil, Bool-cases, inl,
  inr,
}
use connect_go.Codes.{Code}
use connect_go.GrpcStatus.{
  Any, Wire, Status, marshal_details, marshal_status, read_field, read_tagged, read_fields,
  unmarshal_status,
}
use connect_go.Streams.{Try, ok, fail}

-- What the documentation of protowire says: a tag has a byte at least, and what was appended is
-- consumed as it was, whatever follows; and of the codec, that it reads back what it wrote.
pub record IsWire (w : Wire) : Type 0 where
  pub tag_size :
      (input : Text) (field : ℕ × ℕ) (n : ℕ) → w.consume_tag input ≡ ok (field, n) → 0 < n
  pub tag :
      (num typ : ℕ) (rest : Text)
      → 0 < num
      → num < 2 ^ 29
      → typ < 6
      → w.consume_tag (w.append_tag num typ ++ rest)
        ≡ ok ((num, typ), length (w.append_tag num typ))
  pub varint :
      (v : ℕ) (rest : Text)
      → v < 2 ^ 64
      → w.consume_varint (w.append_varint v ++ rest) ≡ ok (v, length (w.append_varint v))
  pub bytes :
      (b rest : Text)
      → w.consume_bytes (w.append_bytes b ++ rest) ≡ ok (b, length (w.append_bytes b))
  pub any : (a : Any) (b : Text) → w.marshal_any a ≡ ok b → w.unmarshal_any b ≡ ok a

module _ (w : Wire) (l : IsWire w) where
  read_tagged_shorter :
      (s s' : Status) (c : ℕ) (cs rest : Text)
      → read_tagged w s (c ∷ cs) (w.consume_tag (c ∷ cs)) ≡ ok (s', rest)
      → length rest ≤ length cs
  read_tagged_shorter s s' c cs rest h = by_tag (w.consume_tag (c ∷ cs)) refl
    where
      by_field :
          (num typ n : ℕ) (t : Try (Status × ℕ))
          → 0 < n
          → read_field w s num typ (drop n (c ∷ cs)) ≡ t
          → read_tagged w s (c ∷ cs) (ok ((num, typ), n)) ≡ ok (s', rest)
          → length rest ≤ length cs
      by_field num typ n (fail e) p q k =
          let no : ◌≡◌ {A = Try (Status × Text)} (fail e) (ok (s', rest)) =
            rw (q, read_tagged) at k in
          cc
      by_field num typ n (ok (s'', m)) p q k =
          let same : ◌≡◌ {A = Try (Status × Text)} (ok (s'', drop m (drop n (c ∷ cs))))
              (ok (s', rest)) =
            rw (q, read_tagged) at k in
          let r : drop m (drop n (c ∷ cs)) ≡ rest = ground arith in
          omega (arith, ap length r, length-drop m (drop n (c ∷ cs)), length-drop n (c ∷ cs))

      by_tag : (t : Try ((ℕ × ℕ) × ℕ)) → w.consume_tag (c ∷ cs) ≡ t → length rest ≤ length cs
      by_tag (fail e) q =
          let no : ◌≡◌ {A = Try (Status × Text)} (fail e) (ok (s', rest)) = rw q at h in cc
      by_tag (ok ((num, typ), n)) q =
          by_field num typ n (read_field w s num typ (drop n (c ∷ cs)))
            (l.tag_size (c ∷ cs) (num, typ) n q) refl (rw q at h)

  pub read_fields_fuel :
      (n m : ℕ) (s : Status) (input : Text)
      → length input ≤ n
      → length input ≤ m
      → read_fields w n s input ≡ read_fields w m s input
  unfolding read_fields
  read_fields_fuel n m s [] p q = refl
  read_fields_fuel zero m s (c ∷ cs) p q = absurd (omega arith)
  read_fields_fuel (suc n) zero s (c ∷ cs) p q = absurd (omega arith)
  read_fields_fuel (suc n) (suc m) s (c ∷ cs) p q =
      by_field (λ s' rest. read_fields_fuel n m s' rest)
        (read_tagged w s (c ∷ cs) (w.consume_tag (c ∷ cs))) refl
    where
      by_field :
          ((s' : Status) (rest : Text)
            → length rest ≤ n
            → length rest ≤ m
            → read_fields w n s' rest ≡ read_fields w m s' rest)
          → (t : Try (Status × Text)) → read_tagged w s (c ∷ cs) (w.consume_tag (c ∷ cs)) ≡ t
          → read_fields w (suc n) s (c ∷ cs) ≡ read_fields w (suc m) s (c ∷ cs)
      by_field again (fail e) h = rw (h, read_fields) refl
      by_field again (ok (s', rest)) h =
          let shorter = read_tagged_shorter s s' c cs rest h in
          rw (h, read_fields) (again s' rest (omega (arith, shorter)) (omega (arith, shorter)))

  abbrev decode : Status → Text → Try Status
  decode s input = read_fields w (length input) s input

  decode_step :
      (s s' : Status) (c : ℕ) (cs rest : Text)
      → read_tagged w s (c ∷ cs) (w.consume_tag (c ∷ cs)) ≡ ok (s', rest)
      → decode s (c ∷ cs) ≡ decode s' rest
  unfolding read_fields
  decode_step s s' c cs rest h =
      rw (h, read_fields)
        (read_fields_fuel (length cs) (length rest) s' rest (read_tagged_shorter s s' c cs rest h)
          (omega arith))

  tagged_step :
      (s s' : Status) (num typ : ℕ) (t body rest : Text)
      → read_field w s num typ (body ++ rest) ≡ ok (s', length body)
      → read_tagged w s (t ++ (body ++ rest)) (ok ((num, typ), length t)) ≡ ok (s', rest)
  tagged_step s s' num typ t body rest h =
      rw
        (
          drop_append t (body ++ rest),
          h,
          read_tagged,
          drop_append t (body ++ rest),
          drop_append body rest,
        )
        refl

  -- One field at the front of the input.
  decode_field :
      (s s' : Status) (num typ : ℕ) (body rest : Text)
      → 0 < num
      → num < 2 ^ 29
      → typ < 6
      → read_field w s num typ (body ++ rest) ≡ ok (s', length body)
      → decode s (w.append_tag num typ ++ (body ++ rest)) ≡ decode s' rest
  decode_field s s' num typ body rest pos small known h =
      with_tag (w.append_tag num typ) (l.tag num typ (body ++ rest) pos small known)
    where
      with_tag :
          (t : Text)
          → w.consume_tag (t ++ (body ++ rest)) ≡ ok ((num, typ), length t)
          → decode s (t ++ (body ++ rest)) ≡ decode s' rest
      with_tag [] k = absurd (omega (arith, l.tag_size (body ++ rest) (num, typ) 0 k))
      with_tag (c ∷ cs) k =
          decode_step s s' c (cs ++ (body ++ rest)) rest
            (rw k (tagged_step s s' num typ (c ∷ cs) body rest h))

  decode_code :
      (s : Status) (code : Code) (rest : Text)
      → code < 2 ^ 32
      → decode s ((w.append_tag 1 0 ++ w.append_varint code) ++ rest)
        ≡ decode (record s { code = code }) rest
  unfolding read_field
  decode_code s code rest small =
      let fits : code % 2 ^ 32 ≡ code = omega arith in
      rw (append_assoc (w.append_tag 1 0) (w.append_varint code) rest) (
        decode_field s (record s { code = code }) 1 0 (w.append_varint code) rest (omega arith)
          (omega arith) (omega arith) (rw (l.varint code rest (omega arith), fits) refl))

  decode_message :
      (s : Status) (message rest : Text)
      → decode s ((w.append_tag 2 2 ++ w.append_bytes message) ++ rest)
        ≡ decode (record s { message = message }) rest
  unfolding read_field
  decode_message s message rest =
      rw (append_assoc (w.append_tag 2 2) (w.append_bytes message) rest) (
        decode_field s (record s { message = message }) 2 2 (w.append_bytes message) rest
          (omega arith) (omega arith) (omega arith) (rw (l.bytes message rest) refl))

  decode_detail :
      (s : Status) (a : Any) (b rest : Text)
      → w.marshal_any a ≡ ok b
      → decode s (w.append_tag 3 2 ++ (w.append_bytes b ++ rest))
        ≡ decode (record s { details = s.details ++ a ∷ [] }) rest
  unfolding read_field
  decode_detail s a b rest h =
      decode_field s (record s { details = s.details ++ a ∷ [] }) 3 2 (w.append_bytes b) rest
        (omega arith) (omega arith) (omega arith) (rw (l.bytes b rest, l.any a b h) refl)

  decode_details :
      (s : Status) (as' : List Any) (b : Text)
      → marshal_details w as' ≡ ok b
      → decode s b ≡ ok (record s { details = s.details ++ as' })
  unfolding marshal_details read_fields
  decode_details s [] b h = let e : [] ≡ b = ground arith in rw (← e, append-nil) refl
  decode_details s (a ∷ as') b h =
      one (λ rest. decode_details (record s { details = s.details ++ a ∷ [] }) as' rest)
        (w.marshal_any a) (marshal_details w as') refl refl
    where
      one :
          ((rest : Text)
            → marshal_details w as' ≡ ok rest
            → decode (record s { details = s.details ++ a ∷ [] }) rest
              ≡ ok (record s { details = (s.details ++ a ∷ []) ++ as' }))
          → (t r : Try Text) → w.marshal_any a ≡ t
          → marshal_details w as' ≡ r
          → decode s b ≡ ok (record s { details = s.details ++ a ∷ as' })
      one again (fail e) r p q = let no : ◌≡◌ {A = Try Text} (fail e) (ok b) = rw p at h in cc
      one again (ok x) (fail e) p q =
          let no : ◌≡◌ {A = Try Text} (fail e) (ok b) = rw (p, q) at h in cc
      one again (ok x) (ok rest) p q =
          let e : ok (w.append_tag 3 2 ++ (w.append_bytes x ++ rest)) ≡ ok b = rw (p, q) at h in
          let same : w.append_tag 3 2 ++ (w.append_bytes x ++ rest) ≡ b = ground arith in
          rw (← same) (
            decode_detail s a x rest p
            ∙ again rest q
            ∙ ap (λ d. ok (record s { details = d })) (append_assoc s.details (a ∷ []) as'))

  -- What the encoder writes, the decoder reads back: the code, the message and all details in order.
  pub unmarshal_status-marshal_status :
      (code : Code) (message : Text) (details : List Any) (b : Text)
      → code < 2 ^ 32
      → marshal_status w code message details ≡ ok b
      → unmarshal_status w b ≡ ok (record { code = code; message = message; details = details })
  unfolding marshal_status unmarshal_status
  unmarshal_status-marshal_status code message details b small h =
      with_rest (marshal_details w details) refl
    where
      empty : Status
      empty = record { code = 0; message = []; details = [] }

      code_field : Text
      code_field = if code == 0 then [] else w.append_tag 1 0 ++ w.append_varint code

      message_field : Text
      message_field = if length message == 0 then [] else w.append_tag 2 2 ++ w.append_bytes message

      read_code_field :
          (rest : Text)
          → decode empty (code_field ++ rest) ≡ decode (record empty { code = code }) rest
      read_code_field rest = elim (Bool-cases (code == 0)) [
        | inl e ↦ let z : code ≡ 0 = ground arith in rw (e, z) refl
        | inr e ↦ rw e (decode_code empty code rest small)
      ]

      read_message_field :
          (rest : Text)
          → decode (record empty { code = code }) (message_field ++ rest)
            ≡ decode (record empty { code = code; message = message }) rest
      read_message_field rest = elim (Bool-cases (length message == 0)) [
        | inl e ↦ let z : message ≡ [] = ground arith in rw (e, z) refl
        | inr e ↦ rw e (decode_message (record empty { code = code }) message rest)
      ]

      with_rest :
          (t : Try Text)
          → marshal_details w details ≡ t
          → decode empty b ≡ ok (record { code = code; message = message; details = details })
      with_rest (fail e) q = let no : ◌≡◌ {A = Try Text} (fail e) (ok b) = rw q at h in cc
      with_rest (ok rest) q =
          let e : ◌≡◌ {A = Try Text} (ok ((code_field ++ message_field) ++ rest)) (ok b) =
            rw q at h in
          let same : (code_field ++ message_field) ++ rest ≡ b = ground arith in
          rw (← same, append_assoc code_field message_field rest)
            (read_code_field (message_field ++ rest)
              ∙ read_message_field rest
              ∙ decode_details (record empty { code = code; message = message }) details rest q)
