-- ===== src/Percent/RoundTrip.antt =====
-- `grpcPercentDecode` reads back what `grpcPercentEncode` writes, and never indexes out of range.
use Prim.Native.Nat.{bit_or}
use connect_go.Base.{
  ℕ, zero, suc, ◌+◌, ◌*◌, ◌/◌, ◌%◌, ◌<◌, ◌≡◌, refl, true, false, [], ◌∷◌, some, arith, ◌==◌, ==_iff,
  Text, All, Bool-cases, inl, inr, ap, all_upto, all_upto_sound, ◌∙◌,
}
use connect_go.Percent.Encoding.{IsByte, percent_encode-encode_bytes, encode_bytes_unescaped}
use connect_go.Percent.{
  should_escape, upper_hex, unhex, is_hex, validate_hex, encode_byte, encode_bytes, hex_count,
  percent_encode, count_escapes, write_byte, decode_bytes, decoded, percent_decode, decode_counted,
}

is_hex-upper_hex : (i : ℕ) → i < 16 → is_hex (upper_hex i) ≡ true
unfolding is_hex upper_hex
is_hex-upper_hex i h = ground arith

unhex-upper_hex : (i : ℕ) → i < 16 → unhex (upper_hex i) ≡ i
unfolding unhex upper_hex
unhex-upper_hex i h = ground arith

nibbles_table : all_upto 255 (λ c. bit_or (c / 16 * 16 % 256) (c % 16) == c) ≡ true
unfolding all_upto
nibbles_table = refl

nibbles : (c : ℕ) → IsByte c → bit_or (c / 16 * 16 % 256) (c % 16) ≡ c
nibbles c h = (==_iff _ c).0 (all_upto_sound 255 _ c nibbles_table (omega arith))

-- A byte that starts no escape is passed over by both loops.
count_escapes_plain :
    (n c : ℕ) (cs : Text) → (c == b'%') ≡ false → count_escapes n (c ∷ cs) ≡ count_escapes n cs
unfolding count_escapes
count_escapes_plain n c [] h = rw h
count_escapes_plain n c (x ∷ []) h = rw h
count_escapes_plain n c (x ∷ y ∷ cs) h = rw h

decode_bytes_plain :
    (c : ℕ) (cs : Text)
    → (c == b'%') ≡ false
    → decode_bytes (c ∷ cs) ≡ write_byte c (decode_bytes cs)
unfolding decode_bytes
decode_bytes_plain c [] h = rw h
decode_bytes_plain c (x ∷ []) h = rw h
decode_bytes_plain c (x ∷ y ∷ cs) h = rw h

-- An escape is taken whole.
count_escapes_escape :
    (n x y : ℕ) (cs : Text)
    → is_hex x ≡ true
    → is_hex y ≡ true
    → count_escapes n (b'%' ∷ x ∷ y ∷ cs) ≡ count_escapes (n + 1) cs
unfolding count_escapes validate_hex
count_escapes_escape n x y cs hx hy = rw (hx, hy)

decode_bytes_escape :
    (x y : ℕ) (cs : Text)
    → decode_bytes (b'%' ∷ x ∷ y ∷ cs)
      ≡ write_byte (bit_or (unhex x * 16 % 256) (unhex y)) (decode_bytes cs)
unfolding decode_bytes
decode_bytes_escape x y cs = refl

plain_of_unescaped : (c : ℕ) → should_escape c ≡ false → (c == b'%') ≡ false
unfolding should_escape
plain_of_unescaped c h = ground arith

count_escapes-encode_bytes :
    (msg : Text) (n : ℕ)
    → All IsByte msg
    → count_escapes n (encode_bytes msg) ≡ some (n + hex_count msg)
unfolding encode_bytes hex_count encode_byte
count_escapes-encode_bytes [] n h = unfold count_escapes in ap some (omega arith)
count_escapes-encode_bytes (c ∷ cs) n h = elim (Bool-cases (should_escape c)) [
  | inl e ↦ rw e (
      count_escapes_escape n _ _ (encode_bytes cs) (is_hex-upper_hex (c / 16) (omega arith))
        (is_hex-upper_hex (c % 16) (omega arith))
      ∙ count_escapes-encode_bytes cs (n + 1) h.1
      ∙ ap some (omega arith))
  | inr e ↦ rw e (
      count_escapes_plain n c (encode_bytes cs) (plain_of_unescaped c e)
      ∙ count_escapes-encode_bytes cs n h.1
      ∙ ap some (omega arith))
]

escaped_byte :
    (c : ℕ)
    → IsByte c
    → bit_or (unhex (upper_hex (c / 16)) * 16 % 256) (unhex (upper_hex (c % 16))) ≡ c
escaped_byte c h =
    rw (unhex-upper_hex (c / 16) (omega arith), unhex-upper_hex (c % 16) (omega arith))
      (nibbles c h)

decode_bytes-encode_bytes :
    (msg : Text) → All IsByte msg → decode_bytes (encode_bytes msg) ≡ some msg
unfolding encode_bytes encode_byte
decode_bytes-encode_bytes [] h = unfold decode_bytes in refl
decode_bytes-encode_bytes (c ∷ cs) h = elim (Bool-cases (should_escape c)) [
  | inl e ↦
      rw e (rw (decode_bytes_escape, decode_bytes-encode_bytes cs h.1, escaped_byte c h.0) refl)
  | inr e ↦ rw e (
      rw
        (
          decode_bytes_plain c (encode_bytes cs) (plain_of_unescaped c e),
          decode_bytes-encode_bytes cs h.1,
        )
        refl)
]

decode_counted-encode_bytes :
    (msg : Text) (k : ℕ)
    → All IsByte msg
    → hex_count msg ≡ k
    → decode_counted (encode_bytes msg) (some k) ≡ decoded msg
decode_counted-encode_bytes msg zero h e = ap decoded (encode_bytes_unescaped msg e)
decode_counted-encode_bytes msg (suc k) h e = rw (decode_bytes-encode_bytes msg h) refl

-- `grpcPercentDecode` reads back every message that `grpcPercentEncode` writes, whatever its bytes.
pub percent_decode-percent_encode :
    (msg : Text) → All IsByte msg → percent_decode (percent_encode msg) ≡ decoded msg
unfolding percent_decode
percent_decode-percent_encode msg h =
    rw (percent_encode-encode_bytes msg, count_escapes-encode_bytes msg 0 h)
      (decode_counted-encode_bytes msg (0 + hex_count msg) h (omega arith))
