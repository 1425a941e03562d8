-- ===== src/Percent/Encoding.antt =====
-- What `grpcPercentEncode` writes: printable ASCII, of the length that it reserves.
use connect_go.Base.{
  ℕ, ◌+◌, ◌*◌, ◌/◌, ◌%◌, ◌≤◌, ◌<◌, ◌≡◌, refl, [], ◌∷◌, arith, Text, All, All-append, length,
  length-append, if◌then◌else◌,
}
use connect_go.Percent.{
  should_escape, upper_hex, encode_byte, encode_bytes, hex_count, percent_encode,
}

abbrev pub IsByte : ℕ → Type 0
IsByte c = c < 256

abbrev pub IsPrintable : ℕ → Type 0
IsPrintable c = (b' ' ≤ c) × (c ≤ b'~')

upper_hex-IsPrintable : (i : ℕ) → i < 16 → IsPrintable (upper_hex i)
unfolding upper_hex
upper_hex-IsPrintable i h = ground arith

encode_byte-IsPrintable : (c : ℕ) → IsByte c → All IsPrintable (encode_byte c)
unfolding encode_byte should_escape
encode_byte-IsPrintable c h =
    ground (arith, upper_hex-IsPrintable (c / 16), upper_hex-IsPrintable (c % 16))

encode_bytes-IsPrintable : (msg : Text) → All IsByte msg → All IsPrintable (encode_bytes msg)
unfolding encode_bytes
encode_bytes-IsPrintable [] h = tt
encode_bytes-IsPrintable (c ∷ cs) h =
    All-append IsPrintable (encode_byte c) (encode_bytes cs) (encode_byte-IsPrintable c h.0)
      (encode_bytes-IsPrintable cs h.1)

pub encode_bytes_unescaped : (msg : Text) → hex_count msg ≡ 0 → encode_bytes msg ≡ msg
unfolding encode_bytes hex_count encode_byte
encode_bytes_unescaped [] h = refl
encode_bytes_unescaped (c ∷ cs) h = ground (arith, encode_bytes_unescaped cs)

-- `grpcPercentEncode` is its loop, whether or not it takes the short way.
pub percent_encode-encode_bytes : (msg : Text) → percent_encode msg ≡ encode_bytes msg
unfolding percent_encode
percent_encode-encode_bytes msg = ground (arith, encode_bytes_unescaped msg)

-- Every byte of an encoded message is printable ASCII, whatever bytes the message holds.
pub percent_encode-IsPrintable :
    (msg : Text) → All IsByte msg → All IsPrintable (percent_encode msg)
percent_encode-IsPrintable msg h =
    rw (percent_encode-encode_bytes msg) (encode_bytes-IsPrintable msg h)

length-encode_byte : (c : ℕ) → length (encode_byte c) ≡ 1 + 2 * (if should_escape c then 1 else 0)
unfolding encode_byte
length-encode_byte c = ground arith

length-encode_bytes : (msg : Text) → length (encode_bytes msg) ≡ length msg + 2 * hex_count msg
unfolding encode_bytes hex_count
length-encode_bytes [] = omega arith
length-encode_bytes (c ∷ cs) = omega (
  arith,
  length-append (encode_byte c) (encode_bytes cs),
  length-encode_byte c,
  length-encode_bytes cs,
)

-- The encoded message has as many bytes as the builder reserves, `len(msg) + 2*hexCount`.
length-percent_encode : (msg : Text) → length (percent_encode msg) ≡ length msg + 2 * hex_count msg
length-percent_encode msg = rw (percent_encode-encode_bytes msg) (length-encode_bytes msg)
