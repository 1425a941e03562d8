-- ===== src/Percent.antt =====
-- connecthttp/protocol_grpc.go: the percent-encoding of the Grpc-Message trailer.
pub mod Encoding
pub mod RoundTrip
use Prim.Native.Nat.{bit_or}
use connect_go.Base.{
  ℕ, zero, suc, ◌+◌, ◌-◌, ◌*◌, ◌/◌, ◌%◌, Bool, true, false, ◌&&◌, ◌||◌, List, [], ◌∷◌, ◌++◌, Option,
  none, some, Text, codes, ltb, leb, ◌==◌, if◌then◌else◌,
}

unfoldable pub should_escape : ℕ → Bool
should_escape c = ltb c b' ' || ltb b'~' c || c == b'%'

-- `upperhex[i]`; every index used is below 16.
unfoldable pub upper_hex : ℕ → ℕ
upper_hex i = if ltb i 10 then b'0' + i else b'A' + (i - 10)

unfoldable pub unhex : ℕ → ℕ
unhex c =
    if leb b'0' c && leb c b'9'
    then c - b'0'
    else if leb b'a' c && leb c b'f'
    then c - b'a' + 10
    else if leb b'A' c && leb c b'F'
    then c - b'A' + 10
    else 0

unfoldable pub is_hex : ℕ → Bool
is_hex c = (leb b'0' c && leb c b'9') || (leb b'a' c && leb c b'f') || (leb b'A' c && leb c b'F')

-- `validateHex`; false for its error.
unfoldable pub validate_hex : Text → Bool
unfolding is_hex
validate_hex (p ∷ x ∷ y ∷ _) = p == b'%' && is_hex x && is_hex y
validate_hex _ = false

unfoldable pub hex_count : Text → ℕ
hex_count [] = 0
hex_count (c ∷ cs) = (if should_escape c then 1 else 0) + hex_count cs

-- What the second loop of `grpcPercentEncode` writes for one byte, and for all.
unfoldable pub encode_byte : ℕ → Text
encode_byte c =
    if should_escape c then b'%' ∷ upper_hex (c / 16) ∷ upper_hex (c % 16) ∷ [] else c ∷ []

unfoldable pub encode_bytes : Text → Text
encode_bytes [] = []
encode_bytes (c ∷ cs) = encode_byte c ++ encode_bytes cs

-- `grpcPercentEncode`
unfoldable pub percent_encode : Text → Text
percent_encode msg = if hex_count msg == 0 then msg else encode_bytes msg

-- The first loop of `grpcPercentDecode`: the number of escapes, or `none` for an invalid one.
unfoldable pub count_escapes : ℕ → Text → Option ℕ
count_escapes n [] = some n
count_escapes n (c ∷ []) = if c == b'%' then none else some n
count_escapes n (c ∷ x ∷ []) =
    let rest = count_escapes n (x ∷ []) in if c == b'%' then none else rest
count_escapes n (c ∷ x ∷ y ∷ cs) =
    let skipped = count_escapes (n + 1) cs in
    let rest = count_escapes n (x ∷ y ∷ cs) in
    if c == b'%' then (if validate_hex (c ∷ x ∷ y ∷ cs) then skipped else none) else rest

abbrev pub write_byte : ℕ → Option Text → Option Text
write_byte c none = none
write_byte c (some out) = some (c ∷ out)

-- The second loop; `none` is an index out of range.
unfoldable pub decode_bytes : Text → Option Text
decode_bytes [] = some []
decode_bytes (c ∷ []) = if c == b'%' then none else some (c ∷ [])
decode_bytes (c ∷ x ∷ []) =
    let rest = write_byte c (decode_bytes (x ∷ [])) in if c == b'%' then none else rest
decode_bytes (c ∷ x ∷ y ∷ cs) =
    let escaped = write_byte (bit_or (unhex x * 16 % 256) (unhex y)) (decode_bytes cs) in
    let rest = write_byte c (decode_bytes (x ∷ y ∷ cs)) in if c == b'%' then escaped else rest

pub data Decoded : Type 0 where
  decoded : Text → Decoded
  invalid : Decoded
  panicked : Decoded

abbrev pub finish_decode : Option Text → Decoded
finish_decode none = panicked
finish_decode (some out) = decoded out

abbrev pub decode_counted : Text → Option ℕ → Decoded
decode_counted input none = invalid
decode_counted input (some zero) = decoded input
decode_counted input (some (suc _)) = finish_decode (decode_bytes input)

-- `grpcPercentDecode`
unfoldable pub percent_decode : Text → Decoded
percent_decode input = decode_counted input (count_escapes 0 input)
