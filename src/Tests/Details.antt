-- ===== src/Tests/Details.antt =====
-- Errors with details through a small encoding: tags of two elements, and bytes behind their number.
use connect_go.Base.{
  ℕ, suc, ◌≡◌, ◌<◌, refl, true, false, [], ◌∷◌, ◌++◌, map, some, Text, codes, arith, length, take,
  drop, take_append, drop_append, All,
}
use connect_go.Codes.{permission_denied}
use connect_go.Errors.{
  GoError, Verdict, Detail, as_error, coded, opaque, verdict, wire_verdict, error_code,
}
use connect_go.GrpcStatus.Decoding.{IsWire}
use connect_go.GrpcStatus.{
  Any, Wire, has_slash, error_detail_to_any, marshal_details, marshal_status,
}
use connect_go.Streams.{Try, ok, fail}
use connect_go.Tests.Negotiating.{quote}
use connect_go.Trailers.Details.{
  IsBase64, HasPlainName, sent, error_for_trailer-error_to_trailer_details,
}
use connect_go.Trailers.{result, error_for_trailer, error_to_trailer, to_anys}

abbrev short : {A : Type 0} → Try A
short = fail (opaque [])

abbrev pair_tag : Text → Try ((ℕ × ℕ) × ℕ)
pair_tag (num ∷ typ ∷ rest) = ok ((num, typ), 2)
pair_tag (c ∷ []) = short
pair_tag [] = short

abbrev one_varint : Text → Try (ℕ × ℕ)
one_varint (n ∷ rest) = ok (n, 1)
one_varint [] = short

abbrev counted_bytes : Text → Try (Text × ℕ)
counted_bytes (n ∷ rest) = ok (take n rest, suc n)
counted_bytes [] = short

abbrev split_any : Text → Try Any
split_any (n ∷ rest) = ok (record { type_url = take n rest; value = drop n rest })
split_any [] = short

abbrev counted_wire : Wire
counted_wire = record {
  append_tag = λ num typ. num ∷ typ ∷ [];
  append_varint = λ n. n ∷ [];
  append_bytes = λ bytes. length bytes ∷ bytes;
  consume_tag = pair_tag;
  consume_varint = one_varint;
  consume_bytes = counted_bytes;
  consume_value = λ num typ input. short;
  marshal_any = λ a. ok (length a.type_url ∷ (a.type_url ++ a.value));
  unmarshal_any = split_any;
  encode_base64 = λ s. s;
  decode_raw = ok;
  decode_padded = ok;
  quote = quote;
}

pair_tag_size : (input : Text) (field : ℕ × ℕ) (n : ℕ) → pair_tag input ≡ ok (field, n) → 0 < n
pair_tag_size [] field n h = ground arith
pair_tag_size (c ∷ []) field n h = ground arith
pair_tag_size (num ∷ typ ∷ rest) field n h = ground arith

split_any_lem : (a : Any) (b : Text) → counted_wire.marshal_any a ≡ ok b → split_any b ≡ ok a
split_any_lem a b h =
    let e : length a.type_url ∷ (a.type_url ++ a.value) ≡ b = ground arith in
    rw (← e, take_append a.type_url a.value, drop_append a.type_url a.value) refl

counted_wire-IsWire : IsWire counted_wire
counted_wire-IsWire = record {
  tag_size = pair_tag_size;
  tag = λ num typ rest pos small known. refl;
  varint = λ v rest small. refl;
  bytes = λ b rest. rw (take_append b rest) refl;
  any = split_any_lem;
}

counted_wire-IsBase64 : IsBase64 counted_wire
counted_wire-IsBase64 = record { raw = λ s. refl; padded = λ s h. refl; nonempty = λ s h. h }

abbrev quota : Detail
quota = record { type_name = codes "a.Quota"; value = 7 ∷ 8 ∷ []; debug = codes "{}" }

abbrev owner : Detail
owner = record { type_name = codes "a.Owner"; value = []; debug = [] }

abbrev over_quota_verdict : Verdict
over_quota_verdict = record {
  code = permission_denied;
  message = b'n' ∷ b'o' ∷ [];
  details = quota ∷ owner ∷ [];
  remote = false;
}

abbrev over_quota : GoError
over_quota = coded over_quota_verdict

-- The encoded status of `over_quota`.
abbrev encoded : Text
encoded =
    1 ∷ 0 ∷ 7 ∷ 2 ∷ 2 ∷ 2 ∷ b'n' ∷ b'o' ∷ []
    ++ (3 ∷ 2 ∷ 30 ∷ 27 ∷ (codes "type.googleapis.com/a.Quota" ++ 7 ∷ 8 ∷ []))
    ++ (3 ∷ 2 ∷ 28 ∷ 27 ∷ codes "type.googleapis.com/a.Owner")

over_quota-encoded :
    marshal_status counted_wire permission_denied (b'n' ∷ b'o' ∷ []) (to_anys (quota ∷ owner ∷ []))
    ≡ ok encoded
unfolding marshal_status marshal_details to_anys error_detail_to_any has_slash codes
over_quota-encoded = refl

over_quota-verdict : wire_verdict over_quota ≡ some over_quota_verdict
unfolding verdict as_error
over_quota-verdict = refl

plain_names : All HasPlainName (quota ∷ owner ∷ [])
unfolding has_slash codes
plain_names = (refl, (refl, tt))

over_quota_code : error_code over_quota_verdict ≡ permission_denied
unfolding error_code
over_quota_code = refl

error_for_trailer-error_to_trailer_details_example :
    (r : GoError) × (error_for_trailer counted_wire
        (error_to_trailer counted_wire [] (some over_quota))
      ≡ result (some r))
    × (verdict r
        ≡ some (record {
          code = error_code over_quota_verdict;
          message = b'n' ∷ b'o' ∷ [];
          details = map sent (quota ∷ owner ∷ []);
          remote = true;
        }))
error_for_trailer-error_to_trailer_details_example =
    error_for_trailer-error_to_trailer_details counted_wire counted_wire-IsWire
      counted_wire-IsBase64 [] over_quota over_quota_verdict encoded over_quota-verdict
      (omega arith) plain_names (rw over_quota_code (omega arith)) (omega arith, (omega arith, tt))
      (rw over_quota_code over_quota-encoded)
