-- ===== src/GrpcStatus.antt =====
-- connecthttp/protocol_grpc.go: the google.rpc.Status message that carries the details of an error,
-- `grpcMarshalStatus` and `grpcUnmarshalStatus`; the details as `anypb.Any` of
-- connectproto/errordetail.go; and the binary headers of connect.go.
--
-- protowire, base64, the protobuf codec and the verb %q of fmt are parameters.
pub mod Details
pub mod Decoding
use connect_go.Base.{
  ℕ, zero, suc, ◌+◌, ◌%◌, ◌^◌, Bool, true, false, ◌&&◌, ◌||◌, List, [], ◌∷◌, ◌++◌, Option, none,
  some, Text, codes, eq_text, ltb, ◌==◌, if◌then◌else◌, length, drop,
}
use connect_go.Base.Decimal.{decimal, parse_uint}
use connect_go.Codes.{Code, unknown, internal}
use connect_go.Compression.{caused}
use connect_go.Errors.{
  GoError, Verdict, Detail, new_error, text_of, wire_verdict, error_code, with_cause, with_detail,
  with_remote, wrapped, joined, sentinel, trailers_without_status,
}
use connect_go.Headers.{Headers, get, set}
use connect_go.Percent.{percent_encode, percent_decode, Decoded, decoded, invalid, panicked}
use connect_go.Streams.{Try, ok, fail, io_unexpected_eof}

-- `anypb.Any`
pub record Any : Type 0 where
  pub type_url : Text
  pub value : Text

-- The text behind the last slash, or all of it.
unfoldable pub after_slash : Text → Text → Text
after_slash current [] = current
after_slash current (c ∷ cs) =
    let restarted = after_slash [] cs in
    let longer = after_slash (current ++ c ∷ []) cs in if c == b'/' then restarted else longer

-- `typeNameForURL`
abbrev pub type_name_for_url : Text → Text
type_name_for_url url = after_slash [] url

unfoldable pub has_slash : Text → Bool
has_slash [] = false
has_slash (c ∷ cs) = c == b'/' || has_slash cs

-- `ErrorDetailToAny`
unfoldable pub error_detail_to_any : Detail → Any
error_detail_to_any d = record {
  type_url =
      if has_slash d.type_name then d.type_name else codes "type.googleapis.com/" ++ d.type_name;
  value = d.value;
}

-- `NewErrorDetail`, of an `anypb.Any`.
unfoldable pub new_error_detail : Any → Detail
new_error_detail a = record {
  type_name = type_name_for_url a.type_url;
  value = a.value;
  debug = [];
}

-- What protowire appends for a value, and what it consumes: a value and its size, or an error for a
-- negative size. Wire types are their numbers: 0 for a varint, 2 for bytes.
pub record Wire : Type 0 where
  pub append_tag : ℕ → ℕ → Text
  pub append_varint : ℕ → Text
  pub append_bytes : Text → Text
  pub consume_tag : Text → Try ((ℕ × ℕ) × ℕ)
  pub consume_varint : Text → Try (ℕ × ℕ)
  pub consume_bytes : Text → Try (Text × ℕ)
  pub consume_value : ℕ → ℕ → Text → Try ℕ
  pub marshal_any : Any → Try Text
  pub unmarshal_any : Text → Try Any
  pub encode_base64 : Text → Text
  pub decode_raw : Text → Try Text
  pub decode_padded : Text → Try Text
  pub quote : Text → Text

-- `EncodeBinaryHeader` and `DecodeBinaryHeader` of connect.go.
abbrev pub encode_binary_header : Wire → Text → Text
encode_binary_header w = w.encode_base64

unfoldable pub decode_binary_header : Wire → Text → Try Text
decode_binary_header w s = if length s % 4 == 0 then w.decode_padded s else w.decode_raw s

abbrev pub append_detail_field : Wire → Text → Try Text → Try Text
append_detail_field w bytes (fail e) = fail e
append_detail_field w bytes (ok rest) = ok (w.append_tag 3 2 ++ (w.append_bytes bytes ++ rest))

abbrev pub then_details : Wire → Try Text → Try Text → Try Text
then_details w (fail e) rest = fail e
then_details w (ok bytes) rest = append_detail_field w bytes rest

-- The loop of `grpcMarshalStatus` over the details: the bytes that it appends.
unfoldable pub marshal_details : Wire → List Any → Try Text
marshal_details w [] = ok []
marshal_details w (d ∷ ds) =
    let rest = marshal_details w ds in then_details w (w.marshal_any d) rest

abbrev pub after_prefix : Text → Try Text → Try Text
after_prefix front (fail e) = fail e
after_prefix front (ok rest) = ok (front ++ rest)

-- `grpcMarshalStatus`
unfoldable pub marshal_status : Wire → Code → Text → List Any → Try Text
unfolding marshal_details
marshal_status w code message details =
    let code_field = if code == 0 then [] else w.append_tag 1 0 ++ w.append_varint code in
    let message_field =
      if length message == 0 then [] else w.append_tag 2 2 ++ w.append_bytes message in
    after_prefix (code_field ++ message_field) (marshal_details w details)

-- `google.rpc.Status`, as it is decoded so far.
pub record Status : Type 0 where
  pub code : Code
  pub message : Text
  pub details : List Any

-- What one round of the loop of `grpcUnmarshalStatus` makes of a field, and its size.
abbrev pub read_code : Status → Try (ℕ × ℕ) → Try (Status × ℕ)
read_code s (fail e) = fail e
read_code s (ok (value, size)) = ok (record s { code = value % 2 ^ 32 }, size)

abbrev pub read_message : Status → Try (Text × ℕ) → Try (Status × ℕ)
read_message s (fail e) = fail e
read_message s (ok (value, size)) = ok (record s { message = value }, size)

abbrev pub read_any : Status → ℕ → Try Any → Try (Status × ℕ)
read_any s size (fail e) = fail e
read_any s size (ok a) = ok (record s { details = s.details ++ a ∷ [] }, size)

abbrev pub read_detail : Wire → Status → Try (Text × ℕ) → Try (Status × ℕ)
read_detail w s (fail e) = fail e
read_detail w s (ok (value, size)) = read_any s size (w.unmarshal_any value)

abbrev pub skip_field : Status → Try ℕ → Try (Status × ℕ)
skip_field s (fail e) = fail e
skip_field s (ok size) = ok (s, size)

unfoldable pub read_field : Wire → Status → ℕ → ℕ → Text → Try (Status × ℕ)
read_field w s num typ input =
    if num == 1 && typ == 0
    then read_code s (w.consume_varint input)
    else if num == 2 && typ == 2
    then read_message s (w.consume_bytes input)
    else if num == 3 && typ == 2
    then read_detail w s (w.consume_bytes input)
    else skip_field s (w.consume_value num typ input)

abbrev pub read_tagged : Wire → Status → Text → Try ((ℕ × ℕ) × ℕ) → Try (Status × Text)
read_tagged w s input (fail e) = fail e
read_tagged w s input (ok ((num, typ), size)) = elim (read_field w s num typ (drop size input)) [
  | fail e ↦ fail e
  | ok (s', n) ↦ ok (s', drop n (drop size input))
]

-- The loop of `grpcUnmarshalStatus`. Every round consumes a tag, which has a byte at least, so as
-- many rounds as there are bytes are enough.
unfoldable pub read_fields : Wire → ℕ → Status → Text → Try Status
read_fields w fuel s [] = ok s
read_fields w zero s (c ∷ cs) = fail io_unexpected_eof
read_fields w (suc fuel) s (c ∷ cs) = elim (read_tagged w s (c ∷ cs) (w.consume_tag (c ∷ cs))) [
  | fail e ↦ fail e
  | ok (s', rest) ↦ read_fields w fuel s' rest
]

-- `grpcUnmarshalStatus`
unfoldable pub unmarshal_status : Wire → Text → Try Status
unmarshal_status w input =
    read_fields w (length input) (record { code = 0; message = []; details = [] }) input
