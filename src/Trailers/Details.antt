-- ===== src/Trailers/Details.antt =====
-- Errors with details: what a gRPC client reads from the trailers that a server writes.
use connect_go.Base.{
  ◌%◌, ◌≡◌, ◌<◌, ◌^◌, inl, inr, refl, ap, ◌∙◌, true, false, List, [], ◌∷◌, ◌++◌, map, some, Text,
  codes, eq_text, eq_text_refl, All, arith, ltb, ◌==◌, if◌then◌else◌, length, length-append,
  Bool-cases,
}
use connect_go.Codes.{Code}
use connect_go.Errors.Laws.{attach, attach_lem}
use connect_go.Errors.{
  GoError, Verdict, Detail, new_error, error_code, verdict, wire_verdict, with_remote, with_detail,
}
use connect_go.GrpcStatus.Decoding.{IsWire, unmarshal_status-marshal_status}
use connect_go.GrpcStatus.Details.{new_error_detail-error_detail_to_any}
use connect_go.GrpcStatus.{
  Any, Wire, has_slash, encode_binary_header, decode_binary_header, marshal_details, marshal_status,
}
use connect_go.Headers.{Headers, set}
use connect_go.Percent.Encoding.{IsByte}
use connect_go.Streams.{Try, ok, fail}
use connect_go.Trailers.RoundTrip.{
  get-set, trailer-read, two_set, two_set-status, two_set-message, error_code_ne_zero,
}
use connect_go.Trailers.{
  status_key, message_key, details_key, result, error_for_trailer, error_to_trailer, put_status,
  put_verdict, to_anys, with_details, with_details_of,
}

-- What the documentation of encoding/base64 says: both decoders read back what the raw encoder
-- wrote, the padded one where no padding is due; and only nothing is encoded as nothing.
pub record IsBase64 (w : Wire) : Type 0 where
  pub raw : (s : Text) → w.decode_raw (w.encode_base64 s) ≡ ok s
  pub padded :
      (s : Text) → length (w.encode_base64 s) % 4 ≡ 0 → w.decode_padded (w.encode_base64 s) ≡ ok s
  pub nonempty : (s : Text) → 0 < length s → 0 < length (w.encode_base64 s)

decode-encode_binary_header :
    (w : Wire) → IsBase64 w → (s : Text) → decode_binary_header w (encode_binary_header w s) ≡ ok s
unfolding decode_binary_header
decode-encode_binary_header w b s = elim (Bool-cases (length (w.encode_base64 s) % 4 == 0)) [
  | inl e ↦ rw e (b.padded s (ground arith))
  | inr e ↦ rw e (b.raw s)
]

-- A detail as it arrives: its debug text is not sent.
abbrev pub sent : Detail → Detail
sent d = record d { debug = [] }

abbrev pub HasPlainName : Detail → Type 0
HasPlainName d = has_slash d.type_name ≡ false

with_details-attach :
    (e : GoError) (ds : List Detail)
    → All HasPlainName ds
    → with_details e (to_anys ds) ≡ attach e (map sent ds)
unfolding with_details attach to_anys
with_details-attach e [] h = refl
with_details-attach e (d ∷ ds) h =
    let same = new_error_detail-error_detail_to_any d h.0 in
    ap (λ x. with_details (with_detail e (some x)) (to_anys ds)) same
    ∙ with_details-attach (with_detail e (some (sent d))) ds h.1

details_ne_status : eq_text details_key status_key ≡ false
unfolding eq_text codes
details_ne_status = refl

details_ne_message : eq_text details_key message_key ≡ false
unfolding eq_text codes
details_ne_message = refl

-- A code that is not zero is encoded in some bytes.
marshal_status-nonempty :
    (w : Wire) (l : IsWire w) (c : Code) (message : Text) (as' : List Any) (bin : Text)
    → (c == 0) ≡ false
    → marshal_status w c message as' ≡ ok bin
    → 0 < length bin
unfolding marshal_status
marshal_status-nonempty w l c message as' bin nonzero h = with_rest (marshal_details w as') refl
  where
    message_field : Text
    message_field = if length message == 0 then [] else w.append_tag 2 2 ++ w.append_bytes message

    front : Text
    front = (w.append_tag 1 0 ++ w.append_varint c) ++ message_field

    tag_nonempty : 0 < length (w.append_tag 1 0)
    tag_nonempty =
        l.tag_size (w.append_tag 1 0 ++ []) (1, 0) (length (w.append_tag 1 0))
          (l.tag 1 0 [] (omega arith) (omega arith) (omega arith))

    with_rest : (t : Try Text) → marshal_details w as' ≡ t → 0 < length bin
    with_rest (fail e) q = let no : ◌≡◌ {A = Try Text} (fail e) (ok bin) = rw q at h in cc
    with_rest (ok rest) q =
        let e : ◌≡◌ {A = Try Text} (ok (front ++ rest)) (ok bin) = rw (q, nonzero) at h in
        let same : front ++ rest ≡ bin = ground arith in
        rw (← same) (
          omega (
            arith,
            tag_nonempty,
            length-append front rest,
            length-append (w.append_tag 1 0 ++ w.append_varint c) message_field,
            length-append (w.append_tag 1 0) (w.append_varint c),
          ))

module _ (w : Wire) (l : IsWire w) (b : IsBase64 w) where
  with_details_of-encoded :
      (c : Code) (message : Text) (as' : List Any) (bin : Text)
      → (c == 0) ≡ false
      → c < 2 ^ 32
      → marshal_status w c message as' ≡ ok bin
      → with_details_of w c message (encode_binary_header w bin)
        ≡ with_details (with_remote (new_error c message)) as'
  with_details_of-encoded c message as' bin nonzero small h =
      let some_bytes : ltb 0 (length (w.encode_base64 bin)) ≡ true =
        ground (arith, b.nonempty bin (marshal_status-nonempty w l c message as' bin nonzero h)) in
      rw
        (
          some_bytes,
          decode-encode_binary_header w b bin,
          unmarshal_status-marshal_status w l c message as' bin small h,
        )
        refl

  -- The three trailers with details, as they are read.
  put_status-read_details :
      (h : Headers) (c : Code) (message : Text) (as' : List Any) (bin : Text)
      → (c == 0) ≡ false
      → c < 2 ^ 32
      → All IsByte message
      → marshal_status w c message as' ≡ ok bin
      → error_for_trailer w (put_status w h c message bin)
        ≡ result (some (with_details (with_remote (new_error c message)) as'))
  unfolding put_status
  put_status-read_details h c message as' bin nonzero small bytes q =
      let some_bytes : ltb 0 (length bin) ≡ true =
        ground (arith, marshal_status-nonempty w l c message as' bin nonzero q) in
      let h' = two_set h c message in
      let encoded = encode_binary_header w bin in
      rw some_bytes (
        trailer-read w (set details_key encoded h') c message encoded
          (rw (get-set details_key status_key encoded h', details_ne_status)
            (two_set-status h c message))
          (rw (get-set details_key message_key encoded h', details_ne_message)
            (two_set-message h c message))
          (rw (get-set details_key details_key encoded h', eq_text_refl details_key) refl) nonzero
          small bytes
        ∙ ap (λ e. result (some e)) (with_details_of-encoded c message as' bin nonzero small q))

  -- A client reads from the trailers the code, the message and every detail in order, marked as
  -- remote, of an error that has details, whatever the trailers held before. The names of the
  -- details have no slash, and their debug texts are not sent. protowire, base64 and the codec read
  -- back what they write.
  pub error_for_trailer-error_to_trailer_details :
      (h : Headers) (e : GoError) (v : Verdict) (bin : Text)
      → wire_verdict e ≡ some v
      → 0 < length v.details
      → All HasPlainName v.details
      → error_code v < 2 ^ 32
      → All IsByte v.message
      → marshal_status w (error_code v) v.message (to_anys v.details) ≡ ok bin
      → (r : GoError) × (error_for_trailer w (error_to_trailer w h (some e)) ≡ result (some r))
        × (verdict r
            ≡ some (record {
              code = error_code v;
              message = v.message;
              details = map sent v.details;
              remote = true;
            }))
  unfolding error_to_trailer put_verdict
  error_for_trailer-error_to_trailer_details h e v bin found some_details names small bytes q =
      let many : ltb 0 (length v.details) ≡ true = ground arith in
      let r = with_remote (new_error (error_code v) v.message) in
      (
        with_details r (to_anys v.details),
        rw (found, many, q)
            (put_status-read_details h (error_code v) v.message (to_anys v.details) bin
              (error_code_ne_zero v) small bytes q),
        ap verdict (with_details-attach r v.details names)
            ∙ (attach_lem r (map sent v.details)
                (record { code = error_code v; message = v.message; details = []; remote = true })
                (remote_verdict (error_code v) v.message)).0,
      )
    where
      remote_verdict :
          (c : Code) (message : Text)
          → verdict (with_remote (new_error c message))
            ≡ some (record { code = c; message = message; details = []; remote = true })
      remote_verdict c message = unfold verdict with_remote in refl
