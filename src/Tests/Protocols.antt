-- ===== src/Tests/Protocols.antt =====
-- Content types, resets and trailers at concrete values.
use connect_go.Base.{
  ◌≡◌, ◌⊎◌, ◌↔◌, refl, true, false, [], ◌∷◌, ◌++◌, none, some, Text, codes, All, arith, ◌==◌,
  cut_prefix, eq_text,
}
use connect_go.Codes.{deadline_exceeded, permission_denied}
use connect_go.ContentTypes.Grpc.{grpc_validate_lem}
use connect_go.ContentTypes.{
  proto, json, grpc_default, grpc_prefix, grpc_codec, grpc_validate, validate_unary, connect_codec,
}
use connect_go.Errors.{
  GoError, coded, opaque, url_error, text_of, as_url_cause, wire_verdict, as_error, error_code,
  verdict,
}
use connect_go.Errors.Reset.Peer.{
  wrap_if_rst_error_peer, reset_message, Beneath, in_url, IsReset, code_in, http2_errors,
}
use connect_go.Errors.Reset.{wrap_if_rst_error}
use connect_go.Errors.Wrap.{Context, is_coded}
use connect_go.GrpcStatus.{Wire}
use connect_go.Streams.{ok, fail}
use connect_go.Tests.Negotiating.{quote}
use connect_go.Trailers.RoundTrip.{remote_form, IsPlain, error_for_trailer-error_to_trailer}
use connect_go.Trailers.{details_key, result, error_for_trailer, error_to_trailer}
use connect_go.Headers
use connect_go.Headers.{find}

bare_proto : grpc_validate quote true proto (codes "application/grpc-web") ≡ none
unfolding grpc_validate codes eq_text
bare_proto = refl

grpc_validate_lem_example :
    ((grpc_validate quote true json (codes "application/grpc+json") ≡ none) ↔ (
      (codes "application/grpc+json" ≡ grpc_prefix true ++ json)
      ⊎ ((json ≡ proto) × (codes "application/grpc+json" ≡ grpc_default true))))
    × (grpc_validate quote true json (codes "application/grpc+json") ≡ none
        → grpc_codec true (codes "application/grpc+json") ≡ json)
grpc_validate_lem_example = grpc_validate_lem quote true json (codes "application/grpc+json")

json_with_charset :
    validate_unary quote json false 200 (codes "OK") (codes "application/json; charset=utf-8")
    ≡ none
unfolding validate_unary codes cut_prefix eq_text connect_codec
json_with_charset = refl

abbrev drop_space : Text → Text
drop_space [] = []
drop_space (c ∷ cs) = cs

abbrev live : Context
live = record { err = none; past_deadline = true }

cancel_name : All (λ c. (c == b';') ≡ false) (b' ' ∷ codes "CANCEL")
unfolding codes
cancel_name = ground arith

-- What http.Client.Do gives for a stream that the peer cancels.
abbrev peer_cancel : GoError
peer_cancel = opaque (reset_message (codes "stream ID 3") (b' ' ∷ codes "CANCEL"))

abbrev failed_post : GoError
failed_post = url_error (codes "Post \"http://a\": ") peer_cancel

failed_post-Beneath : Beneath failed_post peer_cancel
unfolding as_url_cause
failed_post-Beneath = in_url peer_cancel refl

failed_post-is_coded : is_coded failed_post ≡ false
unfolding as_error
failed_post-is_coded = refl

peer_cancel-text_of :
    text_of peer_cancel ≡ reset_message (codes "stream ID 3") (b' ' ∷ codes "CANCEL")
unfolding text_of
peer_cancel-text_of = refl

late_cancel :
    code_in true (drop_space (b' ' ∷ codes "CANCEL")) http2_errors ≡ some deadline_exceeded
unfolding codes eq_text
late_cancel = refl

wrap_if_rst_error_peer_example :
    IsReset
      (code_in true (drop_space (b' ' ∷ codes "CANCEL")) http2_errors)
      peer_cancel
      (wrap_if_rst_error drop_space live failed_post)
wrap_if_rst_error_peer_example =
    wrap_if_rst_error_peer drop_space live failed_post peer_cancel (codes "stream ID 3") b' '
      (codes "CANCEL") failed_post-is_coded failed_post-Beneath peer_cancel-text_of cancel_name

-- An encoder for messages without details.
abbrev small_wire : Wire
small_wire = record {
  append_tag = λ num typ. num ∷ typ ∷ [];
  append_varint = λ n. n ∷ [];
  append_bytes = λ bytes. bytes;
  consume_tag = λ _. fail (opaque []);
  consume_varint = λ _. fail (opaque []);
  consume_bytes = λ _. fail (opaque []);
  consume_value = λ _ _ _. fail (opaque []);
  marshal_any = λ a. ok a.value;
  unmarshal_any = λ _. fail (opaque []);
  encode_base64 = λ s. s;
  decode_raw = ok;
  decode_padded = ok;
  quote = quote;
}

abbrev denied : GoError
denied = coded (record {
  code = permission_denied;
  message = b'n' ∷ b'o' ∷ 0xe9 ∷ [];
  details = [];
  remote = false;
})

no_details : Headers.get details_key [] ≡ []
unfolding Headers.get find
no_details = refl

denied_form :
    error_for_trailer small_wire (error_to_trailer small_wire [] (some denied))
    ≡ result (some (remote_form denied (wire_verdict denied)))
unfolding as_error verdict error_code
denied_form =
    (error_for_trailer-error_to_trailer small_wire [] no_details).1 denied
      (refl, omega arith, ground arith)

error_for_trailer-error_to_trailer_example :
    (error_for_trailer small_wire (error_to_trailer small_wire [] none) ≡ result none)
    × ((e : GoError)
        → IsPlain e (wire_verdict e)
        → error_for_trailer small_wire (error_to_trailer small_wire [] (some e))
          ≡ result (some (remote_form e (wire_verdict e))))
error_for_trailer-error_to_trailer_example =
    error_for_trailer-error_to_trailer small_wire [] no_details
