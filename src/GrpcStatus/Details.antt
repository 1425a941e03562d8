-- ===== src/GrpcStatus/Details.antt =====
-- Error details as `anypb.Any` and back.
use connect_go.Base.{
  ◌≡◌, refl, sym, ap, ◌∙◌, false, [], ◌∷◌, ◌++◌, Text, codes, ◌==◌, arith, append-nil, append_assoc,
}
use connect_go.Errors.{Detail}
use connect_go.GrpcStatus.{
  after_slash, type_name_for_url, has_slash, error_detail_to_any, new_error_detail,
}

after_slash_none : (current s : Text) → has_slash s ≡ false → after_slash current s ≡ current ++ s
unfolding after_slash has_slash
after_slash_none current [] h = sym (rw append-nil refl)
after_slash_none current (c ∷ cs) h =
    let plain : (c == b'/') ≡ false = ground arith in
    rw plain
      (after_slash_none (current ++ c ∷ []) cs (ground arith) ∙ append_assoc current (c ∷ []) cs)

after_slash-prefix :
    (s : Text) → after_slash [] (codes "type.googleapis.com/" ++ s) ≡ after_slash [] s
unfolding after_slash codes
after_slash-prefix s = refl

-- A detail whose type is a plain name comes back from its `anypb.Any` as it was, but for the debug
-- text, which is not sent.
pub new_error_detail-error_detail_to_any :
    (d : Detail)
    → has_slash d.type_name ≡ false
    → new_error_detail (error_detail_to_any d) ≡ record d { debug = [] }
unfolding new_error_detail error_detail_to_any
new_error_detail-error_detail_to_any d h =
    let name : type_name_for_url (error_detail_to_any d).type_url ≡ d.type_name =
      rw h (after_slash-prefix d.type_name ∙ after_slash_none [] d.type_name h) in
    ap (λ n. record { type_name = n; value = d.value; debug = [] }) name
