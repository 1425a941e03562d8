-- ===== src/ContentTypes/Connect.antt =====
-- Connect content types and the protocol version: what is accepted.
use connect_go.Base.{
  ℕ, ◌≡◌, ◌≢◌, ◌⊎◌, ◌↔◌, inl, inr, refl, Bool, true, false, ◌||◌, [], ◌++◌, none, some, Text, codes,
  eq_text, eq_text_iff, eq_text_refl, cut_prefix, cut_prefix-append, cut_prefix-eq-some, has_prefix,
  trim_prefix, arith, if◌then◌else◌, Option-cases,
}
use connect_go.ContentTypes.{
  json, json_charset_utf8, both_json, connect_prefix, connect_codec, connect_content_type,
  validate_success, validate_unary, validate_stream, invalid_content_type, check_version,
  check_protocol_version, get, post, other,
}
use connect_go.Errors.{GoError}

-- Two codec names that stand for the same encoding.
abbrev pub SameCodec : Text → Text → Type 0
SameCodec a b =
    (a ≡ b) ⊎ (((a ≡ json) × (b ≡ json_charset_utf8)) ⊎ ((a ≡ json_charset_utf8) × (b ≡ json)))

SameCodec-iff : (a b : Text) → ((eq_text a b || both_json a b) ≡ true) ↔ SameCodec a b
SameCodec-iff a b = ground (
  arith,
  eq_text_iff a b,
  eq_text_iff a json,
  eq_text_iff b json,
  eq_text_iff a json_charset_utf8,
  eq_text_iff b json_charset_utf8,
)

accepted_of-prefix :
    (quote : Text → Text) (codec name : Text)
    → validate_success quote codec (connect_prefix true ++ name) ≡ (
        if eq_text name codec || both_json name codec
        then none
        else some (
            invalid_content_type quote 13
              (connect_prefix true ++ name)
              (connect_prefix true ++ codec)))
unfolding validate_success connect_codec
accepted_of-prefix quote codec name =
    rw
      (
        cut_prefix-append (connect_prefix true) name,
        validate_success,
        connect_codec,
        has_prefix,
        trim_prefix,
      )
      (ground arith)

refused_without-prefix :
    (quote : Text → Text) (codec got : Text)
    → cut_prefix (connect_prefix true) got ≡ none
    → validate_success quote codec got
      ≡ some (invalid_content_type quote 2 got (connect_prefix true ++ codec))
unfolding validate_success
refused_without-prefix quote codec got h = rw (h, validate_success, has_prefix) refl

-- A 200 response to a unary call is accepted exactly when its content type is `application/` and the
-- request's codec, where the two names of JSON stand for each other.
pub validate_unary_ok :
    (quote : Text → Text) (codec : Text) (is_get : Bool) (message got : Text)
    → (validate_unary quote codec is_get 200 message got ≡ none)
      ↔ ((name : Text) × (got ≡ connect_content_type true name) × SameCodec name codec)
unfolding validate_unary connect_content_type
validate_unary_ok quote codec is_get message got = (only_if, if_so)
  where
    only_if :
        validate_success quote codec got ≡ none
        → (name : Text) × (got ≡ connect_prefix true ++ name) × SameCodec name codec
    only_if h = elim (Option-cases (cut_prefix (connect_prefix true) got)) [
      | inl n ↦ absurd (not_none (rw (refused_without-prefix quote codec got n) at h))
      | inr (name, n) ↦
          let q = cut_prefix-eq-some (connect_prefix true) got name n in
          let k = rw (q, accepted_of-prefix quote codec name) at h in
          (name, q, (SameCodec-iff name codec).0 (ground arith))
    ]
      where
        not_none : {e : GoError} → some e ≡ none → ⊥
        not_none q = cc

    if_so :
        (name : Text) × (got ≡ connect_prefix true ++ name) × SameCodec name codec
        → validate_success quote codec got ≡ none
    if_so (name, q, same) =
        rw (q, accepted_of-prefix quote codec name, (SameCodec-iff name codec).1 same) refl

-- A response that is not 200 is read as an encoded error exactly when it is JSON and not the answer
-- 304 to a GET.
pub validate_unary_failed :
    (quote : Text → Text) (codec : Text) (is_get : Bool) (status : ℕ) (message got : Text)
    → status ≢ 200
    → (validate_unary quote codec is_get status message got ≡ none) ↔ (
        ((got ≡ connect_content_type true json)
          ⊎ (got ≡ connect_content_type true json_charset_utf8))
        × ((status ≡ 304) → is_get ≡ false))
unfolding validate_unary connect_content_type
validate_unary_failed quote codec is_get status message got h = ground (
  arith,
  eq_text_iff got (connect_prefix true ++ json),
  eq_text_iff got (connect_prefix true ++ json_charset_utf8),
)

stream_of-prefix :
    (quote : Text → Text) (codec name : Text)
    → validate_stream quote codec false (connect_prefix false ++ name) ≡ (
        if eq_text name codec
        then none
        else some (
            invalid_content_type quote 13
              (connect_prefix false ++ name)
              (connect_prefix false ++ codec)))
unfolding validate_stream connect_codec
stream_of-prefix quote codec name =
    rw
      (
        cut_prefix-append (connect_prefix false) name,
        validate_stream,
        connect_codec,
        has_prefix,
        trim_prefix,
      )
      (ground arith)

stream_without-prefix :
    (quote : Text → Text) (codec got : Text)
    → cut_prefix (connect_prefix false) got ≡ none
    → validate_stream quote codec false got
      ≡ some (invalid_content_type quote 2 got (connect_prefix false ++ codec))
unfolding validate_stream
stream_without-prefix quote codec got h = rw (h, validate_stream, has_prefix) refl

-- A response to a streaming call is accepted exactly when it has the content type of the request's
-- codec.
pub validate_stream_lem :
    (quote : Text → Text) (codec got : Text)
    → (validate_stream quote codec false got ≡ none) ↔ (got ≡ connect_content_type false codec)
unfolding connect_content_type
validate_stream_lem quote codec got = (only_if, if_so)
  where
    not_none : {e : GoError} → some e ≡ none → ⊥
    not_none q = cc

    only_if : validate_stream quote codec false got ≡ none → got ≡ connect_prefix false ++ codec
    only_if h = elim (Option-cases (cut_prefix (connect_prefix false) got)) [
      | inl n ↦ absurd (not_none (rw (stream_without-prefix quote codec got n) at h))
      | inr (name, n) ↦
          let q = cut_prefix-eq-some (connect_prefix false) got name n in
          let k = rw (q, stream_of-prefix quote codec name) at h in
          let same : name ≡ codec = ground (arith, eq_text_iff name codec) in rw (← same) q
    ]

    if_so : got ≡ connect_prefix false ++ codec → validate_stream quote codec false got ≡ none
    if_so q = rw (q, stream_of-prefix quote codec codec, eq_text_refl codec) refl

query_value_nonempty : codes "v1" ≢ []
unfolding codes
query_value_nonempty = λ e. cc

header_value_nonempty : codes "1" ≢ []
unfolding codes
header_value_nonempty = λ e. cc

-- A request states the version exactly: a GET in the query, a POST in the header. It may leave the
-- version out where the server does not require it, and any other method is refused.
pub check_protocol_version_lem :
    (quote : Text → Text) (query header : Text) (required : Bool)
    → ((check_protocol_version quote get query header required ≡ none)
        ↔ ((query ≡ codes "v1") ⊎ ((query ≡ []) × (required ≡ false))))
      × ((check_protocol_version quote post query header required ≡ none)
          ↔ ((header ≡ codes "1") ⊎ ((header ≡ []) × (required ≡ false))))
      × ((method : Text) → check_protocol_version quote (other method) query header required ≢ none)
unfolding check_protocol_version
check_protocol_version_lem quote query header required = (
  checked (codes "query parameter") (codes "connect") (codes "v1") query query_value_nonempty,
  checked (codes "header") (codes "Connect-Protocol-Version") (codes "1") header
      header_value_nonempty,
  λ method h. cc,
)
  where
    checked :
        (what name value version : Text)
        → value ≢ []
        → (check_version quote what name value required version ≡ none)
          ↔ ((version ≡ value) ⊎ ((version ≡ []) × (required ≡ false)))
    checked what name value version n =
        unfold check_version in ground (arith, eq_text_iff version value)
