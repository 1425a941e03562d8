-- ===== src/ContentTypes.antt =====
-- Content types and codec names: `grpcCodecForContentType`, `grpcContentTypeForCodecName` and
-- `grpcValidateResponseContentType` of connecthttp/protocol_grpc.go; their counterparts for the
-- Connect protocol and `connectCheckProtocolVersion` of connecthttp/protocol_connect.go; and
-- `canonicalizeContentType` of connecthttp/protocol.go.
--
-- The verb %q of fmt and the functions of mime are parameters.
pub mod Grpc
pub mod Connect
pub mod Canonical
use connect_go.Base.{
  ℕ, ◌+◌, Bool, true, false, not, ◌&&◌, ◌||◌, List, [], ◌∷◌, ◌++◌, Option, none, some, Text, codes,
  eq_text, has_prefix, trim_prefix, ltb, leb, ◌==◌, if◌then◌else◌, length,
}
use connect_go.Codes.{Code, unknown, internal, invalid_argument}
use connect_go.Errors.{GoError, new_error, with_cause, sentinel, wrapped, not_modified}
use connect_go.Statuses.{http_to_code}

abbrev pub proto : Text
proto = codes "proto"

abbrev pub json : Text
json = codes "json"

abbrev pub json_charset_utf8 : Text
json_charset_utf8 = json ++ codes "; charset=utf-8"

abbrev pub grpc_default : Bool → Text
grpc_default web = if web then codes "application/grpc-web" else codes "application/grpc"

abbrev pub grpc_prefix : Bool → Text
grpc_prefix web = grpc_default web ++ codes "+"

-- `grpcCodecForContentType`
unfoldable pub grpc_codec : Bool → Text → Text
grpc_codec web content_type =
    if eq_text content_type (grpc_default web)
    then proto
    else trim_prefix (grpc_prefix web) content_type

-- `grpcContentTypeForCodecName`
unfoldable pub grpc_content_type : Bool → Text → Text
grpc_content_type web name =
    if web
    then grpc_prefix web ++ name
    else if eq_text name proto
    then grpc_default web
    else grpc_prefix web ++ name

-- `connect.Errorf(code, "invalid content-type: %q; expecting %q", got, expected)`
abbrev pub invalid_content_type : (Text → Text) → Code → Text → Text → GoError
invalid_content_type quote c got expected =
    new_error c
      (codes "invalid content-type: " ++ (quote got ++ (codes "; expecting " ++ quote expected)))

-- `grpcValidateResponseContentType`
unfoldable pub grpc_validate : (Text → Text) → Bool → Text → Text → Option GoError
grpc_validate quote web codec got =
    let bare = grpc_default web in
    let prefix = grpc_prefix web in
    if eq_text got (prefix ++ codec) || (eq_text codec proto && eq_text got bare)
    then none
    else some (
        invalid_content_type quote
          (if not (eq_text got bare) && not (has_prefix prefix got) then unknown else internal) got
          (if eq_text codec proto then bare else prefix ++ codec))

-- Whether a call is unary; the other stream types share a prefix.
abbrev pub connect_prefix : Bool → Text
connect_prefix unary = if unary then codes "application/" else codes "application/connect+"

-- `connectCodecForContentType`
unfoldable pub connect_codec : Bool → Text → Text
connect_codec unary content_type = trim_prefix (connect_prefix unary) content_type

-- `connectContentTypeForCodecName`
unfoldable pub connect_content_type : Bool → Text → Text
connect_content_type unary name = connect_prefix unary ++ name

abbrev pub both_json : Text → Text → Bool
both_json a b =
    (eq_text a json && eq_text b json_charset_utf8)
    || (eq_text a json_charset_utf8 && eq_text b json)

-- `errNotModifiedClient`
abbrev pub not_modified_client : GoError
not_modified_client =
    wrapped (codes "HTTP 304: not modified") (sentinel not_modified (codes "not modified"))

-- `connectValidateUnaryResponseContentType`, of a response that is not 200.
unfoldable pub validate_failure : Bool → ℕ → Text → Text → Option GoError
validate_failure is_get status message got =
    if status == 304 && is_get
    then some (with_cause (new_error unknown (codes "HTTP 304: not modified")) not_modified_client)
    else if eq_text got (connect_prefix true ++ json)
        || eq_text got (connect_prefix true ++ json_charset_utf8)
    then none
    else some (new_error (http_to_code status) message)

-- The same, of a response that is 200.
unfoldable pub validate_success : (Text → Text) → Text → Text → Option GoError
validate_success quote codec got =
    let expected = connect_prefix true ++ codec in
    let response_codec = connect_codec true got in
    if not (has_prefix (connect_prefix true) got)
    then some (invalid_content_type quote unknown got expected)
    else if eq_text response_codec codec
    then none
    else if both_json response_codec codec
    then none
    else some (invalid_content_type quote internal got expected)

-- `connectValidateUnaryResponseContentType`
unfoldable pub validate_unary : (Text → Text) → Text → Bool → ℕ → Text → Text → Option GoError
unfolding validate_failure validate_success
validate_unary quote codec is_get status message got =
    if not (status == 200)
    then validate_failure is_get status message got
    else validate_success quote codec got

-- `connectValidateStreamResponseContentType`
unfoldable pub validate_stream : (Text → Text) → Text → Bool → Text → Option GoError
validate_stream quote codec unary got =
    let expected = connect_prefix false ++ codec in
    if not (has_prefix (connect_prefix false) got)
    then some (invalid_content_type quote unknown got expected)
    else if not (eq_text (connect_codec unary got) codec)
    then some (invalid_content_type quote internal got expected)
    else none

pub data Method : Type 0 where
  get post : Method
  other : Text → Method

abbrev pub must_be : (Text → Text) → Text → Text → Text → GoError
must_be quote name value got =
    new_error invalid_argument
      (name ++ (codes " must be " ++ (quote value ++ (codes ": got " ++ quote got))))

abbrev pub missing : (Text → Text) → Text → Text → Text → GoError
missing quote what name value = new_error invalid_argument (
    codes "missing required "
    ++ (what ++ (codes ": set " ++ (name ++ (codes " to " ++ quote value)))))

unfoldable pub check_version : (Text → Text) → Text → Text → Text → Bool → Text → Option GoError
check_version quote what name value required version =
    if length version == 0 && required
    then some (missing quote what name value)
    else if not (length version == 0) && not (eq_text version value)
    then some (must_be quote name value version)
    else none

-- `connectCheckProtocolVersion`, with the query parameter and the header of the request.
unfoldable pub check_protocol_version : (Text → Text) → Method → Text → Text → Bool → Option GoError
unfolding check_version
check_protocol_version quote get query header required =
    check_version quote (codes "query parameter") (codes "connect") (codes "v1") required query
check_protocol_version quote post query header required =
    check_version quote (codes "header") (codes "Connect-Protocol-Version") (codes "1") required
      header
check_protocol_version quote (other method) query header required =
    some (new_error invalid_argument (codes "unsupported method: " ++ quote method))

-- What mime does: `ParseMediaType`, where `none` is its error, and `FormatMediaType`; and
-- `strings.ToLower`.
pub record Mime : Type 0 where
  pub parse : Text → Option (Text × List (Text × Text))
  pub format : Text → List (Text × Text) → Text
  pub to_lower : Text → Text

-- The parameters with the charset dropped, or in lower case.
unfoldable pub canonical_params : (Text → Text) → List (Text × Text) → List (Text × Text)
canonical_params lower [] = []
canonical_params lower ((key, value) ∷ ps) =
    let rest = canonical_params lower ps in
    if eq_text key (codes "charset")
    then (if eq_text (lower value) (codes "utf-8") then rest else (key, lower value) ∷ rest)
    else (key, value) ∷ rest

-- `canonicalizeContentTypeSlow`
unfoldable pub canonicalize_slow : Mime → Text → Text
canonicalize_slow m content_type = elim (m.parse content_type) [
  | none ↦ content_type
  | some (base, params) ↦ m.format base (canonical_params m.to_lower params)
]

-- The loop of `canonicalizeContentType`: the number of slashes, or `none` at a byte that is not
-- plain. A rune above ASCII has bytes above ASCII, so a test of the bytes does.
unfoldable pub count_slashes : ℕ → Text → Option ℕ
count_slashes n [] = some n
count_slashes n (c ∷ cs) =
    let same = count_slashes n cs in
    let more = count_slashes (n + 1) cs in
    if leb b'a' c && leb c b'z'
    then same
    else if c == b'.' || (c == b'+' || c == b'-')
    then same
    else if c == b'/'
    then more
    else none

abbrev pub one_slash : Option ℕ → Bool
one_slash none = false
one_slash (some n) = n == 1

-- `canonicalizeContentType`
unfoldable pub canonicalize : Mime → Text → Text
canonicalize m content_type =
    if one_slash (count_slashes 0 content_type)
    then content_type
    else canonicalize_slow m content_type
