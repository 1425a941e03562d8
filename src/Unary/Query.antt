-- ===== src/Unary/Query.antt =====
-- connecthttp/protocol_connect.go: how `connectHandler.NewConn` reads a request, a GET from its query.
--
-- `url.ParseQuery` and the readers of URL-safe base64 are parameters, and so is
-- `checkServerStreamsCanFlush`, as its result.
use connect_go.Base.{
  ◌%◌, Bool, true, false, ◌&&◌, not, List, [], ◌∷◌, ◌++◌, Option, none, some, Text, codes, eq_text,
  ◌==◌, if◌then◌else◌, length,
}
use connect_go.Codes.{invalid_argument}
use connect_go.Compression.{Pools, Negotiated, agreed, refused, negotiate}
use connect_go.ContentTypes
use connect_go.ContentTypes.{connect_content_type, connect_codec, check_protocol_version}
use connect_go.Errors.{GoError, new_error}
use connect_go.Headers
use connect_go.Headers.{Headers}
use connect_go.Streams.{Stream}

pub record UrlLibrary : Type 0 where
  pub parse_query : Text → List (Text × Text)
  pub read_raw_url : Text → Stream
  pub read_padded_url : Text → Stream

-- What NewConn reads of the handler.
pub record ConnectHandler : Type 0 where
  pub unary : Bool
  pub pools : Pools
  pub require_header : Bool
  pub flush_error : Option GoError
  pub has_codec : Text → Bool
  pub quote : Text → Text

pub record HttpRequest : Type 0 where
  pub method : ContentTypes.Method
  pub raw_query : Text
  pub header : Headers
  pub body : Stream

-- What NewConn knows of a request: what it negotiated, its error, and where the message is.
pub record Incoming : Type 0 where
  pub request_compression : Text
  pub response_compression : Text
  pub failed : Option GoError
  pub body : Stream
  pub codec_name : Text
  pub content_type : Text

-- `Values.Get` and `Values.Has`
unfoldable pub query_get : Text → List (Text × Text) → Text
query_get key [] = []
query_get key ((k, v) ∷ ps) = if eq_text k key then v else query_get key ps

unfoldable pub query_has : Text → List (Text × Text) → Bool
query_has key [] = false
query_has key ((k, v) ∷ ps) = if eq_text k key then true else query_has key ps

-- `binaryQueryValueReader` and `queryValueReader`
unfoldable pub binary_query_value_reader : UrlLibrary → Text → Stream
binary_query_value_reader lib s =
    if length s % 4 == 0 then lib.read_padded_url s else lib.read_raw_url s

unfoldable pub query_value_reader : UrlLibrary → Text → Bool → Stream
query_value_reader lib s base64_encoded =
    if base64_encoded then binary_query_value_reader lib s else record { bytes = s; fault = none }

abbrev pub is_get : ContentTypes.Method → Bool
is_get ContentTypes.get = true
is_get ContentTypes.post = false
is_get (ContentTypes.other m) = false

abbrev pub content_encoding : Bool → HttpRequest → List (Text × Text) → Text
content_encoding unary r query =
    if unary
    then if is_get r.method
      then query_get (codes "compression") query
      else Headers.get (codes "Content-Encoding") r.header
    else Headers.get (codes "Connect-Content-Encoding") r.header

abbrev pub accept_encoding : Bool → HttpRequest → Text
accept_encoding unary r =
    Headers.get (if unary then codes "Accept-Encoding" else codes "Connect-Accept-Encoding")
      r.header

abbrev pub or_failure : Option GoError → Option GoError → Option GoError
or_failure (some e) o = some e
or_failure none o = o

abbrev pub missing_parameter : List (Text × Text) → Option GoError
missing_parameter query =
    if not (query_has (codes "encoding") query)
    then some (new_error invalid_argument (codes "missing encoding parameter"))
    else if not (query_has (codes "message") query)
    then some (new_error invalid_argument (codes "missing message parameter"))
    else none

abbrev pub unknown_codec : ConnectHandler → Text → Option GoError
unknown_codec h name =
    if h.has_codec name
    then none
    else some (new_error invalid_argument (codes "invalid message encoding: " ++ h.quote name))

-- The request with what was negotiated: a GET, and any other.
abbrev pub read_get :
    ConnectHandler → UrlLibrary → List (Text × Text) → Text → Text → Option GoError → Incoming
read_get h lib query requested responding failed = record {
  request_compression = requested;
  response_compression = responding;
  failed =
      or_failure (or_failure failed (missing_parameter query))
        (unknown_codec h (query_get (codes "encoding") query));
  body =
      query_value_reader lib (query_get (codes "message") query)
        (eq_text (query_get (codes "base64") query) (codes "1"));
  codec_name = query_get (codes "encoding") query;
  content_type = connect_content_type h.unary (query_get (codes "encoding") query);
}

abbrev pub read_post : ConnectHandler → HttpRequest → Text → Text → Text → Option GoError → Incoming
read_post h r content_type requested responding failed = record {
  request_compression = requested;
  response_compression = responding;
  failed = or_failure failed (unknown_codec h (connect_codec h.unary content_type));
  body = r.body;
  codec_name = connect_codec h.unary content_type;
  content_type = content_type;
}

abbrev pub read_request :
    ConnectHandler
    → UrlLibrary
    → HttpRequest
    → List (Text × Text)
    → Text
    → Text
    → Option GoError
    → Incoming
read_request h lib r query requested responding failed =
    if is_get r.method
    then read_get h lib query requested responding failed
    else read_post h r (Headers.get (codes "Content-Type") r.header) requested responding failed

abbrev pub checked_request : ConnectHandler → HttpRequest → List (Text × Text) → Option GoError
checked_request h r query = or_failure h.flush_error (
    check_protocol_version h.quote r.method (query_get (codes "connect") query)
      (Headers.get (codes "Connect-Protocol-Version") r.header) (h.require_header && h.unary))

abbrev pub with_negotiated :
    ConnectHandler → UrlLibrary → HttpRequest → List (Text × Text) → Negotiated → Incoming
with_negotiated h lib r query (agreed requested responding) =
    read_request h lib r query requested responding (checked_request h r query)
with_negotiated h lib r query (refused e) = read_request h lib r query [] [] (some e)

-- `connectHandler.NewConn`, as far as it reads the request.
unfoldable pub read_new_conn : ConnectHandler → UrlLibrary → HttpRequest → Incoming
read_new_conn h lib r =
    let query = lib.parse_query r.raw_query in
    with_negotiated h lib r query
      (negotiate h.quote h.pools (content_encoding h.unary r query) (accept_encoding h.unary r))
