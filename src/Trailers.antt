-- ===== src/Trailers.antt =====
-- connecthttp/protocol_grpc.go: the status of a call in the gRPC trailers, `grpcErrorToTrailer` and
-- `grpcErrorForTrailer`.
pub mod RoundTrip
pub mod Details
use connect_go.Base.{
  ℕ, zero, suc, ◌+◌, ◌%◌, ◌^◌, Bool, true, false, ◌&&◌, ◌||◌, List, [], ◌∷◌, ◌++◌, Option, none,
  some, Text, codes, eq_text, ltb, ◌==◌, if◌then◌else◌, length, drop,
}
use connect_go.Base.Decimal.{decimal, parse_uint}
use connect_go.Codes.{Code, unknown, internal}
use connect_go.Compression.{caused}
use connect_go.Errors.{
  GoError, Verdict, Detail, new_error, text_of, wire_verdict, error_code, with_cause, with_detail,
  with_remote, wrapped, joined, sentinel, trailers_without_status,
}
use connect_go.Headers.{Headers, get, set}
use connect_go.Percent.{percent_encode, percent_decode, Decoded, decoded, invalid, panicked}
use connect_go.Streams.{Try, ok, fail, io_unexpected_eof}
use connect_go.GrpcStatus.{
  Any, Wire, Status, error_detail_to_any, new_error_detail, encode_binary_header,
  decode_binary_header, marshal_status, unmarshal_status,
}

abbrev pub status_key : Text
status_key = codes "Grpc-Status"

abbrev pub message_key : Text
message_key = codes "Grpc-Message"

abbrev pub details_key : Text
details_key = codes "Grpc-Status-Details-Bin"

-- What `grpcErrorForTrailer` returns, or a panic of the decoder.
pub data TrailerStatus : Type 0 where
  result : Option GoError → TrailerStatus
  out_of_range : TrailerStatus

-- `errTrailersWithoutGRPCStatus`: a package variable that wraps io.ErrUnexpectedEOF, so `errors.Is`
-- matches both.
abbrev pub trailers_without_status_error : GoError
trailers_without_status_error =
    wrapped (codes "protocol error: no Grpc-Status trailer: unexpected EOF")
      (joined (sentinel trailers_without_status []) io_unexpected_eof)

abbrev pub no_status : Headers → GoError
no_status h =
    with_cause
      (new_error (if length h == 0 then internal else unknown)
        (codes "protocol error: no Grpc-Status trailer: unexpected EOF"))
      trailers_without_status_error

-- `WithDetail` for each detail that was decoded.
unfoldable pub with_details : GoError → List Any → GoError
with_details e [] = e
with_details e (a ∷ as') = with_details (with_detail e (some (new_error_detail a))) as'

abbrev pub of_status : Try Status → GoError
of_status (fail e) = caused internal (codes "server returned invalid protobuf for error details") e
of_status (ok s) = with_details (with_remote (new_error s.code s.message)) s.details

abbrev pub of_binary : Wire → Try Text → GoError
of_binary w (fail e) =
    caused internal (codes "server returned invalid grpc-status-details-bin trailer") e
of_binary w (ok bytes) = of_status (unmarshal_status w bytes)

abbrev pub with_details_of : Wire → Code → Text → Text → GoError
with_details_of w c message encoded =
    if ltb 0 (length encoded)
    then of_binary w (decode_binary_header w encoded)
    else with_remote (new_error c message)

abbrev pub of_message : Wire → Headers → Code → Decoded → TrailerStatus
of_message w h c (decoded message) = result (some (with_details_of w c message (get details_key h)))
of_message w h c invalid =
    result
      (some (new_error internal (codes "protocol error: invalid error message " ++ w.quote [])))
of_message w h c panicked = out_of_range

abbrev pub of_code : Wire → Headers → Text → Option Code → TrailerStatus
of_code w h status none =
    result
      (some (new_error unknown (codes "protocol error: invalid error code " ++ w.quote status)))
of_code w h status (some c) = of_message w h c (percent_decode (get message_key h))

unfoldable pub read_status : Wire → Headers → Text → TrailerStatus
read_status w h status =
    if length status == 0
    then result (some (no_status h))
    else if eq_text status (codes "0")
    then result none
    else of_code w h status (parse_uint (2 ^ 32) status)

-- `grpcErrorForTrailer`
unfoldable pub error_for_trailer : Wire → Headers → TrailerStatus
error_for_trailer w h = read_status w h (get status_key h)

-- The three trailers, from a code, a message and the encoded details, empty for none.
unfoldable pub put_status : Wire → Headers → Code → Text → Text → Headers
put_status w h c message bin =
    let h' = set message_key (percent_encode message) (set status_key (decimal c) h) in
    if ltb 0 (length bin) then set details_key (encode_binary_header w bin) h' else h'

unfoldable pub to_anys : List Detail → List Any
to_anys [] = []
to_anys (d ∷ ds) = error_detail_to_any d ∷ to_anys ds

abbrev pub put_marshaled : Wire → Headers → Code → Text → Try Text → Headers
put_marshaled w h c message (ok bin) = put_status w h c message bin
put_marshaled w h c message (fail e) =
    put_status w h internal (codes "marshal protobuf status: " ++ text_of e) []

unfoldable pub put_verdict : Wire → Headers → Verdict → Headers
put_verdict w h v =
    if ltb 0 (length v.details)
    then put_marshaled w h (error_code v) v.message
        (marshal_status w (error_code v) v.message (to_anys v.details))
    else put_status w h (error_code v) v.message []

abbrev pub put_found : Wire → Headers → GoError → Option Verdict → Headers
put_found w h e none = put_status w h unknown (text_of e) []
put_found w h e (some v) = put_verdict w h v

-- `grpcErrorToTrailer`: the new trailer. The verdict is that of the `*connect.Error` that `asError`
-- finds.
unfoldable pub error_to_trailer : Wire → Headers → Option GoError → Headers
error_to_trailer w h none = set status_key (codes "0") h
error_to_trailer w h (some e) = put_found w h e (wire_verdict e)
