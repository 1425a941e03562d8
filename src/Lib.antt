-- ===== src/Lib.antt =====
-- Verification of connect-go, the Go implementation of RPC over the Connect, gRPC and gRPC-Web
-- protocols.
--
-- The program. connect.go is the core: codes and errors, metadata, and the `Client` and `Server`
-- that run a call over a `Transport`. connecthttp/ is the HTTP transport: it frames messages into
-- envelopes (envelope.go), compresses them with named pools (compression.go), carries deadlines and
-- errors in headers and trailers (protocol_connect.go, protocol_grpc.go, error.go), and picks codecs
-- and compressions per request (protocol.go). The other directories are a second transport, the
-- protobuf and gzip plug-ins, the code generator and a migration tool.
--
-- The modules, and the code that each is about:
--   Base          bytes and text, decimal numbers and `strconv`, lists, tests into Bool
--   Codes         connect.go: `Code.String`, `MarshalText`, `UnmarshalText`
--   Errors        connect.go: `Error` and its methods, `CodeOf`; Errors/Wrap and Errors/Reset:
--                 connecthttp/error.go
--   Streams       `io.ReadFull`, `io.CopyN`, `io.Copy`, `io.LimitReader` and `io.Writer`
--   Percent       connecthttp/protocol_grpc.go: `grpcPercentEncode`, `grpcPercentDecode`
--   Timeouts      connecthttp/protocol_grpc.go: `grpcEncodeTimeout`, `grpcParseTimeout`;
--                 Timeouts/Milliseconds: the Connect-Timeout-Ms header of protocol_connect.go
--   Compression   connecthttp/compression.go, and `negotiateCompression` of connecthttp/protocol.go
--   Envelope      connecthttp/envelope.go: `envelope` as io.Reader, io.WriterTo and io.Seeker
--   Messages      connecthttp/envelope.go: `envelopeWriter`; Messages/Reading: `envelopeReader`
--   Headers       connecthttp/header.go; Headers/Metadata: `Header` of connect.go
--   ContentTypes  the content types and versions of connecthttp/protocol_grpc.go,
--                 connecthttp/protocol_connect.go and connecthttp/protocol.go
--   Statuses      `connectCodeToHTTP`, `httpToCode`
--   GrpcStatus    google.rpc.Status of connecthttp/protocol_grpc.go and connectproto/errordetail.go
--   Trailers      connecthttp/protocol_grpc.go: `grpcErrorToTrailer`, `grpcErrorForTrailer`
--   Server        connect.go: `Server`, interceptors, and the contexts of handlers
--   Client        connect.go: `Client`, `CallInfo`, `ensureClientContext`
--   Inprocess     connectinprocess/unary.go, and `asClientErr` and `syncHeader` of
--                 connectinprocess/stream.go
--   HttpCall      connecthttp/duplex_http_call.go: `duplexHTTPCall`; its
--                 children Payloads, Responses and Body: `Send`, the reads, `payloadCloser`
--   Unary         connecthttp/protocol_connect.go: `connectUnaryMarshaler`,
--                 `connectUnaryUnmarshaler`; Unary/Get: `connectUnaryRequestMarshaler`;
--                 Unary/Query: `connectHandler.NewConn`, as far as it reads a request
--   StreamPair    connectinprocess/stream.go: `streamPair`
--   Tests         runs at concrete values
-- A module's children hold its theorems, named for what they are about.
--
-- State and errors. A byte, a Go string and a byte slice are numbers below 256 and lists of them. A
-- function that changes an object takes it and returns it: an envelope with its position, a reader
-- with the stream that is left, a sink with what it has taken. An `error` is a `GoError`, the tree
-- that `errors.Is` and `errors.As` walk; a nil one is `none`. A panic is a value, `panicked`.
-- Durations are int64 numbers of nanoseconds and sizes are int or int64, both read as integers, with
-- the wrap-around of a product written out and hypotheses that keep a size below 2^63.
--
-- Parameters. A codec, a compressor, a sender, protowire, base64, mime, the canonical form of a header
-- key and fmt's %q are arguments, with what their documentation says of them as hypotheses. A reader
-- is the bytes that it will yield and how it ends, so chunks of a read do not show. Loops are over
-- lists, but for the one of `grpcUnmarshalStatus`, whose fuel is the number of its bytes: every field
-- that it reads has one at least, so more fuel changes nothing.
--
-- Interleavings. A duplex call is a step relation: its user sends and closes, the client answers, the
-- context ends, in any order, and what holds is proved by induction over the runs. The goroutine of
-- `makeRequest` is the two steps at its ends.
-- A stream inside the process is another: a call that blocks in a select is part of its state.
--
-- Not modelled: HTTP itself, the handlers and connections over it (handler.go, client_stream.go,
-- server_stream.go, and their parts of the protocol files), the JSON encodings of the Connect protocol,
-- and the tools under cmd/. Buffer pooling is not modelled, nor is the branch of `discard` for a reader
-- that is already limited.
pub mod Base
pub mod Codes
pub mod Percent
pub mod Timeouts
pub mod Errors
pub mod Headers
pub mod ContentTypes
pub mod Statuses
pub mod Streams
pub mod Compression
pub mod Envelope
pub mod Messages
pub mod Client
pub mod GrpcStatus
pub mod HttpCall
pub mod Inprocess
pub mod Server
pub mod StreamPair
pub mod Trailers
pub mod Unary
pub mod Tests
