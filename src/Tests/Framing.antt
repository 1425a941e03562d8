-- ===== src/Tests/Framing.antt =====
-- Envelopes and messages at concrete values.
use connect_go.Base.{◌≡◌, refl, true, false, [], ◌∷◌, ◌++◌, none, some, Text, codes, arith, drop}
use connect_go.Base.Ints.{pos}
use connect_go.Compression.{Compressor, compress}
use connect_go.Envelope.Frame.{frame, IsSendable, read_lem, read_result, next_bytes}
use connect_go.Envelope.Output.{write_to_lem, write_result}
use connect_go.Envelope.Seeking.{unread-seek_end}
use connect_go.Envelope.{
  Envelope, returned, read, write_to, seek, seek_start, seek_end, unread, is_set, make_prefix,
}
use connect_go.Errors.Wrap.{Context}
use connect_go.Errors.{opaque}
use connect_go.Messages.Reading
use connect_go.Messages.Reading.{Reader, unmarshal, read_failed, prefix_error}
use connect_go.Messages.RoundTrip.{unmarshal-marshal, Arrives, IsLossless}
use connect_go.Messages.Cutting.{Arriving, cut_prefix_bytes, FailsAs, Reads, read_whole}
use connect_go.Messages.Writing.{marshal_within_limit, PayloadWithin}
use connect_go.Messages.{Writer, framed, marshal, new_envelope}
use connect_go.Streams.{ok, Stream, Sink, write}
use connect_go.Tests.Negotiating.{marker}

-- Three bytes, two of the prefix already read.
abbrev begun : Envelope
begun = record { contents = 7 ∷ 8 ∷ 9 ∷ []; flags = 0; offset = 2 }

begun-IsSendable : IsSendable begun
begun-IsSendable = record { fits = omega arith; within = omega arith }

read_lem_example : read 4 begun ≡ read_result (next_bytes 4 begun) begun
read_lem_example = read_lem 4 begun begun-IsSendable

begun-read : read 4 begun ≡ returned (0 ∷ 0 ∷ 3 ∷ 7 ∷ []) none (record begun { offset = 6 })
unfolding read make_prefix
begun-read = refl

abbrev small_sink : Sink
small_sink = record { log = 1 ∷ []; room = 4; failure = opaque (codes "full") }

write_to_lem_example :
    write_to small_sink begun ≡ write_result (write (drop 2 (frame begun)) small_sink) begun
write_to_lem_example = write_to_lem small_sink begun begun-IsSendable

sought : seek (pos 0) seek_start begun ≡ ok (record begun { offset = 0 })
unfolding seek
sought = refl

sought_end : seek (pos 0) seek_end begun ≡ ok (record begun { offset = 3 })
unfolding seek
sought_end = refl

unread-seek_end_example : unread (record begun { offset = 3 }) ≡ 5
unread-seek_end_example = unread-seek_end begun (record begun { offset = 3 }) sought_end

abbrev live : Context
live = record { err = none; past_deadline = false }

-- Messages that are their own encoding.
abbrev sender : Writer Text
sender = record {
  ctx = live;
  send = λ _. none;
  marshal = ok;
  compress_min_bytes = 2;
  pool = some (marker []);
  send_max_bytes = 10;
  keeps_stats = false;
}

abbrev message : Text
message = 5 ∷ 6 ∷ 7 ∷ []

abbrev on_wire : Envelope
on_wire = new_envelope (9 ∷ message) 1

sender_sent :
    marshal sender (some message)
    ≡ record { payload = some (framed on_wire); stats = none; err = none }
unfolding marshal is_set compress
sender_sent = refl

abbrev receiver : Stream → Reader Text
receiver s = record {
  ctx = live;
  stream = s;
  bytes_read = 0;
  unmarshal = ok;
  pool = some (marker []);
  read_max_bytes = 10;
  keeps_stats = true;
}

pub marker-IsLossless : (name : Text) → IsLossless (marker name)
marker-IsLossless name = record { opens = λ x z h. ground arith; inverts = λ x z h. ground arith }

receiver-IsLossless : (c : Compressor) → some (marker []) ≡ some c → IsLossless c
receiver-IsLossless c h = let q : marker [] ≡ c = ground arith in rw (← q) (marker-IsLossless [])

abbrev wire : Stream
wire = record { bytes = frame on_wire ++ 4 ∷ []; fault = none }

unmarshal-marshal_example :
    Arrives
      (unmarshal (receiver wire))
      message
      (9 ∷ message)
      (record { bytes = 4 ∷ []; fault = none })
unmarshal-marshal_example =
    unmarshal-marshal sender (receiver wire) message message (4 ∷ []) none on_wire none refl refl
      refl receiver-IsLossless sender_sent (omega arith) refl (omega arith) refl refl

marshal_within_limit_example : PayloadWithin 10 (marshal sender (some message))
marshal_within_limit_example = marshal_within_limit sender (some message)

-- Two bytes of a prefix, and a prefix that announces three bytes, with two of them.
abbrev half_prefix : Text
half_prefix = 0 ∷ 0 ∷ []

abbrev half_frame : Text
half_frame = 0 ∷ 0 ∷ 0 ∷ 0 ∷ 3 ∷ 5 ∷ 6 ∷ []

half_prefix_fails :
    FailsAs false (Reading.read (receiver (record { bytes = half_prefix; fault = none })))
half_prefix_fails =
    (read_whole (receiver (record { bytes = half_prefix; fault = none })) half_prefix refl).1
      (cut_prefix_bytes half_prefix (omega arith) (omega arith))

read_whole_example :
    Arriving 10 half_frame
    × ((a : Arriving 10 half_frame)
        → Reads
            (receiver (record { bytes = half_frame; fault = none }))
            half_frame
            a
            (Reading.read (receiver (record { bytes = half_frame; fault = none }))))
read_whole_example =
    read_whole (receiver (record { bytes = half_frame; fault = none })) half_frame refl
