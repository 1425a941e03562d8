-- ===== src/Envelope/Seeking.antt =====
-- Rewinding an envelope for a retry, and where `envelope.Seek` takes the end to be.
use connect_go.Base.{false, ◌+◌, ◌<◌, ◌^◌, ◌≡◌, refl, arith, ◌∙◌, length, take, none, ◌==◌}
use connect_go.Base.Ints.{pos}
use connect_go.Streams.{ok}
use connect_go.Streams.Laws.{take_all}
use connect_go.Envelope.{Envelope, seek, seek_start, seek_end, unread, read, returned, end_of}
use connect_go.Envelope.Frame.{frame, read_lem, length-frame}

rewound : Envelope → Envelope
rewound e = record e { offset = 0 + 0 }

read-rewound :
    (e : Envelope)
    → length e.contents < 2 ^ 32
    → read (end_of e) (rewound e) ≡ returned (frame e) none (record e { offset = end_of e })
unfolding rewound frame
read-rewound e h =
    let zero : 0 + 0 ≡ 0 = omega arith in
    let whole : take (end_of e) (frame e) ≡ frame e =
      take_all (end_of e) (frame e) (omega (arith, length-frame e)) in
    let some_bytes : (end_of e == 0) ≡ false = ground arith in
    let last : 0 + end_of e ≡ end_of e = omega arith in
    read_lem (end_of e) (record e { offset = 0 + 0 }) (record { fits = h; within = omega arith })
    ∙ rw (zero, whole, length-frame e, some_bytes, last) refl

-- Seek to the start from any position, as a retry of a unary request does, makes the next Read of
-- enough room return the whole frame and stop at its end.
pub read-seek_start :
    (e e' : Envelope)
    → length e.contents < 2 ^ 32
    → seek (pos 0) seek_start e ≡ ok e'
    → read (end_of e) e' ≡ returned (frame e) none (record e { offset = end_of e })
unfolding seek rewound
read-seek_start e e' h k = let q : rewound e ≡ e' = ground arith in rw (← q) (read-rewound e h)

-- Seek relative to the end places the end of the data at its length, five bytes before the end of
-- the frame: five bytes stay unread behind what `io.SeekEnd` should name, the size of the prefix.
pub unread-seek_end : (e e' : Envelope) → seek (pos 0) seek_end e ≡ ok e' → unread e' ≡ 5
unfolding seek unread
unread-seek_end e e' h = ground arith
