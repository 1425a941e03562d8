-- ===== src/Envelope/Output.antt =====
-- `envelope.WriteTo` hands its writer the rest of the frame, wherever the writer fails.
use Prim.Native.Nat.{min}
use connect_go.Base.{
  ℕ, ◌+◌, ◌-◌, ◌≤◌, ◌<◌, ◌≡◌, refl, true, false, ◌∷◌, ◌++◌, Text, arith, ltb, leb, length, take,
  drop, append-nil, append_assoc, ap, sym, ◌∙◌, Bool-cases, inl, inr, length-append, length-drop,
}
use native.Mathlib.Nat.{zero-add}
use connect_go.Streams.{Sink, Wrote, write, ok}
use connect_go.Streams.Laws.{take-append, take_all}
use connect_go.Envelope.{
  Envelope, put_uint32, Outcome, returned, advance, end_of, write_to, write_prefix, write_contents,
}
use connect_go.Envelope.Frame.{
  frame, IsSendable, make_prefix_fits, length-put_uint32, drop-frame_contents, drop-frame_prefix,
}

-- A write that fails in its first part writes nothing of its second.
write-append_short : (p q : Text) (d : Sink) → d.room < length p → write (p ++ q) d ≡ write p d
unfolding write
write-append_short p q d h =
    let longer : length (p ++ q) ≡ length p + length q = length-append p q in
    let nothing : d.room - length p ≡ 0 = omega arith in
    let kept : take d.room (p ++ q) ≡ take d.room p =
      take-append d.room p q ∙ rw nothing (append-nil (take d.room p)) in
    let small : min d.room (length p + length q) ≡ min d.room (length p) = omega arith in
    let fails : leb (length p + length q) d.room ≡ false = ground arith in
    let fails' : leb (length p) d.room ≡ false = ground arith in
    let gone : d.room - (length p + length q) ≡ 0 = omega arith in
    rw (kept, longer, small, fails, fails', gone, nothing) refl

-- Two writes are one, if the first one is whole.
write-append_long :
    (p q : Text) (d : Sink)
    → length p ≤ d.room
    → write (p ++ q) d ≡ (
        let w = write q (write p d).sink in
        record { count = (write p d).count + w.count; err = w.err; sink = w.sink })
unfolding write
write-append_long p q d h =
    let longer : length (p ++ q) ≡ length p + length q = length-append p q in
    let kept : take d.room (p ++ q) ≡ p ++ take (d.room - length p) q =
      take-append d.room p q ∙ rw (take_all d.room p h) refl in
    let first : min d.room (length p) ≡ length p = omega arith in
    let count : min d.room (length p + length q) ≡ length p + min (d.room - length p) (length q) =
      omega arith in
    let err : leb (length p + length q) d.room ≡ leb (length q) (d.room - length p) =
      ground arith in
    let room : d.room - (length p + length q) ≡ d.room - length p - length q = omega arith in
    rw (kept, longer, count, err, room, take_all d.room p h, first, append_assoc) refl

-- What WriteTo returns for one write.
abbrev pub write_result : Wrote → Envelope → Outcome (ℕ × Sink)
write_result w e = returned (w.count, w.sink) w.err (advance e w.count)

write_contents_lem :
    (n : ℕ) (d : Sink) (e : Envelope)
    → 5 ≤ e.offset
    → e.offset ≤ end_of e
    → write_contents n d e ≡ (
        let w = write (drop (e.offset - 5) e.contents) d in
        returned (n + w.count, w.sink) w.err (advance e w.count))
unfolding write_contents
write_contents_lem n d e lo hi =
    let inside : ltb (length e.contents) (e.offset - 5) ≡ false = ground arith in rw inside refl

length-left :
    (e : Envelope)
    → length (drop e.offset (e.flags ∷ put_uint32 (length e.contents))) ≡ 5 - e.offset
length-left e = omega (
  arith,
  length-drop e.offset (e.flags ∷ put_uint32 (length e.contents)),
  length-put_uint32 (length e.contents),
)

pub write-count : (p : Text) (d : Sink) → (write p d).count ≡ min d.room (length p)
unfolding write
write-count p d = refl

write_prefix_short :
    (d : Sink) (e : Envelope) (p : Text)
    → e.offset < 5
    → length (drop e.offset p) ≡ 5 - e.offset
    → d.room < 5 - e.offset
    → write_prefix d e (ok p) ≡ write_result (write (drop e.offset p) d) e
unfolding write_prefix
write_prefix_short d e p h len short =
    let inside : ltb (e.offset + (write (drop e.offset p) d).count) 5 ≡ true =
      ground (arith, write-count (drop e.offset p) d) in
    rw inside refl

write_prefix_long :
    (d : Sink) (e : Envelope) (p : Text)
    → e.offset < 5
    → length (drop e.offset p) ≡ 5 - e.offset
    → 5 - e.offset ≤ d.room
    → write_prefix d e (ok p) ≡ write_result (write (drop e.offset p ++ e.contents) d) e
unfolding write_prefix
write_prefix_long d e p h len long =
    let first = write (drop e.offset p) d in
    let count : first.count ≡ 5 - e.offset = omega (arith, write-count (drop e.offset p) d) in
    let outside : ltb (e.offset + first.count) 5 ≡ false = ground arith in
    let start : e.offset + first.count - 5 ≡ 0 = omega arith in
    let both = write-append_long (drop e.offset p) e.contents d (omega arith) in
    let q : e.offset + first.count + (write e.contents first.sink).count
        ≡ e.offset + (first.count + (write e.contents first.sink).count) =
      omega arith in
    rw (outside, both)
      (write_contents_lem first.count first.sink (advance e first.count) (omega arith) (omega arith)
        ∙ rw start (rw q refl))

write_prefix_lem :
    (d : Sink) (e : Envelope)
    → e.offset < 5
    → write_prefix d e (ok (e.flags ∷ put_uint32 (length e.contents)))
      ≡ write_result
          (write (drop e.offset (e.flags ∷ put_uint32 (length e.contents)) ++ e.contents) d)
          e
write_prefix_lem d e h =
    let p = e.flags ∷ put_uint32 (length e.contents) in
    elim (Bool-cases (ltb d.room (5 - e.offset))) [
      | inl short ↦
          write_prefix_short d e p h (length-left e) (ground arith)
          ∙ ap (λ w. write_result w e)
              (sym
                (write-append_short (drop e.offset p) e.contents d (ground (arith, length-left e))))
      | inr long ↦ write_prefix_long d e p h (length-left e) (ground arith)
    ]

-- WriteTo at any position of a sendable envelope is one write of what is left of its frame: the same
-- bytes reach the writer, the same count and error come back, and the position moves by the count.
pub write_to_lem :
    (d : Sink) (e : Envelope)
    → IsSendable e
    → write_to d e ≡ write_result (write (drop e.offset (frame e)) d) e
write_to_lem d e s = elim (Bool-cases (ltb e.offset 5)) [
  | inl early ↦
      unfold write_to in
      rw (early, make_prefix_fits e.flags (length e.contents) s.fits)
        (write_prefix_lem d e (ground arith)
          ∙ ap (λ t. write_result (write t d) e) (sym (drop-frame_prefix e (ground arith))))
  | inr late ↦
      unfold write_to in
      rw (late, drop-frame_contents e (ground arith))
        (write_contents_lem 0 d e (ground arith) s.within ∙ zero_count d e)
]
  where
    zero_count :
        (d : Sink) (e : Envelope)
        → (let w = write (drop (e.offset - 5) e.contents) d in
            returned (0 + w.count, w.sink) w.err (advance e w.count))
          ≡ write_result (write (drop (e.offset - 5) e.contents) d) e
    zero_count d e = rw zero-add refl
