-- ===== src/Envelope/Frame.antt =====
-- `envelope.Read` is a reader of the frame: the prefix, and the data behind it.
use connect_go.Base.{
  ℕ, suc, ◌+◌, ◌-◌, ◌^◌, ◌≤◌, ◌<◌, ◌≡◌, refl, Bool, true, false, ◌&&◌, [], ◌∷◌, ◌++◌, none, some,
  Text, arith, ltb, ◌==◌, if◌then◌else◌, length, take, drop, append-nil, ap, sym, ◌∙◌, Bool-cases,
  inl, inr, length-append, length-take, length-drop,
}
use connect_go.Errors.{io_eof}
use connect_go.Streams.{ok}
use connect_go.Streams.Laws.{take-append, drop-append, take_all, drop_all}
use connect_go.Envelope.{
  Envelope, make_prefix, put_uint32, get_uint32, Outcome, returned, advance, end_of, read,
  read_prefix, read_contents,
}

-- The bytes of an envelope on the wire.
unfoldable pub frame : Envelope → Text
frame e = (e.flags ∷ put_uint32 (length e.contents)) ++ e.contents

-- An envelope that can be sent, with a position in its frame.
pub record IsSendable (e : Envelope) : Type 0 where
  pub fits : length e.contents < 2 ^ 32
  pub within : e.offset ≤ end_of e

pub get_uint32-put_uint32 : (n : ℕ) → n < 2 ^ 32 → get_uint32 (put_uint32 n) ≡ n
unfolding get_uint32 put_uint32
get_uint32-put_uint32 n h = omega arith

pub make_prefix_fits : (flags n : ℕ) → n < 2 ^ 32 → make_prefix flags n ≡ ok (flags ∷ put_uint32 n)
unfolding make_prefix
make_prefix_fits flags n h = ground arith

pub length-put_uint32 : (n : ℕ) → length (put_uint32 n) ≡ 4
unfolding put_uint32
length-put_uint32 n = refl

-- What Read returns at the position, with room for `n` bytes.
abbrev pub next_bytes : ℕ → Envelope → Text
next_bytes n e = take n (drop e.offset (frame e))

read_contents_lem :
    (head : Text) (n : ℕ) (e : Envelope)
    → 5 ≤ e.offset
    → e.offset ≤ end_of e
    → read_contents head n e ≡ (
        let chunk = take n (drop (e.offset - 5) e.contents) in
        returned
          (head ++ chunk)
          (if length (head ++ chunk) == 0 && e.offset + length chunk == end_of e
            then some io_eof
            else none)
          (advance e (length chunk)))
unfolding read_contents
read_contents_lem head n e lo hi = ground arith

abbrev prefix_of : Envelope → Text
prefix_of e = e.flags ∷ put_uint32 (length e.contents)

length-prefix_of : (e : Envelope) → length (prefix_of e) ≡ 5
length-prefix_of e = ap suc (length-put_uint32 (length e.contents))

pub drop-frame_contents :
    (e : Envelope) → 5 ≤ e.offset → drop e.offset (frame e) ≡ drop (e.offset - 5) e.contents
unfolding frame
drop-frame_contents e h =
    drop-append e.offset (prefix_of e) e.contents
    ∙ rw (drop_all e.offset (prefix_of e) (omega (arith, length-prefix_of e)), length-prefix_of e)
        refl

pub drop-frame_prefix :
    (e : Envelope)
    → e.offset < 5
    → drop e.offset (frame e) ≡ drop e.offset (prefix_of e) ++ e.contents
unfolding frame
drop-frame_prefix e h =
    let none_left : e.offset - 5 ≡ 0 = omega arith in
    drop-append e.offset (prefix_of e) e.contents ∙ rw (length-prefix_of e, none_left) refl

pub length-frame : (e : Envelope) → length (frame e) ≡ end_of e
unfolding frame
length-frame e = omega (arith, length-append (prefix_of e) e.contents, length-prefix_of e)

-- What is returned together with some bytes: EOF only at the end, and with no bytes.
abbrev pub read_result : Text → Envelope → Outcome Text
read_result got e =
    returned got
      (if length got == 0 && e.offset + length got == end_of e then some io_eof else none)
      (advance e (length got))

read-contents :
    (n : ℕ) (e : Envelope)
    → 5 ≤ e.offset
    → e.offset ≤ end_of e
    → read n e ≡ read_result (next_bytes n e) e
unfolding read
read-contents n e lo hi =
    let later : ltb e.offset 5 ≡ false = ground arith in
    rw (later, drop-frame_contents e lo) (read_contents_lem [] n e lo hi)

left_of_prefix : Envelope → Text
left_of_prefix e = drop e.offset (prefix_of e)

length-left_of_prefix : (e : Envelope) → length (left_of_prefix e) ≡ 5 - e.offset
unfolding left_of_prefix
length-left_of_prefix e = omega (arith, length-drop e.offset (prefix_of e), length-prefix_of e)

next_bytes_prefix :
    (n : ℕ) (e : Envelope)
    → e.offset < 5
    → next_bytes n e ≡ take n (left_of_prefix e) ++ take (n - (5 - e.offset)) e.contents
unfolding left_of_prefix
next_bytes_prefix n e h =
    ap (take n) (drop-frame_prefix e h)
    ∙ take-append n (left_of_prefix e) e.contents
    ∙ ap (λ k. take n (left_of_prefix e) ++ take (n - k) e.contents) (length-left_of_prefix e)

-- The bytes of the prefix and those behind it make one result.
result_regroup :
    (pre chunk : Text) (e : Envelope)
    → returned
        (pre ++ chunk)
        (if length (pre ++ chunk) == 0 && e.offset + length pre + length chunk == end_of e
          then some io_eof
          else none)
        (advance (advance e (length pre)) (length chunk))
      ≡ read_result (pre ++ chunk) e
result_regroup pre chunk e =
    let q : e.offset + length pre + length chunk ≡ e.offset + length (pre ++ chunk) =
      omega (arith, length-append pre chunk) in
    rw q refl

-- The two ways through the prefix: the slice ends inside it, or reaches the data.
read_prefix_short :
    (n : ℕ) (e : Envelope)
    → e.offset < 5
    → n < 5 - e.offset
    → read_prefix n e (ok (prefix_of e)) ≡ read_result (next_bytes n e) e
unfolding read_prefix left_of_prefix
read_prefix_short n e h short =
    let head = take n (left_of_prefix e) in
    let few : length head ≡ n =
      omega (arith, length-take n (left_of_prefix e), length-left_of_prefix e) in
    let nothing : n - (5 - e.offset) ≡ 0 = omega arith in
    let all : next_bytes n e ≡ head = next_bytes_prefix n e h ∙ rw nothing (append-nil head) in
    let inside : ltb (e.offset + length head) 5 ≡ true = ground arith in
    let not_end : (e.offset + length head == end_of e) ≡ false = ground arith in
    rw (all, inside, not_end) (no_eof (length head == 0))
  where
    no_eof :
        (b : Bool)
        → returned (take n (left_of_prefix e)) none (advance e (length (take n (left_of_prefix e))))
          ≡ returned
              (take n (left_of_prefix e))
              (if b && false then some io_eof else none)
              (advance e (length (take n (left_of_prefix e))))
    no_eof true = refl
    no_eof false = refl

read_prefix_long :
    (n : ℕ) (e : Envelope)
    → e.offset < 5
    → 5 - e.offset ≤ n
    → read_prefix n e (ok (prefix_of e)) ≡ read_result (next_bytes n e) e
unfolding read_prefix left_of_prefix
read_prefix_long n e h long =
    let pre = left_of_prefix e in
    let len : length pre ≡ 5 - e.offset = length-left_of_prefix e in
    let whole : take n pre ≡ pre = take_all n pre (omega arith) in
    let outside : ltb (e.offset + length pre) 5 ≡ false = ground arith in
    let start : e.offset + length pre - 5 ≡ 0 = omega arith in
    let left : n - length pre ≡ n - (5 - e.offset) = omega arith in
    rw (whole, outside)
      (read_contents_lem pre (n - length pre) (advance e (length pre)) (omega arith) (omega arith)
        ∙ rw (start, left)
            (result_regroup pre (take (n - (5 - e.offset)) e.contents) e
              ∙ ap (λ t. read_result t e) (sym (next_bytes_prefix n e h ∙ rw whole refl))))

-- Read at any position of a sendable envelope copies the next bytes of its frame, as many as the
-- slice holds or as are left, moves on by them, and reports EOF exactly when nothing is left and
-- nothing was copied.
pub read_lem : (n : ℕ) (e : Envelope) → IsSendable e → read n e ≡ read_result (next_bytes n e) e
read_lem n e s = elim (Bool-cases (ltb e.offset 5)) [
  | inl early ↦
      unfold read in
      rw (early, make_prefix_fits e.flags (length e.contents) s.fits)
        (elim (Bool-cases (ltb n (5 - e.offset))) [
          | inl short ↦ read_prefix_short n e (ground arith) (ground arith)
          | inr long ↦ read_prefix_long n e (ground arith) (ground arith)
        ])
  | inr late ↦ read-contents n e (ground arith) s.within
]
