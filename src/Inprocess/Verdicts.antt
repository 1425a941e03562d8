-- ===== src/Inprocess/Verdicts.antt =====
-- The verdict of a handler's error inside the process, and the one that `scrubHandlerError` sends.
use connect_go.Base.{
  ◌≡◌, ◌⊎◌, inl, inr, refl, true, false, [], Option, none, some, Bool-cases, Option-cases, arith,
}
use connect_go.Codes.{Code, internal}
use connect_go.Errors.Laws.{as_error_found}
use connect_go.Errors.Scrub.{wire_view, scrub_handler_error_lem}
use connect_go.Errors.Wrap.{bare_code, is_coded, scrub_handler_error}
use connect_go.Errors.{
  GoError, sentinel, opaque, max_bytes, url_error, wrapped, joined, coded, coded_by,
  special_envelope, new_error, is, os_deadline, as_error, with_cause, with_remote, Verdict, verdict,
  found_verdict, wire_verdict, mark_remote,
}
use connect_go.Inprocess.{client_code, as_client_err, as_found}

bare_remote :
    (c : Code) (e : GoError)
    → wire_verdict (with_remote (with_cause (new_error c []) e))
      ≡ some (record { code = c; message = []; details = []; remote = true })
unfolding with_remote with_cause as_error verdict
bare_remote c e = refl

found_remote :
    (f : GoError) (v : Verdict)
    → verdict f ≡ some v
    → wire_verdict (with_remote f) ≡ some (mark_remote v)
unfolding with_remote as_error verdict
found_remote (coded w) v h = ground arith
found_remote (coded_by w e) v h = ground arith
found_remote special_envelope v h = ground arith
found_remote (sentinel s t) v h = ground arith
found_remote (opaque t) v h = ground arith
found_remote (max_bytes n) v h = ground arith
found_remote (url_error p e) v h = ground arith
found_remote (wrapped t e) v h = ground arith
found_remote (joined a b) v h = ground arith

as_found_wire :
    (e : GoError) (found : Option GoError)
    → as_error e ≡ found
    → wire_verdict (as_found e found)
      ≡ some (mark_remote (wire_view (found_verdict found) (client_code e)))
unfolding wire_view
as_found_wire e none h = bare_remote (client_code e) e
as_found_wire e (some f) h =
    let (v, q, _) = as_error_found e f h in
    elim (Bool-cases v.remote) [
      | inl r ↦ rw (q, r) (bare_remote internal e)
      | inr l ↦ rw (q, l) (found_remote f v q)
    ]

same_code : (e : GoError) → is os_deadline e ≡ false → client_code e ≡ bare_code e
unfolding client_code bare_code
same_code e h = ground arith

false_ne : {B : Type 0} → false ≡ true → B
false_ne h = cc

same_view :
    (e : GoError)
    → (is_coded e ≡ true) ⊎ (is os_deadline e ≡ false)
    → wire_view (wire_verdict e) (client_code e) ≡ wire_view (wire_verdict e) (bare_code e)
unfolding wire_view
same_view e (inr h) = rw (same_code e h) refl
same_view e (inl h) = elim (Option-cases (as_error e)) [
  | inl n ↦ false_ne (rw n at h)
  | inr (f, n) ↦ let (v, q, _) = as_error_found e f n in rw (n, q) refl
]

-- A client inside the process sees of a handler's error the same code, message and details as a
-- client across a wire, to which `scrubHandlerError` gives them, marked as remote. The exception is
-- an error with no code that matches `os.ErrDeadlineExceeded`.
pub as_client_err-scrub_handler_error :
    (e : GoError)
    → (is_coded e ≡ true) ⊎ (is os_deadline e ≡ false)
    → (w : GoError) × (v : Verdict) × (scrub_handler_error (some e) ≡ some w)
      × (wire_verdict w ≡ some v)
      × (wire_verdict (as_client_err e) ≡ some (mark_remote v))
unfolding as_client_err
as_client_err-scrub_handler_error e h =
    let (w, q, view, _) = scrub_handler_error_lem e in
    (
      w,
      wire_view (wire_verdict e) (bare_code e),
      q,
      view,
      rw (← same_view e h) (as_found_wire e (as_error e) refl),
    )
