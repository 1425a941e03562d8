-- ===== src/Errors/Scrub.antt =====
-- What `scrubHandlerError` lets onto the wire.
use connect_go.Base.{false, [], Option, none, some, ◌≡◌, inl, inr, refl, Bool-cases, if◌then◌else◌}
use connect_go.Codes.{Code, internal}
use connect_go.Errors.{
  Sentinel, GoError, new_error, is, as_error, with_cause, Verdict, verdict, found_verdict,
  wire_verdict,
}
use connect_go.Errors.Laws.{as_error_found}
use connect_go.Errors.Wrap.{bare_code, scrub_handler_error, verdict_remote, scrub_found}

-- The verdict that a client may see of a handler's error: that of a local `*connect.Error`, else a
-- bare code with no message and no details.
abbrev bare_verdict : Code → Verdict
bare_verdict c = record { code = c; message = []; details = []; remote = false }

unfoldable pub wire_view : Option Verdict → Code → Verdict
wire_view none bare = bare_verdict bare
wire_view (some v) bare = if v.remote then bare_verdict internal else v

bare_wire :
    (c : Code) (e : GoError) → wire_verdict (with_cause (new_error c []) e) ≡ some (bare_verdict c)
unfolding with_cause as_error verdict
bare_wire c e = refl

bare_is : (c : Code) (e : GoError) (s : Sentinel) → is s (with_cause (new_error c []) e) ≡ is s e
unfolding with_cause is
bare_is c e s = refl

scrub_found_wire :
    (e : GoError) (found : Option GoError)
    → as_error e ≡ found
    → wire_verdict (scrub_found e found) ≡ some (wire_view (found_verdict found) (bare_code e))
unfolding wire_view
scrub_found_wire e none h = bare_wire (bare_code e) e
scrub_found_wire e (some f) h =
    let (v, q, _) = as_error_found e f h in
    elim (Bool-cases v.remote) [
      | inl r ↦ rw (q, r) (bare_wire internal e)
      | inr l ↦ rw (q, l) (rw h q)
    ]

scrub_found_is :
    (e : GoError) (found : Option GoError) (s : Sentinel) → is s (scrub_found e found) ≡ is s e
scrub_found_is e none s = bare_is (bare_code e) e s
scrub_found_is e (some f) s = elim (Bool-cases (verdict_remote (verdict f))) [
  | inl r ↦ rw r (bare_is internal e s)
  | inr l ↦ rw l
]

-- Of a handler's error only a local `*connect.Error` keeps its code, message and details. A remote
-- one becomes CodeInternal and any other a bare code, with no text. Every error still matches the
-- same package variables, so the original stays attached as a local cause.
pub scrub_handler_error_lem :
    (e : GoError)
    → (w : GoError) × (scrub_handler_error (some e) ≡ some w)
      × (wire_verdict w ≡ some (wire_view (wire_verdict e) (bare_code e)))
      × ((s : Sentinel) → is s w ≡ is s e)
unfolding scrub_handler_error
scrub_handler_error_lem e = (
  scrub_found e (as_error e),
  refl,
  scrub_found_wire e (as_error e) refl,
  λ s. scrub_found_is e (as_error e) s,
)
