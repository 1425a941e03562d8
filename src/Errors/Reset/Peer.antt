-- ===== src/Errors/Reset/Peer.antt =====
-- What becomes of an HTTP/2 reset that the peer sent, and of any other error.
use connect_go.Base.{
  ℕ, ◌-◌, ◌≡◌, refl, ap, sym, subst, ◌∙◌, true, false, Bool, List, [], ◌∷◌, ◌++◌, Option, none,
  some, Text, codes, eq_text, if◌then◌else◌, eq_text_refl, cut_prefix-append, has_prefix, All,
  arith, leb, ◌==◌, length, length-append, take_append, drop_append, append_assoc, Bool-cases, inl,
  inr,
}
use connect_go.Codes.{
  Code, canceled, deadline_exceeded, resource_exhausted, internal, unavailable, permission_denied,
}
use connect_go.Errors.Reset.{
  cut_suffix, after_semicolon, trimmed, reset_name, reset_code, reset_error, code_for,
  wrap_if_rst_error, classify,
}
use connect_go.Errors.Wrap.{Context, is_coded}
use connect_go.Errors.{
  GoError, Sentinel, is, text_of, with_cause, as_error, as_url_cause, code_of, verdict, error_code,
}

has_prefix-append : (p a b c : Text) → has_prefix p (((p ++ a) ++ b) ++ c) ≡ true
has_prefix-append p a b c =
    rw
      (
        append_assoc (p ++ a) b c,
        append_assoc p a (b ++ c),
        cut_prefix-append p (a ++ (b ++ c)),
        has_prefix,
      )
      refl

cut_suffix-append : (suffix s : Text) → cut_suffix suffix (s ++ suffix) ≡ some s
unfolding cut_suffix
cut_suffix-append suffix s =
    let n : length (s ++ suffix) - length suffix ≡ length s =
      omega (arith, length-append s suffix) in
    let fits : leb (length suffix) (length (s ++ suffix)) ≡ true =
      ground (arith, length-append s suffix) in
    rw (fits, n, drop_append s suffix, eq_text_refl suffix, take_append s suffix) refl

-- A text without a semicolon.
abbrev pub IsName : Text → Type 0
IsName = All (λ c. (c == b';') ≡ false)

after_semicolon_none :
    (found : Option Text) (name : Text) → IsName name → after_semicolon found name ≡ found
unfolding after_semicolon
after_semicolon_none found [] h = refl
after_semicolon_none found (c ∷ cs) h = rw h.0 (after_semicolon_none found cs h.1)

after_semicolon-append :
    (found : Option Text) (front name : Text)
    → IsName name
    → after_semicolon found (front ++ b';' ∷ name) ≡ some name
unfolding after_semicolon
after_semicolon-append found [] name h = after_semicolon_none (some name) name h
after_semicolon-append found (c ∷ cs) name h = elim (Bool-cases (c == b';')) [
  | inl e ↦ rw e (after_semicolon-append (some (cs ++ b';' ∷ name)) cs name h)
  | inr e ↦ rw e (after_semicolon-append found cs name h)
]

-- The text of a reset by the peer: what stands in front of the last semicolon, and the name.
abbrev pub reset_message : Text → Text → Text
reset_message about name =
    ((codes "stream error: " ++ about) ++ b';' ∷ name) ++ codes "; received from peer"

reset_name-reset_message :
    (trim_space : Text → Text) (about name : Text)
    → IsName name
    → reset_name trim_space (reset_message about name) ≡ trimmed trim_space (some name)
unfolding reset_name
reset_name-reset_message trim_space about name h =
    let front = (codes "stream error: " ++ about) ++ b';' ∷ name in
    let prefixed : has_prefix (codes "stream error: ") (front ++ codes "; received from peer")
        ≡ true =
      has_prefix-append (codes "stream error: ") about (b';' ∷ name)
        (codes "; received from peer") in
    rw
      (
        prefixed,
        cut_suffix-append (codes "; received from peer") front,
        after_semicolon-append none (codes "stream error: " ++ about) name h,
      )
      refl

-- The names of HTTP/2 errors that say something of the call, each with its code before and after the
-- deadline.
abbrev pub http2_errors : List (Text × (Code × Code))
http2_errors =
    (codes "NO_ERROR", (internal, internal))
    ∷ (codes "PROTOCOL_ERROR", (internal, internal))
    ∷ (codes "INTERNAL_ERROR", (internal, internal))
    ∷ (codes "FLOW_CONTROL_ERROR", (internal, internal))
    ∷ (codes "SETTINGS_TIMEOUT", (internal, internal))
    ∷ (codes "FRAME_SIZE_ERROR", (internal, internal))
    ∷ (codes "COMPRESSION_ERROR", (internal, internal))
    ∷ (codes "CONNECT_ERROR", (internal, internal))
    ∷ (codes "REFUSED_STREAM", (unavailable, unavailable))
    ∷ (codes "CANCEL", (canceled, deadline_exceeded))
    ∷ (codes "ENHANCE_YOUR_CALM", (resource_exhausted, resource_exhausted))
    ∷ (codes "INADEQUATE_SECURITY", (permission_denied, permission_denied))
    ∷ []

abbrev pub code_in : Bool → Text → List (Text × (Code × Code)) → Option Code
code_in late name [] = none
code_in late name ((k, (before, after)) ∷ rows) =
    let others = code_in late name rows in
    if eq_text name k then some (if late then after else before) else others

reset_code-code_in :
    (ctx : Context) (name : Text)
    → reset_code ctx name ≡ code_in ctx.past_deadline name http2_errors
unfolding reset_code
reset_code-code_in ctx name = ground arith

reset_code_ne_zero :
    (ctx : Context) (name : Text) (c : Code) → reset_code ctx name ≡ some c → (c == 0) ≡ false
unfolding reset_code
reset_code_ne_zero ctx name c h = ground arith

reset_error-code_of :
    (e : GoError) (c : Code) → (c == 0) ≡ false → code_of (reset_error e (some c)) ≡ c
unfolding with_cause code_of as_error verdict error_code
reset_error-code_of e c h = rw h refl

reset_error-is : (e : GoError) (o : Option Code) (s : Sentinel) → is s (reset_error e o) ≡ is s e
unfolding with_cause is
reset_error-is e none s = refl
reset_error-is e (some c) s = refl

-- What an error says beneath a `*url.Error`, if it is or wraps one.
pub data Beneath (e : GoError) : GoError → Type 0 where
  in_url : (cause : GoError) → as_url_cause e ≡ some cause → Beneath e cause
  not_in_url : as_url_cause e ≡ none → Beneath e e

-- The error for a reset: of the code, if there is one, or as it was, and what it matches.
abbrev pub IsReset : Option Code → GoError → GoError → Type 0
IsReset none cause out = out ≡ cause
IsReset (some c) cause out = (code_of out ≡ c) × ((s : Sentinel) → is s out ≡ is s cause)

reset_error-IsReset :
    (ctx : Context) (name : Text) (cause : GoError) (o : Option Code)
    → reset_code ctx name ≡ o
    → IsReset o cause (reset_error cause o)
reset_error-IsReset ctx name cause none h = refl
reset_error-IsReset ctx name cause (some c) h =
    (reset_error-code_of cause c (reset_code_ne_zero ctx name c h), reset_error-is cause (some c))

wrap_if_rst_error-classify :
    (trim_space : Text → Text) (ctx : Context) (e cause : GoError)
    → is_coded e ≡ false
    → Beneath e cause
    → wrap_if_rst_error trim_space ctx e ≡ classify trim_space ctx cause
unfolding wrap_if_rst_error
wrap_if_rst_error-classify trim_space ctx e cause h (in_url _ u) = rw (h, u) refl
wrap_if_rst_error-classify trim_space ctx e _ h (not_in_url u) = rw (h, u) refl

-- An error without a code that tells, by its text or by that of the error in its `*url.Error`, of a
-- reset by the peer: what stands behind the text's last semicolon, and is not empty, names the HTTP/2
-- error, once white space is trimmed. If the table of `http2_errors` has that name, the result has
-- the code of the table, for before or after the deadline, and `errors.Is` matches what it matched;
-- otherwise the result is the error itself, out of its `*url.Error`.
pub wrap_if_rst_error_peer :
    (trim_space : Text → Text) (ctx : Context) (e cause : GoError) (about : Text) (first : ℕ)
    (name : Text)
    → is_coded e ≡ false
    → Beneath e cause
    → text_of cause ≡ reset_message about (first ∷ name)
    → IsName (first ∷ name)
    → IsReset
        (code_in ctx.past_deadline (trim_space (first ∷ name)) http2_errors)
        cause
        (wrap_if_rst_error trim_space ctx e)
wrap_if_rst_error_peer trim_space ctx e cause about first name uncoded beneath says h =
    let trimmed_name = trim_space (first ∷ name) in
    let named : reset_name trim_space (text_of cause) ≡ some trimmed_name =
      ap (reset_name trim_space) says
      ∙ reset_name-reset_message trim_space about (first ∷ name) h in
    let result : wrap_if_rst_error trim_space ctx e
        ≡ reset_error cause (code_in ctx.past_deadline trimmed_name http2_errors) =
      wrap_if_rst_error-classify trim_space ctx e cause uncoded beneath
      ∙ ap (λ o. reset_error cause (code_for ctx o)) named
      ∙ ap (reset_error cause) (reset_code-code_in ctx trimmed_name) in
    subst (IsReset (code_in ctx.past_deadline trimmed_name http2_errors) cause) (sym result) (
      reset_error-IsReset ctx trimmed_name cause
        (code_in ctx.past_deadline trimmed_name http2_errors) (reset_code-code_in ctx trimmed_name))
