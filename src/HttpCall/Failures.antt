-- ===== src/HttpCall/Failures.antt =====
-- The error of a request that failed, and what Send says afterwards.
use connect_go.Base.{
  ◌≡◌, inl, inr, refl, ◌∙◌, Bool, true, false, Option, none, some, Text, arith, Bool-cases,
  Option-cases,
}
use connect_go.Codes.{Code}
use connect_go.Errors.Reset.{
  reset_error, code_for, reset_name, cause_or, wrap_if_rst_error,
  wrap_if_likely_h2c_not_configured_error, wrap_if_likely_with_grpc_not_used_error,
}
use connect_go.Errors.Wrap.{Context, is_coded, wrap_if_context_error}
use connect_go.Errors.{
  GoError, Sentinel, eof, sentinel, opaque, max_bytes, url_error, wrapped, joined, coded, coded_by,
  special_envelope, is, as_error, as_url_cause, with_cause, text_of,
}
use connect_go.HttpCall.{no_eof, coded_or_unavailable, request_error}

-- An error that `errors.Is` does not take for the end of a stream.
abbrev IsQuiet : GoError → Type 0
IsQuiet e = is eof e ≡ false

no_eof-IsQuiet : (e : GoError) → IsQuiet (no_eof e)
unfolding is
no_eof-IsQuiet e = ground arith

wrap_if_context_error-is : (s : Sentinel) (e : GoError) → is s (wrap_if_context_error e) ≡ is s e
unfolding wrap_if_context_error with_cause is
wrap_if_context_error-is s e = ground arith

h2c-is :
    (s : Sentinel) (other : Bool) (e : GoError)
    → is s (wrap_if_likely_h2c_not_configured_error other e) ≡ is s e
unfolding wrap_if_likely_h2c_not_configured_error is
h2c-is s other e = ground arith

grpc-is : (s : Sentinel) (e : GoError) → is s (wrap_if_likely_with_grpc_not_used_error e) ≡ is s e
unfolding wrap_if_likely_with_grpc_not_used_error is
grpc-is s e = ground arith

as_url_cause-IsQuiet : (e c : GoError) → as_url_cause e ≡ some c → IsQuiet e → IsQuiet c
unfolding as_url_cause is
as_url_cause-IsQuiet (sentinel s t) c h q = ground arith
as_url_cause-IsQuiet (opaque t) c h q = ground arith
as_url_cause-IsQuiet (max_bytes n) c h q = ground arith
as_url_cause-IsQuiet (url_error p e) c h q = ground arith
as_url_cause-IsQuiet (wrapped t e) c h q = as_url_cause-IsQuiet e c h q
as_url_cause-IsQuiet (joined a b) c h q =
    let qa : is eof a ≡ false = ground arith in
    let qb : is eof b ≡ false = ground arith in
    elim (Option-cases (as_url_cause a)) [
      | inl n ↦ as_url_cause-IsQuiet b c (rw n at h) qb
      | inr (x, n) ↦ as_url_cause-IsQuiet a c (n ∙ rw n at h) qa
    ]
as_url_cause-IsQuiet (coded v) c h q = ground arith
as_url_cause-IsQuiet (coded_by v e) c h q = as_url_cause-IsQuiet e c h q
as_url_cause-IsQuiet special_envelope c h q = ground arith

reset_error-is : (s : Sentinel) (e : GoError) (o : Option Code) → is s (reset_error e o) ≡ is s e
unfolding with_cause is
reset_error-is s e none = refl
reset_error-is s e (some c) = refl

cause_or-IsQuiet : (e : GoError) → IsQuiet e → IsQuiet (cause_or e (as_url_cause e))
cause_or-IsQuiet e q = elim (Option-cases (as_url_cause e)) [
  | inl n ↦ rw n q
  | inr (c, n) ↦ rw n (as_url_cause-IsQuiet e c n q)
]

wrap_if_rst_error-IsQuiet :
    (trim_space : Text → Text) (ctx : Context) (e : GoError)
    → IsQuiet e
    → IsQuiet (wrap_if_rst_error trim_space ctx e)
unfolding wrap_if_rst_error
wrap_if_rst_error-IsQuiet trim_space ctx e q = elim (Bool-cases (is_coded e)) [
  | inl c ↦ rw c q
  | inr c ↦
      let cause = cause_or e (as_url_cause e) in
      rw c (
        reset_error-is eof cause (code_for ctx (reset_name trim_space (text_of cause)))
        ∙ cause_or-IsQuiet e q)
]

coded_or_unavailable-is_coded : (e : GoError) → is_coded (coded_or_unavailable e) ≡ true
unfolding with_cause as_error
coded_or_unavailable-is_coded e = ground arith

coded_or_unavailable-is : (s : Sentinel) (e : GoError) → is s (coded_or_unavailable e) ≡ is s e
unfolding with_cause is
coded_or_unavailable-is s e = ground arith

-- Whatever the client's error is, a failed request has an error with a code, and one that is not
-- taken for the end of a stream.
pub request_error_lem :
    (trim_space : Text → Text) (ctx : Context) (other_scheme : Bool) (e : GoError)
    → (is_coded (request_error trim_space ctx other_scheme e) ≡ true)
      × (is eof (request_error trim_space ctx other_scheme e) ≡ false)
unfolding request_error
request_error_lem trim_space ctx other_scheme e =
    let e₁ = wrap_if_context_error (no_eof e) in
    let e₂ = wrap_if_likely_h2c_not_configured_error other_scheme e₁ in
    let e₃ = wrap_if_likely_with_grpc_not_used_error e₂ in
    let e₄ = wrap_if_rst_error trim_space ctx e₃ in
    let q₃ : IsQuiet e₃ =
      grpc-is eof e₂
      ∙ h2c-is eof other_scheme e₁
      ∙ wrap_if_context_error-is eof (no_eof e)
      ∙ no_eof-IsQuiet e in
    (
      coded_or_unavailable-is_coded e₄,
      coded_or_unavailable-is eof e₄ ∙ wrap_if_rst_error-IsQuiet trim_space ctx e₃ q₃,
    )
