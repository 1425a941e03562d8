-- ===== src/Headers/Laws.antt =====
-- What each key holds after an operation on a header.
use connect_go.Base.{
  ◌≡◌, inl, inr, refl, sym, ap, ◌∙◌, Bool, true, false, List, [], ◌∷◌, ◌++◌, none, some, Text,
  eq_text, eq_text_iff, eq_text_refl, arith, if◌then◌else◌, Bool-cases, append-nil, append_assoc,
}
use connect_go.Headers.{
  Headers, find, values, put, delete, append_values, merge_headers, is_protocol_header,
  to_http_header,
}

pub find-put :
    (key other : Text) (vs : List Text) (h : Headers)
    → find other (put key vs h) ≡ (if eq_text key other then some vs else find other h)
unfolding find put
find-put key other vs [] = refl
find-put key other vs ((k, old) ∷ h) = elim (Bool-cases (eq_text k key)) [
  | inl e ↦ rw ((eq_text_iff k key).0 e, eq_text_refl key) (ground arith)
  | inr e ↦ rw e (elim (Bool-cases (eq_text k other)) [
    | inl o ↦
        let differs : eq_text key other ≡ false =
          ground (arith, eq_text_iff k other, eq_text_iff key other, eq_text_iff k key) in
        rw (o, differs) refl
    | inr o ↦ rw o (find-put key other vs h)
  ])
]

pub find-delete :
    (key other : Text) (h : Headers)
    → find other (delete key h) ≡ (if eq_text key other then none else find other h)
unfolding find delete
find-delete key other [] = ground arith
find-delete key other ((k, vs) ∷ h) = elim (Bool-cases (eq_text k key)) [
  | inl e ↦ rw ((eq_text_iff k key).0 e, eq_text_refl key) (ground (arith, find-delete key other h))
  | inr e ↦ rw e (elim (Bool-cases (eq_text k other)) [
    | inl o ↦
        let differs : eq_text key other ≡ false =
          ground (arith, eq_text_iff k other, eq_text_iff key other, eq_text_iff k key) in
        rw (o, differs) refl
    | inr o ↦ rw o (find-delete key other h)
  ])
]

values-append_values :
    (h : Headers) (key other : Text) (vs : List Text)
    → values other (append_values h key vs)
      ≡ (if eq_text key other then values other h ++ vs else values other h)
values-append_values h key other vs = elim (Bool-cases (eq_text key other)) [
  | inl e ↦
      let same : key ≡ other = (eq_text_iff key other).0 e in
      rw (e, find-put key other (values key h ++ vs) h, e, same) refl
  | inr e ↦ rw (e, find-put key other (values key h ++ vs) h, e) refl
]

-- A list of entries that is a map: no key stands there twice.
abbrev pub IsMap : Headers → Type 0
IsMap [] = Unit
IsMap ((k, vs) ∷ h) = (find k h ≡ none) × IsMap h

values_cons :
    (k key : Text) (vs : List Text) (h : Headers)
    → find k h ≡ none
    → values key ((k, vs) ∷ h) ≡ (if eq_text k key then vs ++ values key h else values key h)
unfolding find
values_cons k key vs h n = elim (Bool-cases (eq_text k key)) [
  | inl e ↦
      let gone : find key h ≡ none = rw (← (eq_text_iff k key).0 e) n in
      rw (e, gone, append-nil) refl
  | inr e ↦ rw e refl
]

-- Merging appends the values of every key, and keeps those that are there in front.
pub values-merge_headers :
    (into from : Headers) (key : Text)
    → IsMap from
    → values key (merge_headers into from) ≡ values key into ++ values key from
unfolding merge_headers find
values-merge_headers into [] key m = sym (rw append-nil refl)
values-merge_headers into ((k, []) ∷ from) key m =
    values-merge_headers into from key m.1
    ∙ ap (λ t. values key into ++ t) (sym (values_cons k key [] from m.0 ∙ same (eq_text k key)))
  where
    same : (b : Bool) → (if b then values key from else values key from) ≡ values key from
    same true = refl
    same false = refl
values-merge_headers into ((k, v ∷ vs) ∷ from) key m =
    values-merge_headers (append_values into k (v ∷ vs)) from key m.1
    ∙ rw (values-append_values into k key (v ∷ vs), values_cons k key (v ∷ vs) from m.0)
        (elim (Bool-cases (eq_text k key)) [
          | inl e ↦ rw (e, append_assoc (values key into) (v ∷ vs) (values key from)) refl
          | inr e ↦ rw e refl
        ])

-- The metadata of a caller reach the HTTP header behind the values that are there, and leave every
-- header of the protocols as it was.
pub values-to_http_header :
    (h header : Headers) (key : Text)
    → IsMap header
    → values key (to_http_header h header)
      ≡ (if is_protocol_header key then values key h else values key h ++ values key header)
unfolding to_http_header find
values-to_http_header h [] key m = elim (Bool-cases (is_protocol_header key)) [
  | inl e ↦ rw e refl
  | inr e ↦ rw (e, append-nil) refl
]
values-to_http_header h ((k, vs) ∷ header) key m = elim (Bool-cases (is_protocol_header k)) [
  | inl p ↦
      rw (p, values-to_http_header h header key m.1, values_cons k key vs header m.0)
        (elim (Bool-cases (eq_text k key)) [
          | inl e ↦ let same = (eq_text_iff k key).0 e in rw (← same, p) refl
          | inr e ↦ rw e refl
        ])
  | inr p ↦
      rw
        (
          p,
          values-to_http_header (append_values h k vs) header key m.1,
          values-append_values h k key vs,
          values_cons k key vs header m.0,
        )
        (elim (Bool-cases (eq_text k key)) [
          | inl e ↦
              let same = (eq_text_iff k key).0 e in
              rw (← same, p, eq_text_refl k, append_assoc (values k h) vs (values k header)) refl
          | inr e ↦ rw e refl
        ])
]
