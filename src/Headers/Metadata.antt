-- ===== src/Headers/Metadata.antt =====
-- connect.go: `Header`, the metadata of a call, and `fromHTTPHeader` of connecthttp/header.go.
-- `textproto.CanonicalMIMEHeaderKey` is a parameter; a nil store reads as an empty one.
use connect_go.Base.{
  ◌≡◌, refl, Bool, List, [], ◌∷◌, Text, eq_text, if◌then◌else◌, Bool-cases, inl, inr,
}
use connect_go.Headers.{
  Headers, find, values, put, delete, first_or_empty, has_entry, append_values,
}
use connect_go.Headers.Laws.{find-put, find-delete}

module _ (canonical : Text → Text) where
  -- `Header.Get`
  unfoldable pub lookup : Text → Headers → Text
  lookup key m = first_or_empty (values (canonical key) m)

  -- `Header.Values`
  unfoldable pub all_values : Text → Headers → List Text
  all_values key m = values (canonical key) m

  -- `Header.Has`
  unfoldable pub has : Text → Headers → Bool
  has key m = has_entry (find (canonical key) m)

  -- `Header.SetValues`
  unfoldable pub set_values : Text → List Text → Headers → Headers
  set_values key vs m = put (canonical key) vs m

  -- `Header.Set`
  unfoldable pub store : Text → Text → Headers → Headers
  store key value m = put (canonical key) (value ∷ []) m

  -- `Header.Add`
  unfoldable pub add : Text → Text → Headers → Headers
  add key value m = append_values m (canonical key) (value ∷ [])

  -- `Header.Delete`
  unfoldable pub remove : Text → Headers → Headers
  remove key m = delete (canonical key) m

  -- `fromHTTPHeader`: the new `header`.
  unfoldable pub from_http_header : Headers → Headers → Headers
  from_http_header m [] = m
  from_http_header m ((key, vs) ∷ h) = from_http_header (set_values key vs m) h

  -- What is stored under a key is found under every spelling of that key, and other keys keep what
  -- they hold.
  pub lookup-store :
      (key other value : Text) (m : Headers)
      → lookup other (store key value m)
        ≡ (if eq_text (canonical key) (canonical other) then value else lookup other m)
  unfolding lookup store
  lookup-store key other value m = elim (Bool-cases (eq_text (canonical key) (canonical other))) [
    | inl e ↦ rw (find-put (canonical key) (canonical other) (value ∷ []) m, e) refl
    | inr e ↦ rw (find-put (canonical key) (canonical other) (value ∷ []) m, e) refl
  ]

  -- A key that is removed is gone under every spelling, and other keys keep what they hold.
  all_values-remove :
      (key other : Text) (m : Headers)
      → all_values other (remove key m)
        ≡ (if eq_text (canonical key) (canonical other) then [] else all_values other m)
  unfolding all_values remove
  all_values-remove key other m = elim (Bool-cases (eq_text (canonical key) (canonical other))) [
    | inl e ↦ rw (find-delete (canonical key) (canonical other) m, e) refl
    | inr e ↦ rw (find-delete (canonical key) (canonical other) m, e) refl
  ]
