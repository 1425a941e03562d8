-- ===== src/ContentTypes/Canonical.antt =====
-- The short way of `canonicalizeContentType`.
use connect_go.Base.{◌≡◌, ◌⊎◌, inl, inr, refl, true, [], none, some, Text, Bool-cases}
use connect_go.ContentTypes.{
  Mime, canonicalize, canonicalize_slow, canonical_params, count_slashes, one_slash,
}

-- Skipping mime for a plain text with one slash changes no result, if mime refuses such a text or
-- takes it for a media type without parameters that it formats as it was.
pub canonicalize_fast :
    (m : Mime)
    → ((s : Text)
        → one_slash (count_slashes 0 s) ≡ true
        → (m.parse s ≡ none) ⊎ ((m.parse s ≡ some (s, [])) × (m.format s [] ≡ s)))
    → (content_type : Text) → canonicalize m content_type ≡ canonicalize_slow m content_type
unfolding canonicalize canonicalize_slow canonical_params
canonicalize_fast m plain s = elim (Bool-cases (one_slash (count_slashes 0 s))) [
  | inr e ↦ rw e refl
  | inl e ↦ elim (plain s e) [
    | inl p ↦ rw (e, p, canonicalize_slow) refl
    | inr (p, f) ↦ rw (e, p, f, canonicalize_slow) refl
  ]
]
