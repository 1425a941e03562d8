-- ===== src/ContentTypes/Grpc.antt =====
-- gRPC content types: what a server writes for a codec, and what a client accepts.
use connect_go.Base.{
  ℕ, ◌≡◌, ◌⊎◌, ◌↔◌, inl, inr, refl, Bool, true, false, [], ◌∷◌, ◌++◌, none, Text, codes, eq_text,
  eq_text_iff, eq_text_refl, cut_prefix-append, trim_prefix, arith, Bool-cases,
}
use connect_go.ContentTypes.{
  proto, grpc_default, grpc_prefix, grpc_codec, grpc_content_type, grpc_validate,
}

eq_text_longer : (a : Text) (c : ℕ) (s : Text) → eq_text (a ++ c ∷ s) a ≡ false
unfolding eq_text
eq_text_longer [] c s = refl
eq_text_longer (x ∷ a) c s = ground (arith, eq_text_longer a c s)

-- A content type with a codec's name is not the bare one.
prefix_ne_default :
    (web : Bool) (name : Text) → eq_text (grpc_prefix web ++ name) (grpc_default web) ≡ false
unfolding eq_text codes
prefix_ne_default true name = refl
prefix_ne_default false name = refl

grpc_codec-prefix : (web : Bool) (name : Text) → grpc_codec web (grpc_prefix web ++ name) ≡ name
unfolding grpc_codec
grpc_codec-prefix web name =
    rw (prefix_ne_default web name, cut_prefix-append (grpc_prefix web) name, trim_prefix) refl

grpc_codec-default : (web : Bool) → grpc_codec web (grpc_default web) ≡ proto
unfolding grpc_codec
grpc_codec-default web = rw (eq_text_refl (grpc_default web)) refl

-- A client accepts exactly two content types: the one with the codec's name, and for `proto` the
-- bare one. What it accepts is read as the codec of its request.
pub grpc_validate_lem :
    (quote : Text → Text) (web : Bool) (codec got : Text)
    → ((grpc_validate quote web codec got ≡ none)
        ↔ ((got ≡ grpc_prefix web ++ codec) ⊎ ((codec ≡ proto) × (got ≡ grpc_default web))))
      × (grpc_validate quote web codec got ≡ none → grpc_codec web got ≡ codec)
grpc_validate_lem quote web codec got = (accepts, λ h. reads (accepts.0 h))
  where
    accepts :
        (grpc_validate quote web codec got ≡ none)
        ↔ ((got ≡ grpc_prefix web ++ codec) ⊎ ((codec ≡ proto) × (got ≡ grpc_default web)))
    accepts =
        unfold grpc_validate in
        ground (
          arith,
          eq_text_iff got (grpc_prefix web ++ codec),
          eq_text_iff codec proto,
          eq_text_iff got (grpc_default web),
        )

    reads :
        (got ≡ grpc_prefix web ++ codec) ⊎ ((codec ≡ proto) × (got ≡ grpc_default web))
        → grpc_codec web got ≡ codec
    reads (inl e) = rw e (grpc_codec-prefix web codec)
    reads (inr (p, e)) = rw (e, p) (grpc_codec-default web)

-- The content type that a server makes for the codec of a request is one that the client accepts.
pub grpc_validate-grpc_content_type :
    (quote : Text → Text) (web : Bool) (codec : Text)
    → grpc_validate quote web codec (grpc_content_type web codec) ≡ none
grpc_validate-grpc_content_type quote web codec =
    ((grpc_validate_lem quote web codec (grpc_content_type web codec)).0).1 (made web)
  where
    made :
        (web : Bool)
        → (grpc_content_type web codec ≡ grpc_prefix web ++ codec)
          ⊎ ((codec ≡ proto) × (grpc_content_type web codec ≡ grpc_default web))
    made true = inl (unfold grpc_content_type in refl)
    made false =
        unfold grpc_content_type in
        elim (Bool-cases (eq_text codec proto)) [
          | inl e ↦ inr ((eq_text_iff codec proto).0 e, rw e refl)
          | inr e ↦ inl (rw e refl)
        ]
