-- ===== src/Compression/Negotiation.antt =====
-- What `negotiateCompression` agrees on.
use connect_go.Base.{
  ◌≡◌, ◌≢◌, ◌⊎◌, refl, Bool, true, false, not, ◌&&◌, List, [], ◌∷◌, ◌++◌, Text, arith, eq_text,
  eq_text_iff, eq_text_refl, Bool-cases, inl, inr, ap, ◌∙◌, length, ◌==◌, All,
}
use connect_go.Codes.{unimplemented}
use connect_go.Errors.{GoError, code_of, as_error, verdict, error_code}
use connect_go.Compression.{
  Pools, contains, identity, fields, first_available, response_compression, agreed, refused,
  unknown_compression, negotiate,
}

-- A compression that both sides can use: none, or one that has a pool.
abbrev pub IsUsable : Pools → Text → Type 0
IsUsable p name = (name ≡ identity) ⊎ (contains p name ≡ true)

first_available-IsUsable :
    (p : Pools) (otherwise : Text) (names : List Text)
    → IsUsable p otherwise
    → IsUsable p (first_available p otherwise names)
unfolding first_available
first_available-IsUsable p otherwise [] h = h
first_available-IsUsable p otherwise (n ∷ ns) h = elim (Bool-cases (contains p n)) [
  | inl e ↦ rw e (inr e)
  | inr e ↦ rw e (first_available-IsUsable p otherwise ns h)
]

response-IsUsable :
    (p : Pools) (request accept : Text)
    → IsUsable p request
    → IsUsable p (response_compression p request accept)
unfolding response_compression
response-IsUsable p request accept h =
    elim (Bool-cases (eq_text request identity && not (length accept == 0))) [
      | inl e ↦ rw e (first_available-IsUsable p request (fields [] accept) h)
      | inr e ↦ rw e h
    ]

response_of_compressed :
    (p : Pools) (request accept : Text)
    → request ≢ identity
    → response_compression p request accept ≡ request
unfolding response_compression
response_of_compressed p request accept h = ground (arith, eq_text_iff request identity)

-- The test of the code for a request that names a compression.
abbrev asks : Text → Bool
asks sent = not (length sent == 0) && not (eq_text sent identity)

-- A compression that is asked for and is not there.
abbrev pub IsUnavailable : Pools → Text → Type 0
IsUnavailable p sent = (sent ≢ []) × (sent ≢ identity) × (contains p sent ≡ false)

not_asked-of : (sent : Text) → (sent ≡ []) ⊎ (sent ≡ identity) → asks sent ≡ false
not_asked-of sent (inl e) = rw e refl
not_asked-of sent (inr e) = ground (arith, eq_text_iff sent identity)

asked-of : (sent : Text) → asks sent ≡ true → (sent ≢ []) × (sent ≢ identity)
asked-of sent h = (not_empty sent h, ground (arith, eq_text_iff sent identity))
  where
    not_empty : (sent : Text) → asks sent ≡ true → sent ≢ []
    not_empty [] h = λ e. cc
    not_empty (c ∷ cs) h = λ e. cc

asks-of : (sent : Text) → sent ≢ [] → sent ≢ identity → asks sent ≡ true
asks-of [] n i = absurd (n refl)
asks-of (c ∷ cs) n i = ground (arith, eq_text_iff (c ∷ cs) identity)

module _ (quote : Text → Text) (p : Pools) (sent accept : Text) where
  negotiate_not_asked :
      asks sent ≡ false
      → negotiate quote p sent accept ≡ agreed identity (response_compression p identity accept)
  unfolding negotiate
  negotiate_not_asked h = rw h refl

  negotiate_available :
      asks sent ≡ true
      → contains p sent ≡ true
      → negotiate quote p sent accept ≡ agreed sent (response_compression p sent accept)
  unfolding negotiate
  negotiate_available h c = rw (h, c) refl

  negotiate_unavailable :
      asks sent ≡ true
      → contains p sent ≡ false
      → (e : GoError) × (negotiate quote p sent accept ≡ refused e) × (code_of e ≡ unimplemented)
  unfolding negotiate unknown_compression code_of as_error verdict error_code
  negotiate_unavailable h c = (unknown_compression quote p sent, rw (h, c) refl, refl)

  -- Whatever a client sends, a compression that is agreed on is `identity` or has a pool, in both
  -- directions, and a compressed request is answered in the compression that it came in.
  pub negotiate_agreed :
      (request response : Text)
      → negotiate quote p sent accept ≡ agreed request response
      → IsUsable p request × IsUsable p response × (request ≢ identity → response ≡ request)
  negotiate_agreed request response h = elim (Bool-cases (asks sent)) [
    | inr n ↦ let q = negotiate_not_asked n in agreed_on identity (inl refl) (rw q at h)
    | inl a ↦ elim (Bool-cases (contains p sent)) [
      | inl c ↦ agreed_on sent (inr c) (rw (negotiate_available a c) at h)
      | inr u ↦
          absurd (not_both (negotiate_unavailable a u).0 (rw (negotiate_unavailable a u).1 at h))
    ]
  ]
    where
      agreed_on :
          (r : Text)
          → IsUsable p r
          → agreed r (response_compression p r accept) ≡ agreed request response
          → IsUsable p request × IsUsable p response × (request ≢ identity → response ≡ request)
      agreed_on r u e =
          let same : r ≡ request = ground arith in
          let answer : response_compression p r accept ≡ response = ground arith in
          (
            rw (← same) u,
            rw (← answer) (response-IsUsable p r accept u),
            λ n. rw (← answer) (rw (← same) (response_of_compressed p r accept (rw (← same) at n))),
          )

      not_both : (e : GoError) → refused e ≢ agreed request response
      not_both e = λ q. cc

  -- A request is refused exactly when it names a compression other than `identity` that has no pool,
  -- and then as unimplemented; an absent name is no reason to refuse.
  pub negotiate_refused :
      ((e : GoError)
        → negotiate quote p sent accept ≡ refused e
        → IsUnavailable p sent × (code_of e ≡ unimplemented))
      × (IsUnavailable p sent → (e : GoError) × (negotiate quote p sent accept ≡ refused e))
  negotiate_refused = (only_then, then_so)
    where
      refused_by :
          (e f : GoError)
          → refused f ≡ refused e
          → code_of f ≡ unimplemented
          → code_of e ≡ unimplemented
      refused_by e f q c = let same : f ≡ e = ground arith in rw (← same) c

      not_both : (e : GoError) (r s : Text) → agreed r s ≢ refused e
      not_both e r s = λ q. cc

      only_then :
          (e : GoError)
          → negotiate quote p sent accept ≡ refused e
          → IsUnavailable p sent × (code_of e ≡ unimplemented)
      only_then e h = elim (Bool-cases (asks sent)) [
        | inr n ↦ absurd (not_both e _ _ (rw (negotiate_not_asked n) at h))
        | inl a ↦ elim (Bool-cases (contains p sent)) [
          | inl c ↦ absurd (not_both e _ _ (rw (negotiate_available a c) at h))
          | inr u ↦
              let (f, q, c) = negotiate_unavailable a u in
              (((asked-of sent a).0, (asked-of sent a).1, u), refused_by e f (rw q at h) c)
        ]
      ]

      then_so : IsUnavailable p sent → (e : GoError) × (negotiate quote p sent accept ≡ refused e)
      then_so u = let (f, q, c) = negotiate_unavailable (asks-of sent u.0 u.1) u.2 in (f, q)

first_available-split :
    (p : Pools) (otherwise name : Text) (before after : List Text)
    → All (λ n. contains p n ≡ false) before
    → contains p name ≡ true
    → first_available p otherwise (before ++ name ∷ after) ≡ name
unfolding first_available
first_available-split p otherwise name [] after u a = rw a refl
first_available-split p otherwise name (n ∷ ns) after u a =
    rw u.0 (first_available-split p otherwise name ns after u.1 a)

fields_ne_nil :
    (accept name : Text) (before after : List Text)
    → fields [] accept ≡ before ++ name ∷ after
    → length accept == 0 ≡ false
unfolding fields
fields_ne_nil (c ∷ cs) name before after h = ground arith
fields_ne_nil [] name [] after h = cc
fields_ne_nil [] name (b ∷ bs) after h = cc

-- An uncompressed request is answered in the first of the accepted names that has a pool, whatever
-- stands behind it.
pub negotiate_preference :
    (quote : Text → Text) (p : Pools) (sent accept name : Text) (before after : List Text)
    → (sent ≡ []) ⊎ (sent ≡ identity)
    → fields [] accept ≡ before ++ name ∷ after
    → All (λ n. contains p n ≡ false) before
    → contains p name ≡ true
    → negotiate quote p sent accept ≡ agreed identity name
unfolding response_compression
negotiate_preference quote p sent accept name before after none_sent split u a =
    negotiate_not_asked quote p sent accept (not_asked-of sent none_sent)
    ∙ rw (eq_text_refl identity, fields_ne_nil accept name before after split, split)
        (ap (agreed identity) (first_available-split p identity name before after u a))
