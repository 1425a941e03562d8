-- ===== src/Codes/RoundTrip.antt =====
-- `UnmarshalText` reads back what `MarshalText` writes.
use connect_go.Base.{
  ◌<◌, ◌^◌, ◌≡◌, refl, Bool, true, false, ◌++◌, none, some, Text, codes, eq_text, cut_prefix,
  cut_prefix-append, arith, all_upto, all_upto_sound, ltb, ◌==◌, Bool-cases, inl, inr, ◌∙◌,
}
use connect_go.Base.Decimal.{decimal, parse_uint, parse_digits, parse_uint-decimal}
use connect_go.Codes.{Code, max_code, code_string, marshal_text, unmarshal_text, unmarshal_numeric}

-- The named codes, by evaluation.
reads_back : Code → Bool
reads_back c = elim (unmarshal_text (marshal_text c)) [ none ↦ false | some d ↦ c == d ]

named_codes : all_upto 16 reads_back ≡ true
unfolding all_upto reads_back unmarshal_text marshal_text code_string codes eq_text cut_prefix
    decimal parse_uint parse_digits
named_codes = refl

reads_back_sound : (c : Code) → reads_back c ≡ true → unmarshal_text (marshal_text c) ≡ some c
unfolding reads_back
reads_back_sound c h = ground arith

code_string_unnamed : (c : Code) → max_code < c → code_string c ≡ codes "code_" ++ decimal c
unfolding code_string
code_string_unnamed c h = ground arith

unmarshal_text_numeric :
    (s : Text) → unmarshal_text (codes "code_" ++ s) ≡ unmarshal_numeric (codes "code_" ++ s)
unfolding unmarshal_text codes eq_text
unmarshal_text_numeric s = refl

unmarshal_numeric-code_ :
    (c : Code) → max_code < c → c < 2 ^ 32 → unmarshal_numeric (codes "code_" ++ decimal c) ≡ some c
unfolding unmarshal_numeric
unmarshal_numeric-code_ c above small =
    ground (arith, cut_prefix-append (codes "code_") (decimal c), parse_uint-decimal (2 ^ 32) c)

-- `UnmarshalText` reads back the text that `MarshalText` writes for any uint32 code, named or not.
pub unmarshal_text-marshal_text : (c : Code) → c < 2 ^ 32 → unmarshal_text (marshal_text c) ≡ some c
unmarshal_text-marshal_text c small = elim (Bool-cases (ltb max_code c)) [
  | inl above ↦
      unfold marshal_text in
      rw (code_string_unnamed c (ground arith))
        (unmarshal_text_numeric (decimal c) ∙ unmarshal_numeric-code_ c (ground arith) small)
  | inr below ↦ reads_back_sound c (all_upto_sound 16 reads_back c named_codes (ground arith))
]
