-- ===== src/Unary/Params.antt =====
-- The query of a GET request as a list of parameters, and what parses it.
use connect_go.Base.{
  ℕ, ◌%◌, ◌≡◌, ◌≢◌, refl, ap, ◌∙◌, Bool, true, false, ◌&&◌, ◌||◌, List, [], ◌∷◌, ◌++◌, map, none,
  Text, codes, arith, ◌==◌, leb, ◌<◌, All, append_assoc, if◌then◌else◌, length,
}
use connect_go.Unary.Get.{RequestWriter, append_query_param}
use connect_go.Unary.Query.{UrlLibrary}

-- A query as it is written: keys with values, joined.
unfoldable pub raw_query : List (Text × Text) → Text
raw_query [] = []
raw_query ((k, v) ∷ []) = k ++ (codes "=" ++ v)
raw_query ((k, v) ∷ p ∷ ps) = k ++ (codes "=" ++ (v ++ (codes "&" ++ raw_query (p ∷ ps))))

-- The characters that stand for themselves in a query: letters, digits, and the marks - _ . ~, the
-- unreserved characters of RFC 3986.
abbrev pub is_unreserved : ℕ → Bool
is_unreserved c =
    (leb b'a' c && leb c b'z')
    || ((leb b'A' c && leb c b'Z')
        || ((leb b'0' c && leb c b'9') || (c == b'-' || (c == b'_' || (c == b'.' || c == b'~')))))

abbrev pub IsUnreserved : ℕ → Type 0
IsUnreserved c = is_unreserved c ≡ true

abbrev pub escaped : (Text → Text) → Text × Text → Text × Text
escaped escape (k, v) = (k, escape v)

-- What the documentation of net/url and encoding/base64 says: ParseQuery reads back what QueryEscape
-- wrote, under unreserved keys, of not too many parameters; QueryEscape leaves unreserved text alone;
-- the alphabet of URL-safe base64 is unreserved, and both its readers read back what was encoded, the
-- padded one where no padding is due.
pub record IsUrl {M : Type 0} (w : RequestWriter M) (lib : UrlLibrary) : Type 0 where
  pub parses :
      (ps : List (Text × Text))
      → All (λ p. All IsUnreserved p.0) ps
      → length ps < 1000
      → lib.parse_query (raw_query (map (escaped w.query_escape) ps)) ≡ ps
  pub plain : (s : Text) → All IsUnreserved s → w.query_escape s ≡ s
  pub safe : (s : Text) → All IsUnreserved (w.base64_url s)
  pub raw : (s : Text) → lib.read_raw_url (w.base64_url s) ≡ record { bytes = s; fault = none }
  pub padded :
      (s : Text)
      → length (w.base64_url s) % 4 ≡ 0
      → lib.read_padded_url (w.base64_url s) ≡ record { bytes = s; fault = none }

-- The parameters of a GET.
unfoldable pub get_params : {M : Type 0} → RequestWriter M → Bool → Bool → Text → List (Text × Text)
get_params w true true bytes =
    (codes "connect", codes "v1")
    ∷ (codes "base64", codes "1")
    ∷ (codes "compression", w.base.compression_name)
    ∷ (codes "encoding", w.codec_name)
    ∷ (codes "message", w.base64_url bytes)
    ∷ []
get_params w true false bytes =
    (codes "connect", codes "v1")
    ∷ (codes "base64", codes "1")
    ∷ (codes "encoding", w.codec_name)
    ∷ (codes "message", w.base64_url bytes)
    ∷ []
get_params w false _ bytes =
    (codes "connect", codes "v1") ∷ (codes "encoding", w.codec_name) ∷ (codes "message", bytes) ∷ []

append_query_param-raw_query :
    (p : Text × Text) (ps : List (Text × Text)) (k v : Text)
    → append_query_param (raw_query (p ∷ ps)) true k v ≡ raw_query ((p ∷ ps) ++ (k, v) ∷ [])
unfolding raw_query
append_query_param-raw_query (a, b) [] k v =
    append_assoc a (codes "=" ++ b) _ ∙ ap (λ x. a ++ x) (append_assoc (codes "=") b _)
append_query_param-raw_query (a, b) (q ∷ qs) k v =
    append_assoc a (codes "=" ++ (b ++ (codes "&" ++ raw_query (q ∷ qs)))) _
    ∙ ap (λ x. a ++ x)
        (append_assoc (codes "=") (b ++ (codes "&" ++ raw_query (q ∷ qs))) _
          ∙ ap (λ x. codes "=" ++ x)
              (append_assoc b (codes "&" ++ raw_query (q ∷ qs)) _
                ∙ ap (λ x. b ++ x)
                    (append_assoc (codes "&") (raw_query (q ∷ qs)) _
                      ∙ ap (λ x. codes "&" ++ x) (append_query_param-raw_query q qs k v))))

abbrev then_param : Text → Text → Text → Text
then_param k v query = append_query_param query true k v

v1_plain : All IsUnreserved (codes "v1")
unfolding codes
v1_plain = (refl, (refl, tt))

one_plain : All IsUnreserved (codes "1")
unfolding codes
one_plain = (refl, tt)

-- A test for plain keys.
abbrev pub is_plain : Text → Bool
is_plain [] = true
is_plain (c ∷ cs) = is_unreserved c && is_plain cs

pub is_plain-IsUnreserved : (s : Text) → is_plain s ≡ true → All IsUnreserved s
is_plain-IsUnreserved [] h = tt
is_plain-IsUnreserved (c ∷ cs) h = (ground arith, is_plain-IsUnreserved cs (ground arith))

abbrev keys_plain : List (Text × Text) → Bool
keys_plain [] = true
keys_plain ((k, v) ∷ ps) = is_plain k && keys_plain ps

keys_plain-IsUnreserved :
    (ps : List (Text × Text)) → keys_plain ps ≡ true → All (λ p. All IsUnreserved p.0) ps
keys_plain-IsUnreserved [] h = tt
keys_plain-IsUnreserved ((k, v) ∷ ps) h =
    (is_plain-IsUnreserved k (ground arith), keys_plain-IsUnreserved ps (ground arith))

abbrev connect_param : Text × Text
connect_param = (codes "connect", codes "v1")

abbrev base64_param : Text × Text
base64_param = (codes "base64", codes "1")

module _ {M : Type 0} (w : RequestWriter M) (lib : UrlLibrary) (l : IsUrl w lib) where
  -- The query of `buildGetURL`, by whether it is base64 and compressed.
  abbrev pub url_of : Bool → Bool → Text → Text
  url_of binary compressed bytes =
      let q₀ = append_query_param [] false (codes "connect") (codes "v1") in
      let q₁ = if binary then append_query_param q₀ true (codes "base64") (codes "1") else q₀ in
      let q₂ =
        if compressed
        then append_query_param q₁ true (codes "compression")
            (w.query_escape w.base.compression_name)
        else q₁ in
      let q₃ = append_query_param q₂ true (codes "encoding") (w.query_escape w.codec_name) in
      append_query_param q₃ true (codes "message")
        (if binary then w.base64_url bytes else w.query_escape bytes)

  url_of-raw_query :
      (binary compressed : Bool) (bytes : Text)
      → (compressed ≡ true → binary ≡ true)
      → url_of binary compressed bytes
        ≡ raw_query (map (escaped w.query_escape) (get_params w binary compressed bytes))
  unfolding get_params raw_query
  url_of-raw_query true true bytes h =
      let c = w.query_escape w.base.compression_name in
      let n = w.query_escape w.codec_name in
      let m = w.base64_url bytes in
      let add = append_query_param-raw_query connect_param in
      let compression : Text × Text = (codes "compression", c) in
      let encoding : Text × Text = (codes "encoding", n) in
      ap
        (λ q.
          then_param (codes "message") m
            (then_param (codes "encoding") n (then_param (codes "compression") c q)))
        (add [] (codes "base64") (codes "1"))
      ∙ ap (λ q. then_param (codes "message") m (then_param (codes "encoding") n q))
          (add (base64_param ∷ []) (codes "compression") c)
      ∙ ap (then_param (codes "message") m)
          (add (base64_param ∷ compression ∷ []) (codes "encoding") n)
      ∙ add (base64_param ∷ compression ∷ encoding ∷ []) (codes "message") m
      ∙ rw (l.plain (codes "v1") v1_plain, l.plain (codes "1") one_plain, l.plain m (l.safe bytes))
          refl
  url_of-raw_query true false bytes h =
      let n = w.query_escape w.codec_name in
      let m = w.base64_url bytes in
      let add = append_query_param-raw_query connect_param in
      let encoding : Text × Text = (codes "encoding", n) in
      ap (λ q. then_param (codes "message") m (then_param (codes "encoding") n q))
        (add [] (codes "base64") (codes "1"))
      ∙ ap (then_param (codes "message") m) (add (base64_param ∷ []) (codes "encoding") n)
      ∙ add (base64_param ∷ encoding ∷ []) (codes "message") m
      ∙ rw (l.plain (codes "v1") v1_plain, l.plain (codes "1") one_plain, l.plain m (l.safe bytes))
          refl
  url_of-raw_query false false bytes h =
      let n = w.query_escape w.codec_name in
      let m = w.query_escape bytes in
      let add = append_query_param-raw_query connect_param in
      ap (then_param (codes "message") m) (add [] (codes "encoding") n)
      ∙ add ((codes "encoding", n) ∷ []) (codes "message") m
      ∙ rw (l.plain (codes "v1") v1_plain) refl
  url_of-raw_query false true bytes h = absurd (other (h refl))
    where
      other : false ≢ true
      other = λ q. cc

  get_params-keys_plain :
      (binary compressed : Bool) (bytes : Text)
      → keys_plain (get_params w binary compressed bytes) ≡ true
  unfolding get_params codes
  get_params-keys_plain true true bytes = refl
  get_params-keys_plain true false bytes = refl
  get_params-keys_plain false compressed bytes = refl

  get_params-short :
      (binary compressed : Bool) (bytes : Text)
      → length (get_params w binary compressed bytes) < 1000
  unfolding get_params
  get_params-short true true bytes = omega arith
  get_params-short true false bytes = omega arith
  get_params-short false compressed bytes = omega arith

  pub parsed :
      (binary compressed : Bool) (bytes : Text)
      → (compressed ≡ true → binary ≡ true)
      → lib.parse_query (url_of binary compressed bytes) ≡ get_params w binary compressed bytes
  parsed binary compressed bytes h =
      ap lib.parse_query (url_of-raw_query binary compressed bytes h)
      ∙ l.parses (get_params w binary compressed bytes)
          (keys_plain-IsUnreserved (get_params w binary compressed bytes)
            (get_params-keys_plain binary compressed bytes))
          (get_params-short binary compressed bytes)
