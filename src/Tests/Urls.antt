-- ===== src/Tests/Urls.antt =====
-- A GET request through a small form of URL escapes: each byte of text that is not plain is counted
-- out in letters, behind a percent sign.
use connect_go.Base.{
  ℕ, zero, suc, ◌+◌, ◌≡◌, inl, inr, refl, ap, ◌∙◌, Bool, true, false, not, ◌&&◌, List, [], ◌∷◌,
  ◌++◌, map, Option, none, some, Text, codes, eq_text, arith, ◌==◌, All, length, ◌<◌, append_assoc,
  append-nil, Bool-cases, if◌then◌else◌, if_true, if_false,
}
use connect_go.Compression.{contains, lookup_pool}
use connect_go.Streams.{ok}
use connect_go.Tests.Negotiating.{marker, quote}
use connect_go.Tests.Requesting.{writer}
use connect_go.Unary.Get.{StableCodec, RequestWriter}
use connect_go.Unary.GetRoundTrip.{Knows, get_request, read_new_conn-build_get_url}
use connect_go.Unary.Params.{
  raw_query, escaped, IsUnreserved, IsUrl, is_plain, is_plain-IsUnreserved,
}
use connect_go.Unary.Query.{UrlLibrary, ConnectHandler, read_new_conn}

-- A number as so many letters a, and a b.
abbrev tally : ℕ → Text → Text
tally zero rest = b'b' ∷ rest
tally (suc n) rest = b'a' ∷ tally n rest

abbrev shift : Text → Text
shift [] = []
shift (c ∷ cs) = tally c (shift cs)

abbrev count : ℕ → Text → Text
count n [] = []
count n (c ∷ cs) =
    let next = count 0 cs in let longer = count (suc n) cs in if c == b'b' then n ∷ next else longer

abbrev unshift : Text → Text
unshift s = count 0 s

count-tally : (n m : ℕ) (rest : Text) → count n (tally m rest) ≡ (n + m) ∷ count 0 rest
count-tally n zero rest = let e : n ≡ n + 0 = omega arith in ap (λ k. k ∷ count 0 rest) e
count-tally n (suc m) rest =
    let e : suc n + m ≡ n + suc m = omega arith in
    count-tally (suc n) m rest ∙ ap (λ k. k ∷ count 0 rest) e

unshift-shift : (s : Text) → unshift (shift s) ≡ s
unshift-shift [] = refl
unshift-shift (c ∷ cs) =
    let e : 0 + c ≡ c = omega arith in count-tally 0 c (shift cs) ∙ rw (e, unshift-shift cs) refl

tally-plain : (n : ℕ) (rest : Text) → is_plain rest ≡ true → is_plain (tally n rest) ≡ true
tally-plain zero rest h = h
tally-plain (suc n) rest h = tally-plain n rest h

shift-plain : (s : Text) → is_plain (shift s) ≡ true
shift-plain [] = refl
shift-plain (c ∷ cs) = tally-plain c (shift cs) (shift-plain cs)

abbrev escape : Text → Text
escape s = if is_plain s then s else b'%' ∷ shift s

abbrev unescape : Text → Text
unescape [] = []
unescape (c ∷ cs) = if c == b'%' then unshift cs else c ∷ cs

unescape_plain : (s : Text) → is_plain s ≡ true → unescape s ≡ s
unescape_plain [] h = refl
unescape_plain (c ∷ cs) h = if_false (c == b'%') _ _ (ground arith)

unescape-escape : (s : Text) → unescape (escape s) ≡ s
unescape-escape s = elim (Bool-cases (is_plain s)) [
  | inl e ↦ rw e (unescape_plain s e)
  | inr e ↦ rw e (unshift-shift s)
]

abbrev lacks : ℕ → Text → Bool
lacks x [] = true
lacks x (c ∷ cs) = not (c == x) && lacks x cs

plain_lacks : (s : Text) → is_plain s ≡ true → (lacks b'=' s ≡ true) × (lacks b'&' s ≡ true)
plain_lacks [] h = (refl, refl)
plain_lacks (c ∷ cs) h =
    let rest = plain_lacks cs (ground arith) in (ground (arith, rest.0), ground (arith, rest.1))

escape-lacks : (s : Text) → lacks b'&' (escape s) ≡ true
escape-lacks s = elim (Bool-cases (is_plain s)) [
  | inl e ↦ rw e (plain_lacks s e).1
  | inr e ↦ rw e (plain_lacks (shift s) (shift-plain s)).1
]

-- A parser with the key that was read, if any, and the text since.
unfoldable parse : Option Text → Text → Text → List (Text × Text)
parse none now [] = []
parse (some k) now [] = (k, unescape now) ∷ []
parse none now (c ∷ cs) =
    let at_value = parse (some now) [] cs in
    let longer = parse none (now ++ c ∷ []) cs in if c == b'=' then at_value else longer
parse (some k) now (c ∷ cs) =
    let at_key = parse none [] cs in
    let longer = parse (some k) (now ++ c ∷ []) cs in
    if c == b'&' then (k, unescape now) ∷ at_key else longer

parse_key :
    (k now rest : Text)
    → lacks b'=' k ≡ true
    → parse none now (k ++ b'=' ∷ rest) ≡ parse (some (now ++ k)) [] rest
unfolding parse
parse_key [] now rest h = rw (append-nil now) refl
parse_key (c ∷ cs) now rest h =
    if_false (c == b'=') _ _ (ground arith)
    ∙ parse_key cs (now ++ c ∷ []) rest (ground arith)
    ∙ ap (λ t. parse (some t) [] rest) (append_assoc now (c ∷ []) cs)

parse_value :
    (k v now rest : Text)
    → lacks b'&' v ≡ true
    → parse (some k) now (v ++ b'&' ∷ rest) ≡ (k, unescape (now ++ v)) ∷ parse none [] rest
unfolding parse
parse_value k [] now rest h = rw (append-nil now) refl
parse_value k (c ∷ cs) now rest h =
    if_false (c == b'&') _ _ (ground arith)
    ∙ parse_value k cs (now ++ c ∷ []) rest (ground arith)
    ∙ ap (λ t. (k, unescape t) ∷ parse none [] rest) (append_assoc now (c ∷ []) cs)

parse_last :
    (k v now : Text) → lacks b'&' v ≡ true → parse (some k) now v ≡ (k, unescape (now ++ v)) ∷ []
unfolding parse
parse_last k [] now h = rw (append-nil now) refl
parse_last k (c ∷ cs) now h =
    if_false (c == b'&') _ _ (ground arith)
    ∙ parse_last k cs (now ++ c ∷ []) (ground arith)
    ∙ ap (λ t. (k, unescape t) ∷ []) (append_assoc now (c ∷ []) cs)

unreserved_lacks : (s : Text) → All IsUnreserved s → lacks b'=' s ≡ true
unreserved_lacks [] h = refl
unreserved_lacks (c ∷ cs) h = ground (arith, h.0, unreserved_lacks cs h.1)

parses :
    (ps : List (Text × Text))
    → All (λ p. All IsUnreserved p.0) ps
    → length ps < 1000
    → parse none [] (raw_query (map (escaped escape) ps)) ≡ ps
unfolding raw_query parse codes
parses [] h n = refl
parses ((k, v) ∷ []) h n =
    parse_key k [] (escape v) (unreserved_lacks k h.0)
    ∙ parse_last k (escape v) [] (escape-lacks v)
    ∙ ap (λ t. (k, t) ∷ []) (unescape-escape v)
parses ((k, v) ∷ p ∷ ps) h n =
    parse_key k [] (escape v ++ b'&' ∷ raw_query (map (escaped escape) (p ∷ ps)))
      (unreserved_lacks k h.0)
    ∙ parse_value k (escape v) [] (raw_query (map (escaped escape) (p ∷ ps))) (escape-lacks v)
    ∙ ap (λ t. (k, t) ∷ parse none [] (raw_query (map (escaped escape) (p ∷ ps))))
        (unescape-escape v)
    ∙ ap (λ t. (k, v) ∷ t) (parses (p ∷ ps) h.1 (omega (arith, n)))

abbrev shifting : UrlLibrary
shifting = record {
  parse_query = parse none [];
  read_raw_url = λ s. record { bytes = unshift s; fault = none };
  read_padded_url = λ s. record { bytes = unshift s; fault = none };
}

abbrev asker : RequestWriter Text
asker = record {
  base = writer;
  codec_name = codes "proto";
  enable_get = true;
  get_url_max_bytes = 0;
  get_use_fallback = false;
  stable_codec = some (record { is_binary = false; marshal_stable = ok });
  url_string = λ query. query;
  query_escape = escape;
  base64_url = shift;
}

asker-IsUrl : IsUrl asker shifting
asker-IsUrl = record {
  parses = parses;
  plain = λ s h. if_true (is_plain s) s _ (plain_again s h);
  safe = λ s. is_plain-IsUnreserved (shift s) (shift-plain s);
  raw = λ s. rw (unshift-shift s) refl;
  padded = λ s h. rw (unshift-shift s) refl;
}
  where
    plain_again : (s : Text) → All IsUnreserved s → is_plain s ≡ true
    plain_again [] h = refl
    plain_again (c ∷ cs) h = ground (arith, h.0, plain_again cs h.1)

abbrev answerer : ConnectHandler
answerer = record {
  unary = true;
  pools = record {
    by_name = (codes "mark", marker (codes "mark")) ∷ [];
    comma_separated_names = codes "mark";
  };
  require_header = true;
  flush_error = none;
  has_codec = eq_text (codes "proto");
  quote = quote;
}

answerer-Knows : Knows asker shifting asker-IsUrl answerer true
unfolding codes eq_text contains lookup_pool
answerer-Knows = record {
  unary = refl;
  can_flush = refl;
  has_codec = refl;
  nonempty = λ e. refl;
  not_identity = λ e. refl;
  has_pool = λ e. refl;
}

abbrev text_codec : StableCodec Text
text_codec = record { is_binary = false; marshal_stable = ok }

read_new_conn-build_get_url_example :
    let r =
      read_new_conn answerer shifting
        (get_request asker shifting asker-IsUrl text_codec (9 ∷ b'&' ∷ []) true []) in
    (r.failed ≡ none)
    × (r.body ≡ record { bytes = 9 ∷ b'&' ∷ []; fault = none })
    × (r.codec_name ≡ asker.codec_name)
    × (r.request_compression ≡ codes "mark")
read_new_conn-build_get_url_example =
    read_new_conn-build_get_url asker shifting asker-IsUrl answerer text_codec (9 ∷ b'&' ∷ []) true
      [] answerer-Knows
