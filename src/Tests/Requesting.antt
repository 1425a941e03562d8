-- ===== src/Tests/Requesting.antt =====
-- Unary requests of the Connect protocol: one compressed body, and one that may be a GET.
use connect_go.Base.{
  ◌≡◌, ◌<◌, refl, ap, sym, ◌∙◌, true, false, [], ◌∷◌, ◌++◌, Option, none, some, Text, codes, arith,
  eq_text, length,
}
use connect_go.Compression.{Compressor, compress}
use connect_go.Headers.{Headers, find, put, get, set}
use connect_go.Messages.RoundTrip.{IsLossless}
use connect_go.Messages.{Stats}
use connect_go.Streams.{ok}
use connect_go.Tests.Framing.{marker-IsLossless}
use connect_go.Tests.Negotiating.{marker}
use connect_go.Unary.Get.{
  RequestWriter, build_get_url, marshal_request, marshal_with_get, get_marshaled, write_with_get,
}
use connect_go.Unary.Limits.{Sends, marshal_request-Sends}
use connect_go.Unary.RoundTrip.{posted, named_pool, unmarshal_unary-marshal_unary}
use connect_go.Unary.{
  UnaryWriter, UnaryReader, compression_key, marshal_unary, write_marshaled, write_compressed,
  write_and_record, unmarshal_unary,
}

abbrev pub writer : UnaryWriter Text
writer = record {
  send = λ bytes. none;
  marshal = ok;
  compress_min_bytes = 1;
  compression_name = codes "mark";
  pool = some (marker (codes "mark"));
  header = [];
  send_max_bytes = 6;
  keeps_stats = false;
}

abbrev marked : Headers
marked = set compression_key (codes "mark") []

written : marshal_unary writer (some (7 ∷ 8 ∷ [])) ≡ posted writer (9 ∷ 7 ∷ 8 ∷ []) marked none
unfolding marshal_unary write_marshaled write_compressed write_and_record compress
written = refl

abbrev reader : UnaryReader Text
reader = record {
  ctx = record { err = none; past_deadline = false };
  stream = record { bytes = 9 ∷ 7 ∷ 8 ∷ []; fault = none };
  unmarshal = ok;
  pool = some (marker (codes "mark"));
  already_read = false;
  read_max_bytes = 10;
  keeps_stats = true;
}

no_header : get compression_key [] ≡ []
unfolding get find
no_header = refl

marked-get : get compression_key marked ≡ codes "mark"
unfolding get set find put eq_text codes
marked-get = refl

mark_pool : some (marker (codes "mark")) ≡ named_pool (some (marker (codes "mark"))) (codes "mark")
unfolding codes
mark_pool = refl

mark_nonempty : 0 < length (codes "mark")
unfolding codes
mark_nonempty = omega arith

is_marker : (c : Compressor) → some (marker (codes "mark")) ≡ some c → marker (codes "mark") ≡ c
is_marker c h = ground arith

mark-IsLossless : (c : Compressor) → some (marker (codes "mark")) ≡ some c → IsLossless c
mark-IsLossless c h = rw (← is_marker c h) (marker-IsLossless (codes "mark"))

mark-some_bytes :
    (c : Compressor) (x z : Text)
    → some (marker (codes "mark")) ≡ some c
    → c.deflate x ≡ (z, none)
    → 0 < length z
mark-some_bytes c x z h = rw (← is_marker c h) (by_mark x z)
  where
    by_mark : (x z : Text) → (marker (codes "mark")).deflate x ≡ (z, none) → 0 < length z
    by_mark x z q = let e : 9 ∷ x ≡ z = ground arith in rw (← e) (omega arith)

unmarshal_unary-marshal_unary_example :
    (stats : Option Stats) × ((unmarshal_unary reader).0 ≡ ok (7 ∷ 8 ∷ [], stats))
unmarshal_unary-marshal_unary_example =
    unmarshal_unary-marshal_unary writer reader (7 ∷ 8 ∷ []) (7 ∷ 8 ∷ []) (9 ∷ 7 ∷ 8 ∷ []) marked
      none refl refl written no_header mark_nonempty
      (mark_pool ∙ ap (named_pool (some (marker (codes "mark")))) (sym marked-get)) mark-IsLossless
      mark-some_bytes refl refl refl (omega arith) refl

abbrev getter : RequestWriter Text
getter = record {
  base = writer;
  codec_name = codes "proto";
  enable_get = true;
  get_url_max_bytes = 80;
  get_use_fallback = true;
  stable_codec = some (record { is_binary = true; marshal_stable = ok });
  url_string = λ query. codes "/a.B/C?" ++ query;
  query_escape = λ s. s;
  base64_url = λ s. s;
}

get_query :
    (marshal_request getter (some (b'h' ∷ b'i' ∷ []))).query
    ≡ some (codes "connect=v1&base64=1&encoding=proto&message=hi")
unfolding marshal_request marshal_with_get get_marshaled write_with_get build_get_url codes
get_query = refl

marshal_request-Sends_example : Sends getter (marshal_request getter (some (b'h' ∷ b'i' ∷ [])))
marshal_request-Sends_example = marshal_request-Sends getter (some (b'h' ∷ b'i' ∷ []))
