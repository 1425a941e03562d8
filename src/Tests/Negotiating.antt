-- ===== src/Tests/Negotiating.antt =====
-- Compression pools and the choice of a compression at concrete values.
use connect_go.Base.{
  ◌≡◌, ◌≢◌, refl, true, false, ◌||◌, ◌&&◌, [], ◌∷◌, ◌++◌, Option, none, some, Text, codes, arith,
  if◌then◌else◌, length, eq_text, ltb, ◌==◌,
}
use connect_go.Codes.{unimplemented}
use connect_go.Compression.Limits.{decompress_lem}
use connect_go.Compression.Negotiation.{
  IsUsable, IsUnavailable, negotiate_agreed, negotiate_refused,
}
use connect_go.Compression.Registry.{first_named, new_pools_lem}
use connect_go.Compression.{
  Compressor, Pools, new_pools, get, contains, collect, lookup_pool, is_some, identity, fields,
  agreed, refused, negotiate, decompress, too_large, first_available,
}
use connect_go.Errors.{GoError, opaque, code_of, io_eof}
use connect_go.Streams.{ok, fail, Stream}

-- A compressor that marks what it compressed with a leading 9.
abbrev pub unmark : Text → Stream
unmark [] = record { bytes = []; fault = some (opaque (codes "not marked")) }
unmark (c ∷ cs) =
    if c == 9
    then record { bytes = cs; fault = none }
    else record { bytes = []; fault = some (opaque (codes "not marked")) }

-- Opening fails, as that of gzip does, on bytes that do not begin with the mark.
abbrev pub open_mark : Text → Option GoError
open_mark [] = some io_eof
open_mark (c ∷ cs) = if c == 9 then none else some (opaque (codes "invalid header"))

abbrev pub marker : Text → Compressor
marker name = record {
  name = name;
  open_writer = none;
  deflate = λ x. (9 ∷ x, none);
  open_reader = open_mark;
  inflate = unmark;
}

abbrev two_pools : Pools
unfolding new_pools
two_pools = new_pools (marker (codes "gzip") ∷ marker (codes "br") ∷ [])

abbrev pub quote : Text → Text
quote t = b'"' ∷ t ++ b'"' ∷ []

abbrev payload : Text
payload = 1 ∷ 2 ∷ 3 ∷ []

decompress_lem_example : decompress (marker (codes "gzip")) (9 ∷ payload) 2 ≡ (
    if ltb 0 2 && ltb 2 (length payload) then fail (too_large (length payload) 2) else ok payload)
decompress_lem_example =
    decompress_lem (marker (codes "gzip")) (9 ∷ payload) payload 2 refl refl (omega arith)

new_pools_lem_example :
    (contains (new_pools (marker identity ∷ [])) identity
      ≡ is_some (first_named identity (marker identity ∷ [])))
    × (get (new_pools (marker identity ∷ [])) identity ≡ (
        if length identity == 0 || eq_text identity identity
        then none
        else first_named identity (marker identity ∷ [])))
new_pools_lem_example = new_pools_lem identity (marker identity ∷ [])

-- The client prefers zstd, which is not there, then br.
prefers_br : negotiate quote two_pools [] (codes "zstd, br,gzip") ≡ agreed identity (codes "br")
unfolding negotiate codes new_pools collect lookup_pool contains fields eq_text first_available
prefers_br = refl

negotiate_agreed_example :
    IsUsable two_pools identity
    × IsUsable two_pools (codes "br")
    × (identity ≢ identity → codes "br" ≡ identity)
negotiate_agreed_example =
    negotiate_agreed quote two_pools [] (codes "zstd, br,gzip") identity (codes "br") prefers_br

negotiate_refused_example :
    ((e : GoError)
      → negotiate quote two_pools (codes "zstd") [] ≡ refused e
      → IsUnavailable two_pools (codes "zstd") × (code_of e ≡ unimplemented))
    × (IsUnavailable two_pools (codes "zstd")
        → (e : GoError) × (negotiate quote two_pools (codes "zstd") [] ≡ refused e))
negotiate_refused_example = negotiate_refused quote two_pools (codes "zstd") []

accepted_fields :
    fields [] (codes "zstd, br,gzip") ≡ (codes "zstd" ∷ []) ++ codes "br" ∷ codes "gzip" ∷ []
unfolding fields codes
accepted_fields = refl

no_zstd : contains two_pools (codes "zstd") ≡ false
unfolding codes new_pools collect lookup_pool contains eq_text
no_zstd = refl

has_br : contains two_pools (codes "br") ≡ true
unfolding codes new_pools collect lookup_pool contains eq_text
has_br = refl
