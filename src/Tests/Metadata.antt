-- ===== src/Tests/Metadata.antt =====
-- Headers and metadata at concrete values.
use connect_go.Base.{◌≡◌, refl, [], ◌∷◌, ◌++◌, Text, codes, eq_text, if◌then◌else◌, ◌==◌}
use connect_go.Headers.Laws.{IsMap, values-to_http_header}
use connect_go.Headers.{Headers, find, values, to_http_header, is_protocol_header}

abbrev trailer : Headers
trailer = (codes "Etag", codes "a" ∷ []) ∷ (codes "Grpc-Status", []) ∷ []

trailer-IsMap : IsMap trailer
unfolding find eq_text codes
trailer-IsMap = (refl, (refl, tt))

values-to_http_header_example : values (codes "Grpc-Status") (to_http_header [] trailer) ≡ (
    if is_protocol_header (codes "Grpc-Status")
    then values (codes "Grpc-Status") []
    else values (codes "Grpc-Status") [] ++ values (codes "Grpc-Status") trailer)
values-to_http_header_example = values-to_http_header [] trailer (codes "Grpc-Status") trailer-IsMap

-- Keys in lower case, as far as the letter E goes.
abbrev lower_e : Text → Text
lower_e [] = []
lower_e (c ∷ cs) = (if c == b'E' then b'e' else c) ∷ lower_e cs
