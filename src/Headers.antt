-- ===== src/Headers.antt =====
-- connecthttp/header.go: the operations on an `http.Header`.
--
-- A Go map is the list of its entries, each key once; a nil map reads as the empty one, and a write
-- to a nil map does not occur. The order of the entries stands for the order in which `range` yields
-- them.
pub mod Laws
pub mod Metadata
use connect_go.Base.{
  ℕ, zero, suc, Bool, true, false, ◌||◌, List, [], ◌∷◌, ◌++◌, Option, none, some, Text, codes,
  eq_text, ◌==◌, if◌then◌else◌, length,
}

abbrev pub Headers : Type 0
Headers = List (Text × List Text)

-- `h[key]`, and whether it is there.
unfoldable pub find : Text → Headers → Option (List Text)
find key [] = none
find key ((k, vs) ∷ h) = if eq_text k key then some vs else find key h

abbrev pub or_nil : Option (List Text) → List Text
or_nil none = []
or_nil (some vs) = vs

abbrev pub values : Text → Headers → List Text
values key h = or_nil (find key h)

-- `h[key] = vs`
unfoldable pub put : Text → List Text → Headers → Headers
put key vs [] = (key, vs) ∷ []
put key vs ((k, old) ∷ h) = if eq_text k key then (k, vs) ∷ h else (k, old) ∷ put key vs h

-- `delHeaderCanonical`
unfoldable pub delete : Text → Headers → Headers
delete key [] = []
delete key ((k, vs) ∷ h) = if eq_text k key then delete key h else (k, vs) ∷ delete key h

abbrev pub first_or_empty : List Text → Text
first_or_empty [] = []
first_or_empty (v ∷ _) = v

-- `getHeaderCanonical`
unfoldable pub get : Text → Headers → Text
get key h = first_or_empty (values key h)

-- `setHeaderCanonical`
unfoldable pub set : Text → Text → Headers → Headers
set key value h = put key (value ∷ []) h

abbrev pub append_values : Headers → Text → List Text → Headers
append_values h key vs = put key (values key h ++ vs) h

-- `mergeHeaders`: the new `into`.
unfoldable pub merge_headers : Headers → Headers → Headers
merge_headers into [] = into
merge_headers into ((key, []) ∷ from) = merge_headers into from
merge_headers into ((key, v ∷ vs) ∷ from) = merge_headers (append_values into key (v ∷ vs)) from

abbrev pub user_agent : Text
user_agent = codes "User-Agent"

abbrev pub has_entry : Option (List Text) → Bool
has_entry none = false
has_entry (some _) = true

-- `setUserAgentIfAbsent`
unfoldable pub set_user_agent_if_absent : Text → Headers → Headers
set_user_agent_if_absent value h =
    if has_entry (find user_agent h) then h else put user_agent (value ∷ []) h

-- `protocolHeaders`
unfoldable pub protocol_headers : List Text
protocol_headers =
    codes "Content-Type"
    ∷ codes "Content-Length"
    ∷ codes "Content-Encoding"
    ∷ codes "Trailer"
    ∷ codes "Date"
    ∷ codes "Accept-Encoding"
    ∷ codes "Trailer-"
    ∷ codes "Connect-Content-Encoding"
    ∷ codes "Connect-Accept-Encoding"
    ∷ codes "Connect-Timeout-Ms"
    ∷ codes "Connect-Protocol-Version"
    ∷ codes "Grpc-Encoding"
    ∷ codes "Grpc-Accept-Encoding"
    ∷ codes "Grpc-Timeout"
    ∷ codes "Grpc-Status"
    ∷ codes "Grpc-Message"
    ∷ codes "Grpc-Status-Details-Bin"
    ∷ []

unfoldable pub is_one_of : List Text → Text → Bool
is_one_of [] key = false
is_one_of (k ∷ ks) key = eq_text k key || is_one_of ks key

abbrev pub is_protocol_header : Text → Bool
is_protocol_header = is_one_of protocol_headers

-- `toHTTPHeader`: the new `h`.
unfoldable pub to_http_header : Headers → Headers → Headers
to_http_header h [] = h
to_http_header h ((key, vs) ∷ header) =
    let skipped = to_http_header h header in
    let appended = to_http_header (append_values h key vs) header in
    if is_protocol_header key then skipped else appended
