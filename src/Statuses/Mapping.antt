-- ===== src/Statuses/Mapping.antt =====
-- What a client that sees only the HTTP status learns of a code.
use connect_go.Base.{◌≡◌, ◌⊎◌, ◌↔◌, arith}
use connect_go.Codes.{
  Code, permission_denied, deadline_exceeded, resource_exhausted, unavailable, unauthenticated,
}
use connect_go.Statuses.{code_to_http, http_to_code}

-- A client that falls back to the HTTP status takes an error to be unavailable, which callers retry,
-- exactly when the server gave one of the codes unavailable, deadline_exceeded and
-- resource_exhausted.
pub http_to_code-code_to_http-unavailable :
    (c : Code)
    → (http_to_code (code_to_http c) ≡ unavailable)
      ↔ ((c ≡ unavailable) ⊎ ((c ≡ deadline_exceeded) ⊎ (c ≡ resource_exhausted)))
unfolding code_to_http http_to_code
http_to_code-code_to_http-unavailable c = ground arith

-- The two codes about who is calling survive the fallback to the HTTP status, and no other code is
-- taken for one of them.
pub http_to_code-code_to_http-caller :
    (c : Code)
    → ((http_to_code (code_to_http c) ≡ unauthenticated) ↔ (c ≡ unauthenticated))
      × ((http_to_code (code_to_http c) ≡ permission_denied) ↔ (c ≡ permission_denied))
unfolding code_to_http http_to_code
http_to_code-code_to_http-caller c = (ground arith, ground arith)
