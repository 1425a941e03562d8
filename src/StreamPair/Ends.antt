-- ===== src/StreamPair/Ends.antt =====
-- How a stream inside the process ends, whatever its handler leaves behind.
use connect_go.Base.{◌≡◌, true, false, List, [], ◌∷◌, Option, some, some, Text}
use connect_go.Client.{CallInfo, new_call_info}
use connect_go.Headers.{Headers}
use connect_go.Inprocess.{synced_response}
use connect_go.Errors.{GoError}
use connect_go.StreamPair.{Pair, Event, handler_ended}

-- How the handler ended: its error, and its response headers and trailers.
abbrev pub End : Type 0
End = Option GoError × (Headers × Headers)

-- The ends of the handler in a run, the last one first, in front of those of before.
abbrev with_end : {M : Type 0} → Event M → List End → List End
with_end (handler_ended o response trailer) os = (o, (response, trailer)) ∷ os
with_end _ os = os

unfoldable pub endings : {M : Type 0} → List (Event M) → List End → List End
endings [] os = os
endings (e ∷ es) os = endings es (with_end e os)

-- The client's CallInfo with the metadata that a handler set.
abbrev pub told :
    {A : Type 0} → (Text → Text) → Headers → Headers → Option (CallInfo A) → Option (CallInfo A)
told canonical response trailer info =
    synced_response canonical (record new_call_info { response = response; trailer = trailer }) info

-- The handler runs on, or has ended once, with the error that the pair keeps and the metadata that the
-- client was told, whose CallInfo was `info`.
data Ended {A M : Type 0} (canonical : Text → Text) (info : Option (CallInfo A)) (p : Pair A M)
    : List End → Type 0 where
  runs_on :
      p.returned ≡ false
      → p.response_closed ≡ false
      → p.client_info ≡ info
      → Ended canonical info p []
  has_ended :
      (o : Option GoError) (response trailer : Headers)
      → p.returned ≡ true
      → p.server_err ≡ o
      → p.client_info ≡ told canonical response trailer info
      → Ended canonical info p ((o, (response, trailer)) ∷ [])

module _ {A M : Type 0} (canonical : Text → Text) (info : Option (CallInfo A)) where
  -- What a closed channel of responses tells.
  record IsOver (p : Pair A M) (os : List End) : Type 0 where
    response : Headers
    trailer : Headers
    returned : p.returned ≡ true
    once : os ≡ (p.server_err, (response, trailer)) ∷ []
    client : p.client_info ≡ told canonical response trailer info
