-- ===== src/StreamPair/Progress.antt =====
-- Nobody waits for ever on a stream inside the process.
use connect_go.Base.{◌≡◌, false, List, none, Text}
use connect_go.StreamPair.Halves.{Turns}
use connect_go.StreamPair.{Pair, Event}

module _ {A M : Type 0} (canonical : Text → Text) where
  -- Some steps that lead on.
  record Reaches (p q : Pair A M) : Type 0 where
    events : List (Event M)
    turns : Turns canonical p events q

  abbrev unsent : Pair A M → Pair A M
  unsent p = record p { sending = none }

  abbrev unreceived : Pair A M → Pair A M
  unreceived p = record p { receiving = false }

  abbrev unsent_by_handler : Pair A M → Pair A M
  unsent_by_handler p = record p { handler_sending = none }

  abbrev unreceived_by_handler : Pair A M → Pair A M
  unreceived_by_handler p = record p { handler_receiving = false }

  -- No call is blocked.
  pub record IsIdle (p : Pair A M) : Type 0 where
    pub unsent : p.sending ≡ none
    pub unreceived : p.receiving ≡ false
    pub handler_unsent : p.handler_sending ≡ none
    pub handler_unreceived : p.handler_receiving ≡ false

  pub record IsReleased (p : Pair A M) : Type 0 where
    pub events : List (Event M)
    pub last : Pair A M
    pub turns : Turns canonical p events last
    pub idle : IsIdle last
