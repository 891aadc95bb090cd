-- ===== src/Gateway/Race.antt =====
-- Two handlers of internal/gateway/gateway.go that overlap: AssignJob waits for its send, and the node,
-- which has got the message although the send fails, answers in the meantime.
use routecat.Prelude.{Bool, Option, String, true, ℕ}
use routecat.Text.{Text}
use routecat.Gateway.State.{Gateway, NodeConn}
use routecat.Gateway.Jobs.{AssignError, begin_assign}
use routecat.Gateway.Handlers.{admitted}

module _ {F : Type 0} (nc : NodeConn F) (job_id model user_key : String) (body : Text)
    (free_tier : Bool) (now : ℕ) (g : Gateway F) where
  abbrev begun : Option AssignError × Gateway F
  begun = begin_assign nc.node_id job_id model user_key body free_tier now g

  abbrev waiting : Gateway F
  waiting = admitted true nc.node_id job_id model user_key body free_tier now g
