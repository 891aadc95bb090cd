-- ===== src/Gateway/Sessions.antt =====
-- Proofs about the connections of internal/gateway/gateway.go over all their messages.
use routecat.Prelude.{Bool, false, if◌then◌else◌, none, some, str_eq, true, ℕ, ◌≡◌}
use routecat.Prelude.Dict.{lookup}
use routecat.Float64.{Float64}
use routecat.Billing.{Engine}
use routecat.Gateway.State.{Exit, Gateway, NodeConn, panics, returns}
use routecat.Gateway.Usage.{Unmarshal}
use routecat.Gateway.Done.{handle_proxy_done}
use routecat.Gateway.Nodes.{handle_heartbeat}
use routecat.Gateway.Messages.{WsMsg, dispatch, heartbeat_of}
use routecat.Text.{Text, codes}
use routecat.Gateway.Jobs.{handle_accept, handle_proxy_chunk, handle_reject}

if_rule : {A : Type 0} (P : A → Type 0) (b : Bool) {x y : A} → P x → P y → P (if b then x else y)
if_rule P true hx hy = hx
if_rule P false hx hy = hy

-- The live map's entry of the connection's node is this connection.
abbrev pub Live : {F : Type 0} → NodeConn F → Gateway F → Type 0
Live {F} nc g =
    (current : NodeConn F) × (lookup nc.node_id g.nodes ≡ some current) × (current.conn ≡ nc.conn)

module _ (fl : Float64) (unmarshal : Unmarshal) (engine : Engine fl.F) where
  -- What holds after a message, by its type.
  pub dispatch_rule :
      (P : Exit × Gateway fl.F → Type 0) (nc : NodeConn fl.F) (msg : WsMsg fl.F) (now : ℕ)
      (g : Gateway fl.F)
      → (let out = handle_heartbeat engine.price (heartbeat_of msg) nc now g in P (out.0, out.1.1))
      → P (returns, g)
      → P (returns, handle_reject nc msg.job_id g)
      → P (returns, handle_proxy_chunk nc msg.job_id (codes msg.data_text) g)
      → P (handle_proxy_done fl unmarshal engine nc msg.job_id now g)
      → P (dispatch fl unmarshal engine nc msg now g)
  unfolding dispatch handle_accept
  dispatch_rule P nc msg now g beats nothing rejects streams ends =
      if_rule P (str_eq msg.msg_type "heartbeat") beats (
        if_rule P (str_eq msg.msg_type "pong") nothing (
          if_rule P (str_eq msg.msg_type "accept") nothing (
            if_rule P (str_eq msg.msg_type "reject") rejects (
              if_rule P (str_eq msg.msg_type "proxy_chunk") streams
                (if_rule P (str_eq msg.msg_type "proxy_done") ends nothing)))))

  -- How a connection ends: its node is no longer live, or a handler has panicked and the entry stays.
  abbrev pub Ended : NodeConn fl.F → Exit → Gateway fl.F → Type 0
  Ended nc returns g = lookup nc.node_id g.nodes ≡ none
  Ended nc panics g = Live nc g
