-- ===== src/Gateway/Messages.antt =====
-- internal/gateway/types.go and gateway.go: the messages of the control protocol, the read loop of a
-- connection, and the connection from its entry into the live map to its end.
use routecat.Prelude.{Bool, List, String, [], false, if◌then◌else◌, str_eq, true, ℕ, ◌∷◌}
use routecat.Prelude.Int.{ℤ}
use routecat.Text.{codes}
use routecat.Float64.{Float64}
use routecat.Billing.{Engine}
use routecat.Gateway.State.{Exit, Gateway, NodeConn, panics, ping, returns}
use routecat.Gateway.Usage.{Unmarshal}
use routecat.Gateway.Jobs.{handle_accept, handle_proxy_chunk, handle_reject, push_sent}
use routecat.Gateway.Done.{handle_proxy_done}
use routecat.Gateway.Nodes.{Heartbeat, disconnect, handle_heartbeat}

pub record Broadcast : Type 0 where
  pub id : String
  pub title : String
  pub message : String
  pub severity : String
  pub timestamp : String

pub record Withdraw : Type 0 where
  pub amount_sats : ℤ
  pub payment_hash : String
  pub timestamp : String

-- The envelope of every message, in both directions; `F` is the type of Go's float64.
pub record WsMsg (F : Type 0) : Type 0 where
  pub msg_type : String
  pub node_id : String
  -- job assignment
  pub job_id : String
  pub model : String
  pub vram_required_mb : ℤ
  pub buyer_region : String
  pub free_tier : Bool
  -- heartbeat
  pub gpu_util_pct : ℤ
  pub vram_free_mb : ℤ
  pub temp_c : ℤ
  pub power_w : F
  pub queue_depth : ℤ
  pub earning_state : String
  -- the answer to a heartbeat
  pub status : String
  pub jobs_today : ℤ
  pub tokens_today : ℤ
  pub earned_today_usd : F
  pub earned_today_sats : ℤ
  pub earned_total_sats : ℤ
  pub queue_depth_global : ℤ
  pub balance_sats : ℤ
  pub karma_score : ℤ
  pub karma_tier : String
  pub free_tier_jobs : ℤ
  pub broadcasts : List Broadcast
  pub withdraw_history : List Withdraw
  pub btc_live_usd : F
  pub btc_yesterday_fix : F
  pub btc_daily_avg : F
  pub btc_weekly_avg : F
  pub btc_price_status : String
  -- job complete
  pub tokens : ℤ
  pub earned_usd : F
  -- reject, and the chunks of an answer
  pub reason : String
  pub data_text : String

abbrev pub heartbeat_of : {F : Type 0} → WsMsg F → Heartbeat F
heartbeat_of msg = record {
  gpu_util_pct = msg.gpu_util_pct;
  vram_free_mb = msg.vram_free_mb;
  temp_c = msg.temp_c;
  power_w = msg.power_w;
  queue_depth = msg.queue_depth;
}

-- A tick of the ping loop, and whether the loop goes on: it ends if the ping cannot be sent.
unfoldable pub ping_tick : {F : Type 0} → Bool → NodeConn F → Gateway F → Bool × Gateway F
ping_tick delivered nc g = if delivered then (true, push_sent nc.node_id ping g) else (false, g)

module _ (fl : Float64) (unmarshal : Unmarshal) (engine : Engine fl.F) where
  -- The switch of the read loop. A message of an unknown type is only logged.
  unfoldable pub dispatch : NodeConn fl.F → WsMsg fl.F → ℕ → Gateway fl.F → Exit × Gateway fl.F
  dispatch nc msg now g =
      if str_eq msg.msg_type "heartbeat"
      then (let (exit, (ack, g')) = handle_heartbeat engine.price (heartbeat_of msg) nc now g in
          (exit, g'))
      else if str_eq msg.msg_type "pong"
      then (returns, g)
      else if str_eq msg.msg_type "accept"
      then (returns, handle_accept nc msg.job_id g)
      else if str_eq msg.msg_type "reject"
      then (returns, handle_reject nc msg.job_id g)
      else if str_eq msg.msg_type "proxy_chunk"
      then (returns, handle_proxy_chunk nc msg.job_id (codes msg.data_text) g)
      else if str_eq msg.msg_type "proxy_done"
      then handle_proxy_done fl unmarshal engine nc msg.job_id now g
      else (returns, g)

  -- The loop over the messages that arrive, each with its time, until the read fails. A panic of a
  -- handler ends it.
  unfoldable pub read_loop :
      NodeConn fl.F → List (WsMsg fl.F × ℕ) → Gateway fl.F → Exit × Gateway fl.F
  unfolding dispatch
  read_loop nc [] g = (returns, g)
  read_loop nc ((msg, now) ∷ msgs) g =
      let (exit, g') = dispatch nc msg now g in
      let rest = read_loop nc msgs g' in elim exit [ panics ↦ (panics, g') | returns ↦ rest ]

  -- HandleWS behind the entry into the live map. The cleanup stands behind the read loop and is not
  -- deferred: net/http recovers a panic, but does not run it.
  unfoldable pub session :
      NodeConn fl.F → List (WsMsg fl.F × ℕ) → Gateway fl.F → Exit × Gateway fl.F
  unfolding read_loop
  session nc msgs g =
      let (exit, g') = read_loop nc msgs g in
      elim exit [ panics ↦ (panics, g') | returns ↦ (returns, disconnect nc g') ]
