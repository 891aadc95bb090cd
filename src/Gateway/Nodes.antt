-- ===== src/Gateway/Nodes.antt =====
-- internal/gateway/gateway.go: the connections of the provider nodes, their heartbeats, and what the
-- router sees of them. Go's maps have no order: the order of the lists is one of the possible ones.
use routecat.Prelude.{
  Bool, List, Option, String, [], if◌then◌else◌, inl, inr, map, none, not, some, str_eq, ℕ, ◌==◌,
  ◌∷◌, ◌⊎◌,
}
use routecat.Prelude.Int.{leb_ℤ, pos, wrap64, ℤ, ◌+ℤ◌}
use routecat.Prelude.Dict.{Dict, erase, insert, lookup, size}
use routecat.Http.{Status, bad_request, forbidden, unauthorized}
use routecat.Store.Tables.{Node, Payout}
use routecat.Store.Sql.{Result, Sql, err, ok, or_zero, pure, ◌>>=◌}
use routecat.Store.Nodes.{node_by_api_key}
use routecat.Store.Jobs.{
  earned_total, node_earnings_today, node_earnings_total, node_jobs_today, node_karma,
}
use routecat.Store.Payouts.{node_balance, node_withdraw_history}
use routecat.Gateway.State.{Exit, Gateway, NodeConn, log_prefix, seconds}
use routecat.Router.{NodeInfo}

-- What a heartbeat reports.
pub record Heartbeat (F : Type 0) : Type 0 where
  pub gpu_util_pct : ℤ
  pub vram_free_mb : ℤ
  pub temp_c : ℤ
  pub power_w : F
  pub queue_depth : ℤ

-- The answer to it. The fields `…_sats` of the protocol carry msats.
pub record HeartbeatAck (F : Type 0) : Type 0 where
  pub jobs_today : ℤ
  pub tokens_today : ℤ
  pub earned_today_sats : ℤ
  pub earned_total_sats : ℤ
  pub balance_sats : ℤ
  pub queue_depth_global : ℤ
  pub btc_live_usd : F
  pub withdraw_history : List (ℤ × String × ℕ)
  pub karma_score : ℤ
  pub karma_tier : String
  pub free_tier_jobs : ℤ

unfoldable pub karma_level : ℤ → String
karma_level score =
    if leb_ℤ (pos 10000) score
    then "diamond"
    else if leb_ℤ (pos 5000) score
    then "gold"
    else if leb_ℤ (pos 1000) score
    then "silver"
    else if leb_ℤ (pos 100) score
    then "bronze"
    else ""

-- (w.AmountMsats, w.PaymentHash, w.CreatedAt)
abbrev withdraw_of : Payout → ℤ × String × ℕ
withdraw_of w = (w.amount_msats, w.payment_hash, w.created_at)

module _ {F : Type 0} where
  unfoldable pub sum_depths : Dict (NodeConn F) → ℤ
  sum_depths [] = pos 0
  sum_depths ((id, nc) ∷ nodes) = wrap64 (nc.queue_depth +ℤ sum_depths nodes)

  unfoldable pub global_queue_depth : Gateway F → ℤ
  unfolding sum_depths
  global_queue_depth g = sum_depths g.nodes

  unfoldable pub connected_nodes : Gateway F → ℕ
  connected_nodes g = size g.nodes

  unfoldable pub get_node : Gateway F → String → Option (NodeConn F)
  get_node g node_id = lookup node_id g.nodes

  abbrev pub node_info : NodeConn F → NodeInfo
  node_info nc = record {
    node_id = nc.node_id;
    models = nc.models;
    vram_free_mb = nc.vram_free_mb;
    region = nc.region;
    queue_depth = nc.queue_depth;
  }

  unfoldable pub live_nodes : Gateway F → List (NodeConn F)
  live_nodes g = map (λ e. e.1) g.nodes

  unfoldable pub live_node_infos : Gateway F → List NodeInfo
  live_node_infos g = map (λ e. node_info e.1) g.nodes

  -- HandleWS up to the read loop: the node of the key gets a connection, in place of one that it has.
  -- The upgrade of the request is the network's.
  abbrev pub new_conn : F → ℕ → Node → NodeConn F
  new_conn zero_float conn node = record {
    conn = conn;
    node_id = node.node_id;
    api_key = node.api_key;
    models = node.models;
    vram_total_mb = node.vram_total_mb;
    vram_free_mb = pos 0;
    gpu_util_pct = pos 0;
    temp_c = pos 0;
    power_w = zero_float;
    region = node.region;
    queue_depth = pos 0;
  }

  abbrev pub put_conn : NodeConn F → Gateway F → Gateway F
  put_conn nc g = record g { nodes = insert nc.node_id nc g.nodes }

  unfoldable pub connect : F → Bool → ℕ → String → Gateway F → (Status ⊎ NodeConn F) × Gateway F
  connect zero_float upgraded conn api_key g =
      if str_eq api_key ""
      then (inl unauthorized, g)
      else (let (r, db') = node_by_api_key api_key g.db in
          let g' = record g { db = db' } in
          elim r [
            | err e ↦ (inl forbidden, g')
            | ok node ↦ if not upgraded then (inl bad_request, g') else (
              inr (new_conn zero_float conn node),
              put_conn (new_conn zero_float conn node) g',
            )
          ])

  -- The end of HandleWS: the entry goes only if it is still this connection.
  unfoldable pub disconnect : NodeConn F → Gateway F → Gateway F
  disconnect nc g = elim (lookup nc.node_id g.nodes) [
    | none ↦ g
    | some current ↦
        if current.conn == nc.conn then record g { nodes = erase nc.node_id g.nodes } else g
  ]

  abbrev pub with_heartbeat : Heartbeat F → NodeConn F → NodeConn F
  with_heartbeat hb nc = record nc {
    gpu_util_pct = hb.gpu_util_pct;
    vram_free_mb = hb.vram_free_mb;
    temp_c = hb.temp_c;
    power_w = hb.power_w;
    queue_depth = hb.queue_depth;
  }

  -- The live state behind the map's entry, if the entry is this connection.
  unfoldable pub beat : Heartbeat F → NodeConn F → Gateway F → Gateway F
  beat hb nc g = elim (lookup nc.node_id g.nodes) [
    | none ↦ g
    | some current ↦
        if current.conn == nc.conn
        then record g { nodes = insert nc.node_id (with_heartbeat hb current) g.nodes }
        else g
  ]

  -- The statistics of the acknowledgement; a query that fails leaves zero values.
  unfoldable pub ack_of : F → ℤ → String → ℕ → Sql (HeartbeatAck F)
  ack_of btc_price queue_depth node_id now = do
    balance ← or_zero (pos 0) (node_balance node_id)
    earned_today ← or_zero (pos 0) (node_earnings_today node_id now)
    earned_total ← or_zero (pos 0) (node_earnings_total node_id)
    (jobs_today, tokens_today) ← or_zero (pos 0, pos 0) (node_jobs_today node_id now)
    withdraws ← or_zero [] (node_withdraw_history node_id 5)
    (free_tier_jobs, karma_score) ← or_zero (pos 0, pos 0) (node_karma node_id now)
    pure (record {
      jobs_today = jobs_today;
      tokens_today = tokens_today;
      earned_today_sats = earned_today;
      earned_total_sats = earned_total;
      balance_sats = balance;
      queue_depth_global = queue_depth;
      btc_live_usd = btc_price;
      withdraw_history = map withdraw_of withdraws;
      karma_score = karma_score;
      karma_tier = karma_level karma_score;
      free_tier_jobs = free_tier_jobs;
    })

  -- The log line takes eight characters of the node's id.
  unfoldable pub handle_heartbeat :
      F → Heartbeat F → NodeConn F → ℕ → Gateway F → Exit × (Result (HeartbeatAck F) × Gateway F)
  unfolding beat ack_of
  handle_heartbeat btc_price hb nc now g =
      let g' = beat hb nc g in
      let (ack, db') = ack_of btc_price (global_queue_depth g') nc.node_id (seconds now) g'.db in
      (log_prefix nc.node_id 8, (ack, record g' { db = db' }))
