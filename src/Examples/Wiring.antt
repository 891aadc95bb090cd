-- ===== src/Examples/Wiring.antt =====
-- Runs of the read loop, of the server's routes and of the program's start.
use routecat.Prelude.{List, Option, [], false, refl, some, ℕ, ◌∷◌, ◌≡◌}
use routecat.Prelude.Int.{pos}
use routecat.Prelude.Dict.{erase, insert, lookup}
use routecat.Text.{Text, byte_length, codes, is_nil, split, text_eq}
use routecat.Float64.FixedPoint.{fixed_point}
use routecat.Middleware.{Arrival}
use routecat.Server.{mux_route, redirected, serve, server_limiter, top_up}
use routecat.Server.Guarded.{Served, serve-Served}
use routecat.Main.{Options}
use routecat.Gateway.State.{NodeConn, panics}
use routecat.Gateway.Nodes.{connected_nodes, handle_heartbeat, put_conn}
use routecat.Gateway.Messages.{WsMsg, session}
use routecat.Api.Public.{BuildInfo}
use routecat.Examples.Data.{engine, live, no_usage, node_conn}

abbrev pub blank_msg : WsMsg ℕ
blank_msg = record {
  msg_type = "pong";
  node_id = "";
  job_id = "";
  model = "";
  vram_required_mb = pos 0;
  buyer_region = "";
  free_tier = false;
  gpu_util_pct = pos 0;
  vram_free_mb = pos 20000;
  temp_c = pos 40;
  power_w = 0;
  queue_depth = pos 2;
  earning_state = "";
  status = "";
  jobs_today = pos 0;
  tokens_today = pos 0;
  earned_today_usd = 0;
  earned_today_sats = pos 0;
  earned_total_sats = pos 0;
  queue_depth_global = pos 0;
  balance_sats = pos 0;
  karma_score = pos 0;
  karma_tier = "";
  free_tier_jobs = pos 0;
  broadcasts = [];
  withdraw_history = [];
  btc_live_usd = 0;
  btc_yesterday_fix = 0;
  btc_daily_avg = 0;
  btc_weekly_avg = 0;
  btc_price_status = "";
  tokens = pos 0;
  earned_usd = 0;
  reason = "";
  data_text = "data: x";
}

abbrev pub heartbeat : WsMsg ℕ
heartbeat = record blank_msg { msg_type = "heartbeat" }

-- A chunk and the end of the job j1, and a message of no known type.
abbrev messages : List (WsMsg ℕ × ℕ)
messages =
    (heartbeat, 1000)
    ∷ (record blank_msg { msg_type = "proxy_chunk"; job_id = "j1" }, 2000)
    ∷ (record blank_msg { msg_type = "proxy_done"; job_id = "j1" }, 3000)
    ∷ (record blank_msg { msg_type = "hello" }, 4000)
    ∷ []

-- A node whose id is shorter than eight bytes: its first heartbeat panics, and it stays live.
abbrev short_conn : NodeConn ℕ
short_conn = record node_conn { node_id = "n1" }

short_id_run :
    let out =
      session fixed_point no_usage engine short_conn
        ((heartbeat, 1000) ∷ [])
        (put_conn short_conn live) in
    (out.0 ≡ panics) × (connected_nodes out.1 ≡ 2)
unfolding session handle_heartbeat connected_nodes insert erase lookup byte_length
short_id_run = (refl, refl)

abbrev visit : Text → Arrival
visit path = record { path = path; remote_addr = "10.0.0.9"; real_ip = "" }

top_up_run : mux_route (codes "/v1/auth/topup") ≡ top_up
unfolding mux_route text_eq is_nil split
top_up_run = refl

dots_run : mux_route (codes "/v1/../v1/stats") ≡ redirected
unfolding mux_route text_eq is_nil split
dots_run = refl

serve-Served_example :
    Served
      (visit (codes "/v1/auth/topup"))
      5
      server_limiter
      (serve (visit (codes "/v1/auth/topup")) 5 server_limiter).0
serve-Served_example = serve-Served (visit (codes "/v1/auth/topup")) 5 server_limiter

abbrev pub options : Options ℕ
options = record {
  addr = codes ":8080";
  db_path = codes "routecat.db";
  lnd_addr = codes "umbrel";
  lnd_macaroon = codes "admin.macaroon";
  lnd_tls = [];
  fee = 5;
}

abbrev pub build : BuildInfo
build = record { version = "0.2.0"; commit = "dev" }

abbrev pub macaroon_file : Text → Option (List ℕ)
macaroon_file path = some (2 ∷ 1 ∷ [])
