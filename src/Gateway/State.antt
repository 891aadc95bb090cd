-- ===== src/Gateway/State.antt =====
-- internal/gateway/gateway.go and types.go: the state of the gateway. Times are nanoseconds since the
-- epoch; `F` is the type of Go's float64.
use routecat.Prelude.{Bool, List, String, if◌then◌else◌, leb, ℕ, ◌/◌}
use routecat.Prelude.Int.{ℤ}
use routecat.Prelude.Dict.{Dict}
use routecat.Text.{Text, byte_length, codes}
use routecat.Store.Tables.{Db}

-- A live connection. `conn` tells one connection from another, as its pointer does.
pub record NodeConn (F : Type 0) : Type 0 where
  pub conn : ℕ
  pub node_id : String
  pub api_key : String
  pub models : List String
  pub vram_total_mb : ℤ
  pub vram_free_mb : ℤ
  pub gpu_util_pct : ℤ
  pub temp_c : ℤ
  pub power_w : F
  pub region : String
  pub queue_depth : ℤ

-- A buyer's request in flight. `response_ch` holds the chunks that wait in the channel.
pub record PendingJob : Type 0 where
  pub job_id : String
  pub node_id : String
  pub user_key : String
  pub model : String
  pub buyer_body : Text
  pub response_ch : List Text
  pub free_tier : Bool
  pub started_at : ℕ
  pub last_chunk : Text

-- What the gateway sends to a node; a heartbeat's acknowledgement is left to the heartbeat itself.
pub data Outgoing (F : Type 0) : Type 0 where
  ping : Outgoing F
  assigns : String → String → Outgoing F
  job_complete : String → ℤ → F → Outgoing F

pub record Gateway (F : Type 0) : Type 0 where
  pub nodes : Dict (NodeConn F)
  pub pending_jobs : Dict PendingJob
  pub user_jobs : Dict ℕ
  -- the ids of the jobs whose DoneCh has been closed, the last one first
  pub closed : List String
  -- the messages handed to the connections, the last one first
  pub sent : List (String × Outgoing F)
  pub db : Db

-- How a handler ends: Go's slice expressions panic out of range.
pub data Exit : Type 0 where
  returns : Exit
  panics : Exit

-- s[:n] in a log line
abbrev pub log_prefix : String → ℕ → Exit
log_prefix s n = if leb n (byte_length (codes s)) then returns else panics

abbrev pub second : ℕ
second = 1000000000

-- A time as the database stores it.
abbrev pub seconds : ℕ → ℕ
seconds t = t / second
