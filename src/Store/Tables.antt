-- ===== src/Store/Tables.antt =====
-- internal/store/sqlite.go: the rows of the five tables and the database handle.
-- A column of the schema is a field; DATETIME columns hold whole seconds, as the texts that the
-- code stores do, and `started_at >= datetime(...)` compares them. INTEGER columns are unbounded.
use routecat.Prelude.{Bool, List, Option, String, [], ℕ}
use routecat.Prelude.Int.{ℤ}

pub data JobStatus : Type 0 where
  pending streaming complete failed : JobStatus

pub data InvoiceStatus : Type 0 where
  pending credited expired : InvoiceStatus

pub data PayoutStatus : Type 0 where
  pending sent confirmed failed : PayoutStatus

pub record Node : Type 0 where
  pub node_id : String
  pub api_key : String
  pub gpu : String
  pub gpu_vendor : String
  pub vram_total_mb : ℤ
  pub models : List String
  pub region : String
  pub lightning_addr : String
  pub redeem_threshold : ℤ
  pub free_tier_pct : ℤ
  pub version : String
  pub last_seen : ℕ

pub record ApiKey : Type 0 where
  pub key : String
  pub user_id : String
  pub name : String
  pub quota_daily : ℤ
  pub balance_msats : ℤ

pub record Invoice : Type 0 where
  pub payment_hash : String
  pub user_key : String
  pub amount_msats : ℤ
  pub bolt11 : String
  pub status : InvoiceStatus
  pub created_at : ℕ

pub record Job : Type 0 where
  pub job_id : String
  pub node_id : String
  pub user_key : String
  pub model : String
  pub tokens_in : ℤ
  pub tokens_out : ℤ
  pub earned_msats : ℤ
  pub fee_msats : ℤ
  pub free_tier : Bool
  pub status : JobStatus
  pub started_at : ℕ
  pub completed_at : Option ℕ

pub record Payout : Type 0 where
  pub id : ℕ
  pub node_id : String
  pub amount_msats : ℤ
  pub payment_hash : String
  pub status : PayoutStatus
  pub created_at : ℕ
  pub confirmed_at : Option ℕ

pub record Tables : Type 0 where
  pub nodes : List Node
  pub api_keys : List ApiKey
  pub invoices : List Invoice
  pub jobs : List Job
  pub payouts : List Payout

-- `faults` is the environment's part: one entry for each statement to come, `true` where SQLite
-- fails to execute it (disk, lock, I/O). A statement past its end succeeds.
pub record Db : Type 0 where
  pub tables : Tables
  pub faults : List Bool

abbrev pub empty_tables : Tables
empty_tables = record { nodes = []; api_keys = []; invoices = []; jobs = []; payouts = [] }
