-- ===== src/Examples/Data.antt =====
-- A small market: one user, one provider node, one job, one invoice.
use routecat.Prelude.Int.{pos}
use routecat.Store.Tables.{ApiKey, Db, Invoice, InvoiceStatus, Job, JobStatus, Node, Tables}
use routecat.Lightning.Client.{Client}
use routecat.Prelude.{[], false, none, some, true, ℕ, ◌*◌, ◌∷◌}
use routecat.Billing.{Engine}
use routecat.Float64.FixedPoint.{unit}
use routecat.Gateway.State.{Gateway, NodeConn, PendingJob}
use routecat.Gateway.Usage.{Unmarshal}

abbrev pub user_row : ApiKey
user_row = record {
  key = "rc_alice";
  user_id = "u1";
  name = "alice";
  quota_daily = pos 10;
  balance_msats = pos 5000;
}

abbrev pub node_row : Node
node_row = record {
  node_id = "node-0001";
  api_key = "nk-1";
  gpu = "RTX";
  gpu_vendor = "nvidia";
  vram_total_mb = pos 24000;
  models = "phi4-mini" ∷ [];
  region = "eu";
  lightning_addr = "bob@ln.example";
  redeem_threshold = pos 100;
  free_tier_pct = pos 0;
  version = "1";
  last_seen = 0;
}

abbrev pub invoice_row : Invoice
invoice_row = record {
  payment_hash = "aabbccdd";
  user_key = "rc_alice";
  amount_msats = pos 20000;
  bolt11 = "lnbc1";
  status = InvoiceStatus.pending;
  created_at = 100;
}

abbrev pub done_job : Job
done_job = record {
  job_id = "j0";
  node_id = "node-0001";
  user_key = "rc_alice";
  model = "phi4-mini";
  tokens_in = pos 10;
  tokens_out = pos 20;
  earned_msats = pos 150000;
  fee_msats = pos 1000;
  free_tier = false;
  status = JobStatus.complete;
  started_at = 50;
  completed_at = some 60;
}

abbrev pub market : Tables
market = record {
  nodes = node_row ∷ [];
  api_keys = user_row ∷ [];
  invoices = invoice_row ∷ [];
  jobs = done_job ∷ [];
  payouts = [];
}

abbrev pub market_db : Db
market_db = record { tables = market; faults = [] }

abbrev pub pending_job : PendingJob
pending_job = record {
  job_id = "j1";
  node_id = "node-0001";
  user_key = "rc_alice";
  model = "phi4-mini";
  buyer_body = 123 ∷ [];
  response_ch = [];
  free_tier = false;
  started_at = 1000;
  last_chunk = [];
}

abbrev pub node_conn : NodeConn ℕ
node_conn = record {
  conn = 1;
  node_id = "node-0001";
  api_key = "nk-1";
  models = "phi4-mini" ∷ [];
  vram_total_mb = pos 24000;
  vram_free_mb = pos 20000;
  gpu_util_pct = pos 0;
  temp_c = pos 40;
  power_w = 0;
  region = "eu";
  queue_depth = pos 0;
}

abbrev pub other_conn : NodeConn ℕ
other_conn = record node_conn { conn = 2; node_id = "node-0002"; api_key = "nk-2" }

abbrev pub live : Gateway ℕ
live = record {
  nodes = ("node-0001", node_conn) ∷ [];
  pending_jobs = ("j1", pending_job) ∷ [];
  user_jobs = ("rc_alice", 1) ∷ [];
  closed = [];
  sent = [];
  db = market_db;
}

-- A JSON decoder that finds no usage.
abbrev pub no_usage : Unmarshal
no_usage text = none

-- A decoder that finds 1,000,000 prompt tokens in any text.
abbrev pub much_usage : Unmarshal
much_usage text = some (some (pos 1000000, pos 5))

-- A price of 100,000 dollars for a bitcoin, and a fee of 10 percent.
abbrev pub engine : Engine ℕ
engine = record { fee_pct = 10 * unit; price = 100000 * unit; pricing = [] }

-- A Lightning node that pays and reports every invoice as paid.
abbrev pub kind_client : Client (Unit {0})
kind_client = record {
  pay_address = λ addr sats w. (some "hash", w);
  get_balance = λ w. (some (pos 0), w);
  create_invoice = λ sats memo w. (some ("lnbc2", "ccddeeff"), w);
  check_invoice = λ hash w. (some true, w);
}

-- A Lightning node that answers no lookup.
abbrev pub mute_client : Client (Unit {0})
mute_client = record {
  pay_address = λ addr sats w. (none, w);
  get_balance = λ w. (some (pos 0), w);
  create_invoice = λ sats memo w. (none, w);
  check_invoice = λ hash w. (none, w);
}
