-- ===== src/Store/Nodes.antt =====
-- internal/store/sqlite.go: registered provider nodes.
use routecat.Prelude.{Bool, String, [], find, none, some, str_eq, update_where, ℕ, ◌++◌, ◌∷◌}
use routecat.Store.Tables.{Node, Tables}
use routecat.Store.Sql.{Result, Sql, constraint, err, no_rows, ok, select, statement}

abbrev pub has_node_id : String → Node → Bool
has_node_id node_id n = str_eq n.node_id node_id

abbrev pub has_api_key : String → Node → Bool
has_api_key api_key n = str_eq n.api_key api_key

unfoldable pub node_by_api_key : String → Sql Node
node_by_api_key api_key =
    select λ t. elim (find (has_api_key api_key) t.nodes) [ none ↦ err no_rows | some n ↦ ok n ]

-- DO UPDATE SET …: every column but node_id, api_key and created_at
abbrev pub refresh : Node → Node → Node
refresh new old = record old {
  gpu = new.gpu;
  gpu_vendor = new.gpu_vendor;
  vram_total_mb = new.vram_total_mb;
  models = new.models;
  region = new.region;
  lightning_addr = new.lightning_addr;
  redeem_threshold = new.redeem_threshold;
  free_tier_pct = new.free_tier_pct;
  version = new.version;
  last_seen = new.last_seen;
}

-- INSERT INTO nodes … ON CONFLICT(node_id) DO UPDATE; api_key is UNIQUE
abbrev pub upsert_node : Node → Tables → Result (Unit {0}) × Tables
upsert_node new t = elim (find (has_node_id new.node_id) t.nodes) [
  | some _ ↦
      (ok tt, record t { nodes = update_where (has_node_id new.node_id) (refresh new) t.nodes })
  | none ↦ elim (find (has_api_key new.api_key) t.nodes) [
    | some _ ↦ (err constraint, t)
    | none ↦ (ok tt, record t { nodes = t.nodes ++ new ∷ [] })
  ]
]

-- `last_seen` is set to the time of the call.
unfoldable pub register_node : Node → ℕ → Sql (Unit {0})
register_node n now = statement (upsert_node (record n { last_seen = now }))
