-- ===== src/Gateway/Register.antt =====
-- internal/gateway/gateway.go: the registration of a provider node, and the requests of the buyers that
-- nodes fetch.
use routecat.Prelude.{
  Bool, List, Option, String, if◌then◌else◌, none, not, some, str_eq, ℕ, ◌&&◌, ◌∷◌,
}
use routecat.Prelude.Int.{ltb_ℤ, pos, ℤ}
use routecat.Text.{Text, codes}
use routecat.Http.{
  Body, Status, bad_request, bearer_key, created, decoded, forbidden, internal_error, invalid_json,
  method_not_allowed, not_found, split_path, success, trim_bearer, unauthorized, unreadable,
}
use routecat.Store.Tables.{Db, Node}
use routecat.Store.Sql.{err, ok}
use routecat.Store.Nodes.{node_by_api_key, register_node}
use routecat.Gateway.Address.{is_valid_lightning_address}
use routecat.Prelude.Dict.{lookup}
use routecat.Gateway.State.{Gateway, PendingJob}

-- The JSON body of a registration (types.go).
pub record RegisterPayload : Type 0 where
  pub node_id : String
  pub api_key : String
  pub gpu : String
  pub gpu_vendor : String
  pub vram_total_mb : ℤ
  pub vram_free_mb : ℤ
  pub vram_exact : Bool
  pub models : List String
  pub ollama_url : String
  pub region : String
  pub wallet : String
  pub referral_code : String
  pub lightning_address : String
  pub redeem_threshold : ℤ
  pub free_tier_pct : ℤ
  pub version : String

pub record RegisterRequest : Type 0 where
  pub is_post : Bool
  pub authorization : String
  pub body : Body RegisterPayload

abbrev pub min_redeem_threshold_sats : ℕ
min_redeem_threshold_sats = 100

-- `last_seen` is set by the store.
abbrev pub node_of : RegisterPayload → Node
node_of reg = record {
  node_id = reg.node_id;
  api_key = reg.api_key;
  gpu = reg.gpu;
  gpu_vendor = reg.gpu_vendor;
  vram_total_mb = reg.vram_total_mb;
  models = reg.models;
  region = reg.region;
  lightning_addr = reg.lightning_address;
  redeem_threshold = reg.redeem_threshold;
  free_tier_pct = reg.free_tier_pct;
  version = reg.version;
  last_seen = 0;
}

-- reg.LightningAddress != "" && !isValidLightningAddress(reg.LightningAddress)
abbrev pub bad_address : String → Bool
bad_address addr = not (str_eq addr "") && not (is_valid_lightning_address (codes addr))

-- The tests on a decoded body, in order: the refusal, or none.
unfoldable pub refused : String → RegisterPayload → Option Status
refused api_key reg =
    if not (str_eq reg.api_key api_key)
    then some forbidden
    else if bad_address reg.lightning_address
    then some bad_request
    else if ltb_ℤ reg.redeem_threshold (pos min_redeem_threshold_sats)
    then some bad_request
    else none

unfoldable pub store_node : RegisterPayload → ℕ → Db → Status × Db
store_node reg now db =
    let (r, db') = register_node (node_of reg) now db in
    elim r [ err e ↦ (internal_error, db') | ok _ ↦ (created, db') ]

unfoldable pub register_body : String → Body RegisterPayload → ℕ → Db → Status × Db
unfolding refused store_node
register_body api_key unreadable now db = (bad_request, db)
register_body api_key invalid_json now db = (bad_request, db)
register_body api_key (decoded reg) now db = elim (refused api_key reg) [
  | some status ↦ (status, db)
  | none ↦ store_node reg now db
]

unfoldable pub handle_register : RegisterRequest → ℕ → Db → Status × Db
unfolding register_body
handle_register req now db =
    if not req.is_post then (method_not_allowed, db) else (elim (bearer_key req.authorization) [
      | none ↦ (unauthorized, db)
      | some api_key ↦ register_body api_key req.body now db
    ])

-- The request's key: the header, or else the query's api_key.
abbrev pub proxy_key : String → String → String
proxy_key authorization query_key =
    if str_eq (trim_bearer authorization) "" then query_key else trim_bearer authorization

-- parts[4] of a path of at least six parts
abbrev pub path_job_id : String → Option String
path_job_id path = elim (split_path path) [
  | a ∷ b ∷ c ∷ d ∷ job_id ∷ f ∷ rest ↦ some job_id
  | _ ↦ none
]

-- The owner of the key must be the node of the job: the buyer's body, or a refusal.
unfoldable pub proxy_body : String → PendingJob → Db → (Status × Option Text) × Db
proxy_body api_key job db =
    let (r, db') = node_by_api_key api_key db in
    elim r [
      | err e ↦ ((forbidden, none), db')
      | ok node ↦ (
        if str_eq node.node_id job.node_id
            then (success, some job.buyer_body)
            else (forbidden, none),
        db',
      )
    ]

module _ {F : Type 0} where
  unfoldable pub proxy_job : String → Option String → Gateway F → (Status × Option Text) × Db
  unfolding proxy_body
  proxy_job api_key none g = ((bad_request, none), g.db)
  proxy_job api_key (some job_id) g = elim (lookup job_id g.pending_jobs) [
    | none ↦ ((not_found, none), g.db)
    | some job ↦ proxy_body api_key job g.db
  ]

  unfoldable pub handle_job_proxy :
      String → String → String → Gateway F → (Status × Option Text) × Db
  unfolding proxy_job
  handle_job_proxy authorization query_key path g =
      let api_key = proxy_key authorization query_key in
      if str_eq api_key ""
      then ((unauthorized, none), g.db)
      else proxy_job api_key (path_job_id path) g
