-- ===== src/Main.antt =====
-- cmd/routecat/main.go, with the constructors that it calls: how the program is put together at its
-- start. Opening the database and listening on the port are the environment's.
use routecat.Prelude.{
  Bool, List, Option, [], false, if◌then◌else◌, inl, inr, none, some, true, ℕ, ◌∷◌,
}
use routecat.Prelude.Int.{pos, ℤ}
use routecat.Text.{Text, is_nil}
use routecat.Float64.{Float64}
use routecat.Billing.{Engine, new_engine}
use routecat.RateLimiter.{RateLimiter}
use routecat.Server.{server_limiter}
use routecat.Store.Tables.{Db}
use routecat.Gateway.State.{Gateway}
use routecat.Gateway.Reachable.{start}
use routecat.Api.Accounts.{new_reg_limit}
use routecat.Api.Public.{BuildInfo}
use routecat.Lightning.Client.{Client}
use routecat.Lightning.Lnd.{Transport, new_lnd}
use routecat.Lightning.Lnd.Invoicing.{lnd_client}
use routecat.Lightning.Payout.{PayoutEngine, payout_tick}
pub mod Capped
pub mod Events
pub mod Histories

-- The flags.
pub record Options (F : Type 0) : Type 0 where
  pub addr : Text
  pub db_path : Text
  pub lnd_addr : Text
  pub lnd_macaroon : Text
  pub lnd_tls : Text
  -- in percent
  pub fee : F

-- BuildInfo, and the api package's API once everything is wired. The assigner and the node counter are
-- the gateway, and the router's source is the gateway's live nodes.
pub record Api (W : Type 0) : Type 0 where
  pub build : BuildInfo
  pub invoicer : Option (Client W)
  pub reg_limit : RateLimiter
  pub assigner_wired : Bool
  pub counter_wired : Bool

-- NewPayoutEngine, before its loop's first tick.
unfoldable pub new_payout_engine : {W : Type 0} → Client W → ℤ → ℕ → PayoutEngine W
new_payout_engine ln max_per_hour now = record {
  ln = some ln;
  max_per_hour = max_per_hour;
  spent_this_hour = pos 0;
  hour_start = now;
}

-- api.New
unfoldable pub new_api : {W : Type 0} → BuildInfo → Api W
new_api build = record {
  build = build;
  invoicer = none;
  reg_limit = new_reg_limit;
  assigner_wired = false;
  counter_wired = false;
}

unfoldable pub set_assigner : {W : Type 0} → Api W → Api W
set_assigner a = record a { assigner_wired = true }

unfoldable pub set_node_counter : {W : Type 0} → Api W → Api W
set_node_counter a = record a { counter_wired = true }

unfoldable pub set_invoicer : {W : Type 0} → Client W → Api W → Api W
set_invoicer ln a = record a { invoicer = some ln }

-- The running program. The watcher is there if it has been started; its client is what it asks.
pub record App (fl : Float64) (W : Type 0) : Type 0 where
  pub engine : Engine fl.F
  pub gateway : Gateway fl.F
  pub source_wired : Bool
  pub api : Api W
  pub watcher : Option (Client W)
  pub payouts : Option (PayoutEngine W)
  pub limiter : RateLimiter

abbrev pub payout_cap : ℕ
payout_cap = 10000

module _ (fl : Float64) {W : Type 0} (net : Transport W) (read_file : Text → Option (List ℕ)) where
  -- The Lightning client; the program goes on without one if it is not configured or not available.
  unfoldable pub open_lightning : Options fl.F → Option (Client W)
  unfolding new_lnd lnd_client is_nil
  open_lightning opts =
      if is_nil opts.lnd_addr
      then none
      else (elim (new_lnd read_file opts.lnd_addr opts.lnd_macaroon opts.lnd_tls) [
        | inl e ↦ none
        | inr c ↦ some (lnd_client net c)
      ])

  -- The body of main, once the Lightning client is there or not, up to the server's start.
  unfoldable pub wire_app : Options fl.F → BuildInfo → Db → ℕ → Option (Client W) → App fl W
  unfolding new_engine new_api set_assigner set_node_counter set_invoicer new_payout_engine
      server_limiter
  wire_app opts build db now ln =
      let api = set_node_counter (set_assigner (new_api build)) in
      record {
        engine = new_engine fl opts.fee;
        gateway = start fl.F db;
        source_wired = true;
        api = (elim ln [ none ↦ api | some c ↦ set_invoicer c api ]);
        watcher = ln;
        payouts = (elim ln [
          | none ↦ none
          | some c ↦ some (new_payout_engine c (pos payout_cap) now)
        ]);
        limiter = server_limiter;
      }

  unfoldable pub start_app : Options fl.F → BuildInfo → Db → ℕ → App fl W
  unfolding open_lightning wire_app
  start_app opts build db now = wire_app opts build db now (open_lightning opts)

-- The ticks of the payout loop, each at its time: the engine goes from one to the next, and the tables
-- are what the rest of the program has made of them by then.
unfoldable pub payout_ticks : {W : Type 0} → List (ℕ × Db × W) → PayoutEngine W → PayoutEngine W
unfolding payout_tick
payout_ticks [] pe = pe
payout_ticks ((now, db, world) ∷ ticks) pe = payout_ticks ticks (payout_tick now pe db world).engine
