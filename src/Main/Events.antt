-- ===== src/Main/Events.antt =====
-- What the program of cmd/routecat/main.go does once it runs: its handlers and the ticks of its loops,
-- in any order, each run to its end. The clients, the nodes, the clock and LND choose.
use routecat.Prelude.{Bool, Option, String, false, none, some, ℕ, ◌≡◌}
use routecat.Prelude.Dict.{lookup}
use routecat.Float64.{Float64}
use routecat.Billing.{fetch}
use routecat.Server.{serve}
use routecat.Store.Tables.{Db}
use routecat.Gateway.State.{Gateway, NodeConn, returns}
use routecat.Gateway.Nodes.{connect, disconnect}
use routecat.Gateway.Sound.{is_closed}
use routecat.Gateway.Usage.{Unmarshal}
use routecat.Gateway.Messages.{WsMsg, dispatch, ping_tick}
use routecat.Gateway.Expiry.{cleanup_jobs}
use routecat.Gateway.Register.{RegisterRequest, handle_job_proxy, handle_register}
use routecat.Api.Chat.{ChatRequest, handle_chat_completions}
use routecat.Api.Accounts.{
  RegisterUserRequest, TopUpRequest, handle_balance, handle_register_user, handle_top_up,
}
use routecat.Api.Public.{handle_audit, handle_stats}
use routecat.Lightning.Payout.{PayoutEngine, Round, payout_tick}
use routecat.Lightning.Invoices.{watch_tick}
use routecat.Main.{App}
use routecat.Middleware.{Arrival}

module _ (fl : Float64) (unmarshal : Unmarshal) {W : Type 0} where
  abbrev pub with_gateway : Gateway fl.F → App fl W → App fl W
  with_gateway g a = record a { gateway = g }

  abbrev pub with_tables : Db → App fl W → App fl W
  with_tables db a = record a { gateway = record a.gateway { db = db } }

  -- Who registers as a user passes the limiter for registrations.
  abbrev pub joined : RegisterUserRequest → Option (String × String) → ℕ → App fl W → App fl W
  joined req fresh now a =
      let (limiter, db) = (handle_register_user req fresh now a.api.reg_limit a.gateway.db).1 in
      record (with_tables db a) { api = record a.api { reg_limit = limiter } }

  abbrev pub paid_out : Round W → App fl W → App fl W
  paid_out round a = record (with_tables round.db a) { payouts = some round.engine }

  -- A message of a node comes through a connection `nc`, a value that the handler holds. Job ids are
  -- random UUIDs: a request comes with one that no job before it has had. A cleanup that panics ends
  -- the program, as does a tick of the watcher that does.
  pub data Event (a : App fl W) (w : W) (b : App fl W) (v : W) : Type 0 where
    chatting :
        (delivered : Bool) (job_id : String) (req : ChatRequest) (now : ℕ)
        → lookup job_id a.gateway.pending_jobs ≡ none
        → is_closed job_id a.gateway.closed ≡ false
        → b ≡ with_gateway (handle_chat_completions delivered job_id req now a.gateway).1 a
        → v ≡ w
        → Event a w b v
    connecting :
        (zero_float : fl.F) (upgraded : Bool) (conn : ℕ) (api_key : String)
        → b ≡ with_gateway (connect zero_float upgraded conn api_key a.gateway).1 a
        → v ≡ w
        → Event a w b v
    receiving :
        (nc : NodeConn fl.F) (msg : WsMsg fl.F) (now : ℕ)
        → b ≡ with_gateway (dispatch fl unmarshal a.engine nc msg now a.gateway).1 a
        → v ≡ w
        → Event a w b v
    pinging :
        (delivered : Bool) (nc : NodeConn fl.F)
        → b ≡ with_gateway (ping_tick delivered nc a.gateway).1 a
        → v ≡ w
        → Event a w b v
    leaving :
        (nc : NodeConn fl.F) → b ≡ with_gateway (disconnect nc a.gateway) a → v ≡ w → Event a w b v
    sweeping :
        (now : ℕ)
        → (cleanup_jobs fl unmarshal a.engine now a.gateway).0 ≡ returns
        → b ≡ with_gateway (cleanup_jobs fl unmarshal a.engine now a.gateway).1 a
        → v ≡ w
        → Event a w b v
    registering :
        (req : RegisterRequest) (now : ℕ)
        → b ≡ with_tables (handle_register req now a.gateway.db).1 a
        → v ≡ w
        → Event a w b v
    fetching :
        (authorization query_key path : String)
        → b ≡ with_tables (handle_job_proxy authorization query_key path a.gateway).1 a
        → v ≡ w
        → Event a w b v
    joining :
        (req : RegisterUserRequest) (fresh : Option (String × String)) (now : ℕ)
        → b ≡ joined req fresh now a
        → v ≡ w
        → Event a w b v
    topping_up :
        (req : TopUpRequest) (now : ℕ)
        → b ≡ with_tables (handle_top_up a.api.invoicer req now (a.gateway.db, w)).1.0 a
        → v ≡ (handle_top_up a.api.invoicer req now (a.gateway.db, w)).1.1
        → Event a w b v
    asking :
        (authorization : String) (now : ℕ)
        → b ≡ with_tables (handle_balance authorization now a.gateway.db).1 a
        → v ≡ w
        → Event a w b v
    auditing : b ≡ with_tables (handle_audit a.gateway.db).1 a → v ≡ w → Event a w b v
    counting :
        (now : ℕ)
        → b ≡ with_tables (handle_stats (some a.gateway) a.engine a.api.build now a.gateway.db).1 a
        → v ≡ w
        → Event a w b v
    admitting :
        (r : Arrival) (now : ℕ)
        → b ≡ record a { limiter = (serve r now a.limiter).1 }
        → v ≡ w
        → Event a w b v
    pricing :
        (usd : Option fl.F)
        → b ≡ record a { engine = fetch fl usd a.engine }
        → v ≡ w
        → Event a w b v
    watching :
        (now : ℕ)
        → (watch_tick a.watcher now (a.gateway.db, w)).0 ≡ returns
        → b ≡ with_tables (watch_tick a.watcher now (a.gateway.db, w)).1.0 a
        → v ≡ (watch_tick a.watcher now (a.gateway.db, w)).1.1
        → Event a w b v
    paying :
        (pe : PayoutEngine W) (now : ℕ)
        → a.payouts ≡ some pe
        → b ≡ paid_out (payout_tick now pe a.gateway.db w) a
        → v ≡ (payout_tick now pe a.gateway.db w).world
        → Event a w b v

  pub data History (a : App fl W) (w : W) : App fl W → W → Type 0 where
    begin : History a w a w
    follow : {b c : App fl W} {v u : W} → History a w b v → Event b v c u → History a w c u
