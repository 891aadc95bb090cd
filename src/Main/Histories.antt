-- ===== src/Main/Histories.antt =====
-- Proofs about all histories of the program that cmd/routecat/main.go starts.
use routecat.Main.{App, Options, payout_cap, payout_ticks, start_app, wire_app}
use routecat.Gateway.Reachable.{Sound-start}
use routecat.Prelude.{Bool, List, Option, String, [], arith, false, refl, some, true, ℕ, ◌≡◌}
use routecat.Float64.{Float64}
use routecat.Gateway.State.{Gateway, NodeConn}
use routecat.Gateway.Nodes.{connect, disconnect}
use routecat.Gateway.Sound.{Sound}
use routecat.Gateway.Handlers.{SameJobs, SameJobs-Sound}
use routecat.Gateway.Cleanup.{cleanup_jobs-Sound}
use routecat.Gateway.SessionInvariant.{disconnect-SameJobs, dispatch-Sound}
use routecat.Gateway.Usage.{Unmarshal}
use routecat.Gateway.Messages.{ping_tick}
use routecat.Api.Sound.{handle_chat_completions-Sound}
use routecat.Lightning.Payout.{PayoutEngine, payout_tick}
use routecat.Lightning.Cap.{HourWithin}
use routecat.Main.Events.{
  Event, History, admitting, asking, auditing, begin, chatting, connecting, counting, fetching,
  follow, joining, leaving, paying, pinging, pricing, receiving, registering, sweeping, topping_up,
  watching,
}
use routecat.Main.Capped.{payout_tick-HourWithin, start_app-Wired}
use routecat.Text.{Text}
use routecat.Store.Tables.{Db}
use routecat.Api.Public.{BuildInfo}
use routecat.Lightning.Lnd.{Transport}

-- The counters of the gateway are right, and the payout engine, if there is one, keeps to its cap.
abbrev pub Healthy : {fl : Float64} {W : Type 0} → App fl W → Type 0
Healthy {fl} {W} a =
    Sound a.gateway × ((pe : PayoutEngine W) → a.payouts ≡ some pe → HourWithin payout_cap pe)

connect-SameJobs :
    {F : Type 0} (zero_float : F) (upgraded : Bool) (conn : ℕ) (api_key : String) (g : Gateway F)
    → SameJobs g (connect zero_float upgraded conn api_key g).1
unfolding connect
connect-SameJobs zero_float upgraded conn api_key g = ground arith

ping_tick-SameJobs :
    {F : Type 0} (delivered : Bool) (nc : NodeConn F) (g : Gateway F)
    → SameJobs g (ping_tick delivered nc g).1
unfolding ping_tick
ping_tick-SameJobs true nc g = (refl, refl, refl)
ping_tick-SameJobs false nc g = (refl, refl, refl)

module _ (fl : Float64) (unmarshal : Unmarshal) {W : Type 0} where
  Event-Healthy : {a b : App fl W} {w v : W} → Event fl unmarshal a w b v → Healthy a → Healthy b
  Event-Healthy {a} (chatting delivered job_id req now fresh open_still e f) (s, p) =
      rw e (handle_chat_completions-Sound delivered job_id now a.gateway s fresh open_still req, p)
  Event-Healthy {a} (connecting zero_float upgraded conn api_key e f) (s, p) =
      let g = (connect zero_float upgraded conn api_key a.gateway).1 in
      rw e (
        SameJobs-Sound a.gateway g (connect-SameJobs zero_float upgraded conn api_key a.gateway) s,
        p,
      )
  Event-Healthy {a} (receiving nc msg now e f) (s, p) =
      rw e (dispatch-Sound fl unmarshal a.engine nc msg now a.gateway s, p)
  Event-Healthy {a} (pinging delivered nc e f) (s, p) =
      let g = (ping_tick delivered nc a.gateway).1 in
      rw e (SameJobs-Sound a.gateway g (ping_tick-SameJobs delivered nc a.gateway) s, p)
  Event-Healthy {a} (leaving nc e f) (s, p) =
      let g = disconnect nc a.gateway in
      rw e
        (SameJobs-Sound a.gateway g (disconnect-SameJobs fl unmarshal a.engine nc a.gateway) s, p)
  Event-Healthy {a} (sweeping now returned e f) (s, p) =
      rw e (cleanup_jobs-Sound fl unmarshal a.engine now a.gateway s returned, p)
  Event-Healthy (registering req now e f) (s, p) = rw e (s, p)
  Event-Healthy (fetching authorization query_key path e f) (s, p) = rw e (s, p)
  Event-Healthy (joining req fresh now e f) (s, p) = rw e (s, p)
  Event-Healthy (topping_up req now e f) (s, p) = rw e (s, p)
  Event-Healthy (asking authorization now e f) (s, p) = rw e (s, p)
  Event-Healthy (auditing e f) (s, p) = rw e (s, p)
  Event-Healthy (counting now e f) (s, p) = rw e (s, p)
  Event-Healthy (admitting r now e f) (s, p) = rw e (s, p)
  Event-Healthy (pricing usd e f) (s, p) = rw e (s, p)
  Event-Healthy (watching now returned e f) (s, p) = rw e (s, p)
  Event-Healthy {a} {w} (paying pe now there e f) (s, p) =
      let round = payout_tick now pe a.gateway.db w in
      let within = payout_tick-HourWithin now pe a.gateway.db w (p pe there) in
      rw e (s, λ pe' same. (let it : round.engine ≡ pe' = cc same in rw (← it) within))

  History-Healthy :
      {a : App fl W} {w : W} {b : App fl W} {v : W}
      → History fl unmarshal a w b v
      → Healthy a
      → Healthy b
  History-Healthy begin h = h
  History-Healthy (follow r st) h = Event-Healthy st (History-Healthy r h)

module _ (fl : Float64) (unmarshal : Unmarshal) {W : Type 0} (net : Transport W)
    (read_file : Text → Option (List ℕ)) (opts : Options fl.F) (build : BuildInfo) (db : Db)
    (now : ℕ) where
  start_app-Healthy : Healthy (start_app fl net read_file opts build db now)
  unfolding start_app wire_app payout_ticks
  start_app-Healthy = (
    Sound-start fl unmarshal db,
    λ pe e. (start_app-Wired fl net read_file opts build db now).2 pe e [],
  )

  -- From the start of the program on, whatever requests, messages of nodes and ticks of the loops come,
  -- in whatever order, each run to its end, if every job has an id of its own and no background loop
  -- panics: each user's counter is the number of that user's jobs in flight and at most three, no
  -- channel is closed twice, and the sats that the payout engine, if there is one, counts in its hour
  -- are at most 10,000.
  pub History-Healthy_start :
      {b : App fl W} {w v : W}
      → History fl unmarshal (start_app fl net read_file opts build db now) w b v
      → Healthy b
  History-Healthy_start r = History-Healthy fl unmarshal r start_app-Healthy
