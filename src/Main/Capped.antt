-- ===== src/Main/Capped.antt =====
-- Proofs about the program as cmd/routecat/main.go starts it.
use routecat.Prelude.{
  Bool, List, Option, [], arith, false, if◌then◌else◌, inl, inr, none, refl, some, true, ℕ, ◌∷◌,
  ◌≡◌,
}
use routecat.Float64.{Float64}
use routecat.Store.Tables.{Db}
use routecat.Lightning.Payout.{PayoutEngine, Round, payout_tick, process_payouts}
use routecat.Lightning.Cap.{HourWithin, process_payouts_cap}
use routecat.Main.{
  App, Options, new_payout_engine, open_lightning, payout_cap, payout_ticks, start_app, wire_app,
}
use routecat.Text.{Text, is_nil}
use routecat.Api.Public.{BuildInfo}
use routecat.Lightning.Client.{Client}
use routecat.Lightning.Lnd.{Transport, new_lnd}
use routecat.Prelude.Int.{pos}
use routecat.Lightning.Lnd.Invoicing.{lnd_client}

module _ {W : Type 0} where
  pub payout_tick-HourWithin :
      (now : ℕ) (pe : PayoutEngine W) (db : Db) (world : W)
      → HourWithin payout_cap pe
      → HourWithin payout_cap (payout_tick now pe db world).engine
  unfolding payout_tick
  payout_tick-HourWithin now pe db world h = known pe.ln
    where
      known :
          (o : Option (Client W))
          → let r : Round W = elim o [
            | none ↦ record {
              engine = pe;
              spent = pe.spent_this_hour;
              db = db;
              world = world;
              paid = [];
            }
            | some ln ↦ process_payouts ln now pe db world
          ] in
            HourWithin payout_cap r.engine
      known none = h
      known (some ln) =
          (process_payouts_cap ln now payout_cap (omega arith) (omega arith) pe db world h).0

  payout_ticks-HourWithin :
      (ticks : List (ℕ × Db × W)) (pe : PayoutEngine W)
      → HourWithin payout_cap pe
      → HourWithin payout_cap (payout_ticks ticks pe)
  unfolding payout_ticks
  payout_ticks-HourWithin [] pe h = h
  payout_ticks-HourWithin ((now, db, world) ∷ ticks) pe h =
      payout_ticks-HourWithin ticks _ (payout_tick-HourWithin now pe db world h)

-- How the program starts: with a Lightning client it issues invoices, watches them and pays out, all
-- through that client; without one it does none of these.
abbrev pub IsWired : {fl : Float64} {W : Type 0} → App fl W → Type 0
IsWired app = elim app.watcher [
  | none ↦ (app.api.invoicer ≡ none) × (app.payouts ≡ none)
  | some c ↦
      (app.api.invoicer ≡ some c)
      × ((pe : PayoutEngine _) × (app.payouts ≡ some pe) × (pe.ln ≡ some c))
]

-- The engine that the program starts with keeps to 10,000 sats an hour from then on.
abbrev pub IsCapped : {fl : Float64} {W : Type 0} → App fl W → Type 0
IsCapped {fl} {W} app =
    (pe : PayoutEngine W)
    → app.payouts ≡ some pe
    → (ticks : List (ℕ × Db × W)) → HourWithin payout_cap (payout_ticks ticks pe)

module _ (fl : Float64) {W : Type 0} (net : Transport W) (read_file : Text → Option (List ℕ))
    (opts : Options fl.F) (build : BuildInfo) (db : Db) (now : ℕ) where
  abbrev wired_with : Option (Client W) → App fl W
  wired_with = wire_app fl net read_file opts build db now

  wire_app-IsWired : (ln : Option (Client W)) → IsWired (wired_with ln)
  unfolding wire_app
  wire_app-IsWired none = (refl, refl)
  wire_app-IsWired (some c) = (refl, (new_payout_engine c (pos payout_cap) now, refl, refl))

  wire_app-IsCapped : (ln : Option (Client W)) → IsCapped (wired_with ln)
  unfolding wire_app
  wire_app-IsCapped none pe e ticks = cc e
  wire_app-IsCapped (some c) pe e ticks =
      let it : new_payout_engine c (pos payout_cap) now ≡ pe = cc e in
      payout_ticks-HourWithin ticks pe (rw (← it) (refl, omega arith, omega arith))

  open_lightning-none :
      read_file opts.lnd_macaroon ≡ none → open_lightning fl net read_file opts ≡ none
  unfolding open_lightning
  open_lightning-none missing = known (is_nil opts.lnd_addr)
    where
      known :
          (b : Bool)
          → (if b
              then none
              else (elim (new_lnd read_file opts.lnd_addr opts.lnd_macaroon opts.lnd_tls) [
                | inl e ↦ none
                | inr c ↦ some (lnd_client net c)
              ]))
            ≡ none
      known true = refl
      known false = rw (new_lnd, missing) refl

  pub start_app-Wired :
      let app = start_app fl net read_file opts build db now in
      IsWired app × (read_file opts.lnd_macaroon ≡ none → app.payouts ≡ none) × IsCapped app
  unfolding start_app
  start_app-Wired = (
    wire_app-IsWired (open_lightning fl net read_file opts),
    λ missing. rw (open_lightning-none missing) refl,
    wire_app-IsCapped (open_lightning fl net read_file opts),
  )
