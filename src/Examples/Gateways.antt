-- ===== src/Examples/Gateways.antt =====
-- Runs of the gateway.
use routecat.Router.Order.{Waits}
use routecat.Router.{available_models, route_request}
use routecat.Gateway.Unordered.{SameModels, route_any_order}
use mathlib.Core.List.Perm
use routecat.Prelude.{Option, [], eq_iff, false, none, refl, some, true, ℕ, ◌∷◌, ◌≡◌}
use routecat.Prelude.Int.{pos, ℤ}
use routecat.Prelude.Dict.{erase, lookup}
use routecat.Text.{codes}
use routecat.Float64.FixedPoint.{fixed_point}
use routecat.Gateway.State.{Gateway, PendingJob, returns}
use routecat.Gateway.Slots.{decr_user_jobs}
use routecat.Gateway.Done.{bill_job, completed_row, handle_proxy_done}
use routecat.Gateway.Jobs.{assign_job, handle_proxy_chunk, handle_reject}
use routecat.Gateway.Sound.{Sound}
use routecat.Gateway.Reachable.{
  Reach, Reach-Sound, assigning, elsewhere, finishing, here, next, start,
}
use routecat.Gateway.Settlement.{Settled, cost_of, handle_proxy_done-Settled}
use routecat.Gateway.Ownership.{foreign_node}
use routecat.Gateway.Nodes.{Heartbeat, live_node_infos}
use routecat.Examples.Data.{
  engine, live, market, market_db, much_usage, no_usage, node_conn, other_conn, pending_job,
}

-- A job is assigned to the node and reported done.
abbrev at_start : Gateway ℕ
at_start = start ℕ market_db

abbrev with_node : Gateway ℕ
with_node = record at_start { nodes = ("node-0001", node_conn) ∷ [] }

abbrev with_job : Gateway ℕ
with_job =
    (assign_job true "node-0001" "j1" "phi4-mini" "rc_alice" (123 ∷ []) false 1000 with_node).1

abbrev job_done : Gateway ℕ
job_done = (handle_proxy_done fixed_point much_usage engine node_conn "j1" 2000 with_job).1

job_done-Reach : Reach fixed_point much_usage at_start job_done
unfolding lookup
job_done-Reach =
    next
      (next (next here (elsewhere (("node-0001", node_conn) ∷ []) [] market_db refl)) (
        assigning true "node-0001" "j1" "phi4-mini" "rc_alice" (123 ∷ []) false 1000 refl refl
          refl))
      (finishing engine node_conn "j1" 2000 refl)

Reach-Sound_example : Sound job_done
Reach-Sound_example = Reach-Sound fixed_point much_usage market_db job_done-Reach

handle_proxy_done-Settled_example :
    let bill = bill_job fixed_point much_usage engine pending_job in
    Settled pending_job
      (completed_row fixed_point much_usage engine pending_job bill 2000)
      (cost_of fixed_point much_usage engine bill)
      market
      (handle_proxy_done fixed_point much_usage engine node_conn "j1" 2000 live).1.db.tables
unfolding lookup
handle_proxy_done-Settled_example =
    handle_proxy_done-Settled fixed_point much_usage engine node_conn "j1" pending_job 2000 live
      refl refl

abbrev used_job : PendingJob
used_job = record pending_job { last_chunk = codes "data: {\"usage\"}" }

foreign_node_example :
    (handle_proxy_chunk other_conn "j1" (123 ∷ []) live ≡ live)
    × (handle_proxy_done fixed_point no_usage engine other_conn "j1" 2000 live ≡ (returns, live))
    × (handle_reject other_conn "j1" live ≡ record live {
      pending_jobs = erase "j1" live.pending_jobs;
      user_jobs = decr_user_jobs "rc_alice" live.user_jobs;
      closed = "j1" ∷ [];
    })
    × (lookup "j1" (handle_reject other_conn "j1" live).pending_jobs ≡ none)
unfolding lookup
foreign_node_example =
    foreign_node fixed_point no_usage engine other_conn "j1" (123 ∷ []) 2000 live pending_job refl
      (λ e. cc ((eq_iff "node-0001" "node-0002").1 e))

abbrev report : Heartbeat ℕ
report = record {
  gpu_util_pct = pos 90;
  vram_free_mb = pos 100;
  temp_c = pos 70;
  power_w = 200;
  queue_depth = pos 4;
}

-- The same two nodes, in the two orders in which the map may be iterated.
abbrev both : Gateway ℕ
both = record live { nodes = ("node-0001", node_conn) ∷ ("node-0002", other_conn) ∷ [] }

abbrev both_reversed : Gateway ℕ
both_reversed = record live { nodes = ("node-0002", other_conn) ∷ ("node-0001", node_conn) ∷ [] }

route_any_order_example :
    let infos = live_node_infos both in
    let reversed = live_node_infos both_reversed in
    ((q : Option ℤ) × Waits "phi4-mini" infos (route_request "phi4-mini" (some infos)) q
      × Waits "phi4-mini" reversed (route_request "phi4-mini" (some reversed)) q)
    × SameModels (available_models (some infos)) (available_models (some reversed))
route_any_order_example = route_any_order both both_reversed "phi4-mini" (Perm.swap _ _ [])
