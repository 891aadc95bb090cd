-- ===== src/Examples/Hazards.antt =====
-- Runs of the gateway that end badly.
use routecat.Prelude.{String, [], filter, if◌then◌else◌, none, refl, some, ℕ, ◌∷◌, ◌≡◌}
use routecat.Prelude.Dict.{lookup}
use routecat.Float64.FixedPoint.{fixed_point}
use routecat.Examples.Data.{engine, live, no_usage, pending_job}
use routecat.Text.{byte_length}
use routecat.Gateway.State.{Gateway, PendingJob, panics}
use routecat.Gateway.Expiry.{cleanup_jobs, expired_jobs, is_expired}
use routecat.Gateway.Expiring.{cleanup_jobs_lem}

-- A node may register under any id.
abbrev short_named : PendingJob
short_named = record pending_job { node_id = "n1" }

abbrev with_short_name : Gateway ℕ
with_short_name = record live { pending_jobs = ("j1", short_named) ∷ [] }

cleanup_jobs_lem_example :
    let out = cleanup_jobs fixed_point no_usage engine 700000000000 with_short_name in
    (out.0 ≡ panics)
    × ((id : String)
        → lookup id out.1.pending_jobs ≡ (elim (lookup id with_short_name.pending_jobs) [
          | none ↦ none
          | some job ↦ if is_expired 700000000000 job then none else some job
        ]))
unfolding expired_jobs filter byte_length lookup
cleanup_jobs_lem_example =
    cleanup_jobs_lem fixed_point no_usage engine 700000000000 with_short_name (refl, tt)
