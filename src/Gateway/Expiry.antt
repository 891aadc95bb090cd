-- ===== src/Gateway/Expiry.antt =====
-- internal/gateway/gateway.go: one round of `jobCleanupLoop`, which drops jobs older than ten minutes
-- and pays the nodes for what they have served.
use routecat.Prelude.{Bool, List, String, [], filter, if◌then◌else◌, ltb, not, ℕ, ◌*◌, ◌+◌, ◌∷◌}
use routecat.Prelude.Int.{ltb_ℤ, pos, wrap64, ◌+ℤ◌}
use routecat.Prelude.Dict.{Dict}
use routecat.Float64.{Float64}
use routecat.Store.Jobs.{record_job}
use routecat.Billing.{Engine}
use routecat.Gateway.State.{Exit, Gateway, PendingJob, log_prefix, panics, returns, second}
use routecat.Gateway.Usage.{Unmarshal}
use routecat.Gateway.Done.{bill_job, completed_row}
use routecat.Gateway.Jobs.{release_slot}

abbrev pub job_lifetime : ℕ
job_lifetime = 600 * second

-- job.StartedAt.Before(cutoff), with cutoff = now - 10 minutes
abbrev pub is_expired : ℕ → PendingJob → Bool
is_expired now job = ltb (job.started_at + job_lifetime) now

-- The loop over the map under the lock: the expired jobs, with their ids, in order.
unfoldable pub expired_jobs : ℕ → Dict PendingJob → Dict PendingJob
expired_jobs now jobs = filter (λ e. is_expired now e.1) jobs

unfoldable pub live_jobs : ℕ → Dict PendingJob → Dict PendingJob
live_jobs now jobs = filter (λ e. not (is_expired now e.1)) jobs

abbrev pub close_all : Dict PendingJob → List String → List String
close_all [] closed = closed
close_all ((id, job) ∷ jobs) closed = close_all jobs (id ∷ closed)

module _ (fl : Float64) (unmarshal : Unmarshal) (engine : Engine fl.F) where
  -- The second loop, on one job: the slot, the row if there are tokens, and the log line, which
  -- takes the first eight characters of the node's id.
  unfoldable pub compensate : ℕ → PendingJob → Gateway fl.F → Exit × Gateway fl.F
  compensate now job g =
      let released = release_slot job.user_key g in
      let bill = bill_job fl unmarshal engine job in
      if ltb_ℤ (pos 0) (wrap64 (bill.tokens_in +ℤ bill.tokens_out))
      then (let (r, db') =
            record_job (completed_row fl unmarshal engine job bill now) released.db in
          (log_prefix job.node_id 8, record released { db = db' }))
      else (log_prefix job.node_id 8, released)

  -- A panic ends the loop, and with it the process.
  unfoldable pub compensate_all : ℕ → Dict PendingJob → Gateway fl.F → Exit × Gateway fl.F
  unfolding compensate
  compensate_all now [] g = (returns, g)
  compensate_all now ((id, job) ∷ jobs) g =
      let (exit, g') = compensate now job g in
      let rest = compensate_all now jobs g' in elim exit [ panics ↦ (panics, g') | returns ↦ rest ]

  unfoldable pub cleanup_jobs : ℕ → Gateway fl.F → Exit × Gateway fl.F
  unfolding compensate_all expired_jobs live_jobs
  cleanup_jobs now g =
      let expired = expired_jobs now g.pending_jobs in
      compensate_all now expired (record g {
        pending_jobs = live_jobs now g.pending_jobs;
        closed = close_all expired g.closed;
      })
