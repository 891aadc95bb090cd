-- ===== src/Gateway/Expiring.antt =====
-- What a round of the cleanup of internal/gateway/gateway.go leaves, and when it panics.
use routecat.Prelude.{
  Bool, String, [], arith, eq_iff, false, filter, if◌then◌else◌, leb, none, refl, some, true, ℕ,
  ◌&&◌, ◌∙◌, ◌∷◌, ◌≡◌,
}
use routecat.Prelude.Dict.{Dict, KeysOnce, lookup}
use routecat.Text.{byte_length, codes}
use routecat.Float64.{Float64}
use routecat.Billing.{Engine}
use routecat.Gateway.State.{Exit, Gateway, PendingJob, log_prefix, panics, returns}
use routecat.Gateway.Usage.{Unmarshal}
use routecat.Gateway.Expiry.{
  cleanup_jobs, close_all, compensate, compensate_all, expired_jobs, is_expired, live_jobs,
}
use routecat.Gateway.Pending.{lookup-live_none}

-- The log line of the cleanup takes eight bytes of the node's id.
abbrev pub all_named : Dict PendingJob → Bool
all_named [] = true
all_named ((id, job) ∷ jobs) = leb 8 (byte_length (codes job.node_id)) && all_named jobs

lookup-live :
    (id : String) (now : ℕ) (jobs : Dict PendingJob)
    → KeysOnce jobs
    → lookup id (live_jobs now jobs) ≡ (elim (lookup id jobs) [
      | none ↦ none
      | some job ↦ if is_expired now job then none else some job
    ])
unfolding lookup live_jobs filter
lookup-live id now [] u = refl
lookup-live id now ((j, job) ∷ jobs) u =
    ground (arith, eq_iff j id, lookup-live id now jobs u.1, lookup-live_none j now jobs u.0)

module _ (fl : Float64) (unmarshal : Unmarshal) (engine : Engine fl.F) (now : ℕ) where
  -- The second loop, from a state on.
  abbrev run : Dict PendingJob → Gateway fl.F → Exit × Gateway fl.F
  run jobs g = compensate_all fl unmarshal engine now jobs g

  compensate-exit :
      (job : PendingJob) (g : Gateway fl.F)
      → (compensate fl unmarshal engine now job g).0 ≡ log_prefix job.node_id 8
  unfolding compensate
  compensate-exit job g = ground arith

  compensate_all-exit :
      (jobs : Dict PendingJob) (g : Gateway fl.F)
      → (run jobs g).0 ≡ (if all_named jobs then returns else panics)
  unfolding compensate_all
  compensate_all-exit [] g = refl
  compensate_all-exit ((id, job) ∷ jobs) g =
      let out = compensate fl unmarshal engine now job g in
      ending (leb 8 (byte_length (codes job.node_id))) out.0 out.1 (compensate-exit job g)
        (compensate_all-exit jobs out.1)
    where
      ending :
          (long : Bool) (exit : Exit) (g' : Gateway fl.F)
          → exit ≡ (if long then returns else panics)
          → (run jobs g').0 ≡ (if all_named jobs then returns else panics)
          → let out : Exit × Gateway fl.F = elim exit [
            | panics ↦ (panics, g')
            | returns ↦ run jobs g'
          ] in
            out.0 ≡ (if long && all_named jobs then returns else panics)
      ending true returns g' e rest = rest
      ending true panics g' e rest = ground arith
      ending false returns g' e rest = ground arith
      ending false panics g' e rest = refl

  compensate-pending :
      (job : PendingJob) (g : Gateway fl.F)
      → (compensate fl unmarshal engine now job g).1.pending_jobs ≡ g.pending_jobs
  unfolding compensate
  compensate-pending job g = ground arith

  compensate_all-pending :
      (jobs : Dict PendingJob) (g : Gateway fl.F) → (run jobs g).1.pending_jobs ≡ g.pending_jobs
  unfolding compensate_all
  compensate_all-pending [] g = refl
  compensate_all-pending ((id, job) ∷ jobs) g =
      let out = compensate fl unmarshal engine now job g in
      ending out.0 out.1 (compensate-pending job g) (compensate_all-pending jobs out.1)
    where
      ending :
          (exit : Exit) (g' : Gateway fl.F)
          → g'.pending_jobs ≡ g.pending_jobs
          → (run jobs g').1.pending_jobs ≡ g'.pending_jobs
          → let out : Exit × Gateway fl.F = elim exit [
            | panics ↦ (panics, g')
            | returns ↦ run jobs g'
          ] in
            out.1.pending_jobs ≡ g.pending_jobs
      ending panics g' same rest = same
      ending returns g' same rest = rest ∙ same

  -- If no id stands twice among the jobs in flight: after a round, panic or not, they are those
  -- that were at most ten minutes old, as they were; and the round panics exactly if the id of the
  -- node of an expired job has fewer than eight bytes.
  pub cleanup_jobs_lem :
      (g : Gateway fl.F)
      → KeysOnce g.pending_jobs
      → let out = cleanup_jobs fl unmarshal engine now g in
        (out.0 ≡ (if all_named (expired_jobs now g.pending_jobs) then returns else panics))
        × ((id : String)
            → lookup id out.1.pending_jobs ≡ (elim (lookup id g.pending_jobs) [
              | none ↦ none
              | some job ↦ if is_expired now job then none else some job
            ]))
  unfolding cleanup_jobs
  cleanup_jobs_lem g once =
      let start : Gateway fl.F = record g {
        pending_jobs = live_jobs now g.pending_jobs;
        closed = close_all (expired_jobs now g.pending_jobs) g.closed;
      } in
      (
        compensate_all-exit (expired_jobs now g.pending_jobs) start,
        λ id.
            rw (compensate_all-pending (expired_jobs now g.pending_jobs) start)
              (lookup-live id now g.pending_jobs once),
      )
