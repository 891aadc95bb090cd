-- ===== src/Gateway/Cleanup.antt =====
-- Proofs about `jobCleanupLoop` in internal/gateway/gateway.go and the invariant of the gateway.
use routecat.Prelude.{
  Bool-cases, List, String, [], ap, arith, eq_iff, inl, inr, none, refl, str_eq, str_eq_refl, sym,
  true, ℕ, ◌+◌, ◌∙◌, ◌∷◌, ◌≡◌, ◌≢◌, ◌≤◌, ◌⊎◌,
}
use routecat.Prelude.Dict.{Dict, KeysOnce, lookup}
use routecat.Float64.{Float64}
use routecat.Billing.{Engine}
use routecat.Gateway.State.{Exit, Gateway, PendingJob, panics, returns}
use routecat.Gateway.Slots.{active_jobs, active_jobs-decr, decr_user_jobs, max_concurrent_per_user}
use routecat.Gateway.Usage.{Unmarshal}
use routecat.Gateway.Jobs.{release_slot}
use routecat.Gateway.Expiry.{
  cleanup_jobs, close_all, compensate, compensate_all, expired_jobs, live_jobs,
}
use routecat.Gateway.Pending.{
  expired-not-live, expired_jobs-KeysOnce, live_jobs-KeysOnce, lookup-expired_none,
  lookup-live_none, pending_of, pending_of-split,
}
use routecat.Gateway.Handlers.{SameJobs}
use routecat.Gateway.Sound.{ClosedOnce, Sound, is_closed}

Exit-cases : (e : Exit) → (e ≡ returns) ⊎ (e ≡ panics)
Exit-cases returns = inl refl
Exit-cases panics = inr refl

-- While the second loop of the cleanup runs, the slots of the jobs that it has still to release are
-- held too.
abbrev Releasing : Dict PendingJob → Dict PendingJob → Dict ℕ → Type 0
Releasing rest live counts =
    (key : String)
    → (active_jobs key counts ≡ pending_of key rest + pending_of key live)
      × (active_jobs key counts ≤ max_concurrent_per_user)

release-Releasing :
    (id : String) (job : PendingJob) (rest live : Dict PendingJob) (counts : Dict ℕ)
    → Releasing ((id, job) ∷ rest) live counts
    → Releasing rest live (decr_user_jobs job.user_key counts)
release-Releasing id job rest live counts h key =
    ground (arith, active_jobs-decr job.user_key key counts, h key)

module _ (fl : Float64) (unmarshal : Unmarshal) (engine : Engine fl.F) where
  compensate-SameJobs :
      (now : ℕ) (job : PendingJob) (g : Gateway fl.F)
      → SameJobs (release_slot job.user_key g) (compensate fl unmarshal engine now job g).1
  unfolding compensate
  compensate-SameJobs now job g = ground arith

  abbrev after : ℕ → PendingJob → Gateway fl.F → Gateway fl.F
  after now job g = (compensate fl unmarshal engine now job g).1

  compensate_all-cons :
      (now : ℕ) (id : String) (job : PendingJob) (jobs : Dict PendingJob) (g : Gateway fl.F)
      → (compensate_all fl unmarshal engine now ((id, job) ∷ jobs) g).0 ≡ returns
      → compensate_all fl unmarshal engine now ((id, job) ∷ jobs) g
        ≡ compensate_all fl unmarshal engine now jobs (after now job g)
  unfolding compensate_all
  compensate_all-cons now id job jobs g e =
      elim (Exit-cases (compensate fl unmarshal engine now job g).0) [
        | inl fine ↦ rw (fine, compensate_all)
        | inr bad ↦ cc (rw (bad, compensate_all) at e)
      ]

  -- If the loop gets to its end, all slots of the expired jobs are released.
  compensate_all-Releasing :
      (now : ℕ) (jobs live : Dict PendingJob) (g : Gateway fl.F)
      → Releasing jobs live g.user_jobs
      → (compensate_all fl unmarshal engine now jobs g).0 ≡ returns
      → let h = (compensate_all fl unmarshal engine now jobs g).1 in
        Releasing [] live h.user_jobs × (h.pending_jobs ≡ g.pending_jobs) × (h.closed ≡ g.closed)
  unfolding compensate_all
  compensate_all-Releasing now [] live g r e = (r, refl, refl)
  compensate_all-Releasing now ((id, job) ∷ jobs) live g r e =
      let step = compensate_all-cons now id job jobs g e in
      let (p, u, c) = compensate-SameJobs now job g in
      let (released, p', c') =
        compensate_all-Releasing now jobs live (after now job g)
          (rw u (release-Releasing id job jobs live g.user_jobs r))
          (sym (ap (λ (o : Exit × Gateway fl.F). o.0) step) ∙ e) in
      rw step (released, p' ∙ p, c' ∙ c)

close_all-closed :
    (id : String) (jobs : Dict PendingJob) (closed : List String)
    → is_closed id (close_all jobs closed) ≡ true
    → (is_closed id closed ≡ true) ⊎ (lookup id jobs ≢ none)
unfolding lookup
close_all-closed id [] closed h = inl h
close_all-closed id ((j, job) ∷ jobs) closed h = elim (Bool-cases (str_eq j id)) [
  | inl hit ↦ inr (λ e. ground arith)
  | inr miss ↦ elim (close_all-closed id jobs (j ∷ closed) h) [
    | inl there ↦ inl (ground arith)
    | inr held ↦ inr (rw miss held)
  ]
]

close_all-ClosedOnce :
    (jobs : Dict PendingJob) (closed : List String)
    → KeysOnce jobs
    → ((id : String) → is_closed id closed ≡ true → lookup id jobs ≡ none)
    → ClosedOnce closed
    → ClosedOnce (close_all jobs closed)
unfolding lookup
close_all-ClosedOnce [] closed u gone c = c
close_all-ClosedOnce ((j, job) ∷ jobs) closed u gone c =
    close_all-ClosedOnce jobs (j ∷ closed) u.1 (λ id h. ground (arith, eq_iff j id, gone id))
      (ground (arith, gone j, str_eq_refl j), c)

module _ (fl : Float64) (unmarshal : Unmarshal) (engine : Engine fl.F) where
  -- A round of the cleanup, unless it panics.
  pub cleanup_jobs-Sound :
      (now : ℕ) (g : Gateway fl.F)
      → Sound g
      → (cleanup_jobs fl unmarshal engine now g).0 ≡ returns
      → Sound (cleanup_jobs fl unmarshal engine now g).1
  unfolding cleanup_jobs
  cleanup_jobs-Sound now g s e =
      let old = expired_jobs now g.pending_jobs in
      let live = live_jobs now g.pending_jobs in
      let start : Gateway fl.F = record g {
        pending_jobs = live;
        closed = close_all old g.closed;
      } in
      let (released, p, c) =
        compensate_all-Releasing fl unmarshal engine now old live start
          (λ key. (s.slots key ∙ pending_of-split key now g.pending_jobs, s.few key)) e in
      rw (p, c)
        (record {
          once = live_jobs-KeysOnce now g.pending_jobs s.once;
          slots = λ key. (released key).0 ∙ omega arith;
          few = λ key. (released key).1;
          gone = λ id h. elim (close_all-closed id old g.closed h) [
            | inl before ↦ lookup-live_none id now g.pending_jobs (s.gone id before)
            | inr dropped ↦ elim (expired-not-live id now g.pending_jobs s.once) [
              | inl not_old ↦ absurd (dropped not_old)
              | inr not_live ↦ not_live
            ]
          ];
          closed_once =
              close_all-ClosedOnce old g.closed (expired_jobs-KeysOnce now g.pending_jobs s.once)
                (λ id h. lookup-expired_none id now g.pending_jobs (s.gone id h)) s.closed_once;
        })
