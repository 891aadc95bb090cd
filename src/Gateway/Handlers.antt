-- ===== src/Gateway/Handlers.antt =====
-- Proofs about the handlers of internal/gateway/gateway.go and the invariant of the gateway.
use routecat.Prelude.{
  Bool, Bool-cases, Option, Option-cases, String, [], arith, false, inl, inr, none, refl, some,
  str_eq, str_eq_refl, true, ℕ, ◌≡◌,
}
use routecat.Prelude.Dict.{insert, lookup, lookup-insert}
use routecat.Text.{Text}
use routecat.Float64.{Float64}
use routecat.Billing.{Engine}
use routecat.Gateway.Usage.{Unmarshal}
use routecat.Gateway.State.{Gateway, NodeConn, PendingJob}
use routecat.Gateway.Slots.{incr_user_jobs}
use routecat.Gateway.Done.{
  Bill, bill_job, charge_user, complete_job, completed_row, handle_proxy_done, pay_out, retire,
}
use routecat.Gateway.Jobs.{
  AssignError, assign_job, end_assign, handle_proxy_chunk, handle_reject, no_node, release_slot,
  too_many_concurrent, with_chunk,
}
use routecat.Gateway.Sound.{
  Sound, admit-IsSound, forget-IsSound, give_back-IsSound, is_closed, retire-IsSound,
  update-IsSound,
}
use routecat.Store.Jobs.{record_job}

-- The entry that AssignJob adds.
abbrev pub new_job : String → String → String → String → Text → Bool → ℕ → PendingJob
new_job node_id job_id model user_key body free_tier now = record {
  job_id = job_id;
  node_id = node_id;
  user_key = user_key;
  model = model;
  buyer_body = body;
  response_ch = [];
  free_tier = free_tier;
  started_at = now;
  last_chunk = [];
}

module _ {F : Type 0} (delivered : Bool) (node_id job_id model user_key : String) (body : Text)
    (free_tier : Bool) (now : ℕ) (g : Gateway F) where
  -- The gateway with the slot taken, and with the job added.
  abbrev pub taken : Gateway F
  taken = record g { user_jobs = (incr_user_jobs user_key g.user_jobs).1 }

  abbrev pub admitted : Gateway F
  admitted = record taken {
    pending_jobs =
        insert job_id (new_job node_id job_id model user_key body free_tier now) g.pending_jobs;
  }

  abbrev assigned : Option AssignError × Gateway F
  assigned = assign_job delivered node_id job_id model user_key body free_tier now g

  pub assign_job-full :
      (incr_user_jobs user_key g.user_jobs).0 ≡ false → assigned ≡ (some too_many_concurrent, g)
  unfolding assign_job
  assign_job-full full = ground arith

  pub assign_job-missing :
      (incr_user_jobs user_key g.user_jobs).0 ≡ true
      → lookup node_id g.nodes ≡ none
      → assigned ≡ (some no_node, release_slot user_key taken)
  unfolding assign_job
  assign_job-missing granted missing = ground arith

  pub assign_job-begun :
      {nc : NodeConn F}
      → (incr_user_jobs user_key g.user_jobs).0 ≡ true
      → lookup node_id g.nodes ≡ some nc
      → assigned ≡ end_assign delivered node_id job_id model user_key admitted
  unfolding assign_job
  assign_job-begun granted there = ground arith

  -- AssignJob, with an id that is neither pending nor closed, on all of its branches.
  pub assign_job-Sound :
      Sound g
      → lookup job_id g.pending_jobs ≡ none
      → is_closed job_id g.closed ≡ false
      → Sound assigned.1
  unfolding end_assign
  assign_job-Sound s fresh open_still = elim (Bool-cases (incr_user_jobs user_key g.user_jobs).0) [
    | inr full ↦ rw (assign_job-full full) s
    | inl granted ↦ elim (Option-cases (lookup node_id g.nodes)) [
      | inl missing ↦
          rw (assign_job-missing granted missing) (give_back-IsSound _ _ _ s user_key granted)
      | inr (nc, there) ↦ rw (assign_job-begun granted there) (
          ending delivered (
            admit-IsSound _ _ _ s job_id (new_job node_id job_id model user_key body free_tier now)
              fresh open_still granted))
    ]
  ]
    where
      ending :
          (b : Bool)
          → Sound admitted
          → Sound (end_assign b node_id job_id model user_key admitted).1
      ending true h = h
      ending false h =
          forget-IsSound _ _ _ h job_id (new_job node_id job_id model user_key body free_tier now)
            (rw (lookup-insert, str_eq_refl job_id))

module _ {F : Type 0} (g : Gateway F) (s : Sound g) where
  pub handle_reject-Sound : (nc : NodeConn F) (id : String) → Sound (handle_reject nc id g)
  unfolding handle_reject
  handle_reject-Sound nc id = elim (Option-cases (lookup id g.pending_jobs)) [
    | inl e ↦ rw (e, handle_reject) s
    | inr (job, e) ↦ rw (e, handle_reject) (retire-IsSound _ _ _ s id job e)
  ]

  pub handle_proxy_chunk-Sound :
      (nc : NodeConn F) (id : String) (chunk : Text) → Sound (handle_proxy_chunk nc id chunk g)
  unfolding handle_proxy_chunk
  handle_proxy_chunk-Sound nc id chunk = elim (Option-cases (lookup id g.pending_jobs)) [
    | inl e ↦ rw (e, handle_proxy_chunk) s
    | inr (job, e) ↦
        rw (e, handle_proxy_chunk)
          (elim (Bool-cases (str_eq job.node_id nc.node_id)) [
            | inl own ↦ rw own (update-IsSound _ _ _ s id job (with_chunk chunk job) e refl)
            | inr foreign ↦ rw foreign s
          ])
  ]

-- Two states of the gateway that differ in nothing that the invariant is about.
abbrev pub SameJobs : {F : Type 0} → Gateway F → Gateway F → Type 0
SameJobs g h =
    (h.pending_jobs ≡ g.pending_jobs) × (h.user_jobs ≡ g.user_jobs) × (h.closed ≡ g.closed)

pub SameJobs-Sound : {F : Type 0} (g h : Gateway F) → SameJobs g h → Sound g → Sound h
SameJobs-Sound g h (p, u, c) s = rw (p, u, c) s

module _ (fl : Float64) (unmarshal : Unmarshal) (engine : Engine fl.F) where
  charge_user-SameJobs :
      (job : PendingJob) (bill : Bill fl.F) (g : Gateway fl.F)
      → SameJobs g (charge_user fl unmarshal engine job bill g).1
  unfolding charge_user
  charge_user-SameJobs job bill g = ground arith

  pay_out-SameJobs :
      (nc : NodeConn fl.F) (job : PendingJob) (bill : Bill fl.F) (g : Gateway fl.F)
      → SameJobs g (pay_out fl unmarshal engine nc job bill g).1
  unfolding pay_out
  pay_out-SameJobs nc job bill g = ground (arith, charge_user-SameJobs job bill g)

  complete_job-SameJobs :
      (nc : NodeConn fl.F) (id : String) (job : PendingJob) (now : ℕ) (g : Gateway fl.F)
      → SameJobs
          (retire fl unmarshal engine job id g)
          (complete_job fl unmarshal engine nc id job now g).1
  unfolding complete_job
  complete_job-SameJobs nc id job now g =
      let bill = bill_job fl unmarshal engine job in
      let retired = retire fl unmarshal engine job id g in
      ground (
        arith,
        pay_out-SameJobs nc job bill (record retired {
          db = (record_job (completed_row fl unmarshal engine job bill now) g.db).1;
        }),
      )

  pub handle_proxy_done-Sound :
      (nc : NodeConn fl.F) (id : String) (now : ℕ) (g : Gateway fl.F)
      → Sound g
      → Sound (handle_proxy_done fl unmarshal engine nc id now g).1
  unfolding handle_proxy_done
  handle_proxy_done-Sound nc id now g s = elim (Option-cases (lookup id g.pending_jobs)) [
    | inl e ↦ rw (e, handle_proxy_done) s
    | inr (job, e) ↦
        rw (e, handle_proxy_done)
          (elim (Bool-cases (str_eq job.node_id nc.node_id)) [
            | inr foreign ↦ rw foreign s
            | inl own ↦ rw own (
                SameJobs-Sound (retire fl unmarshal engine job id g)
                  (complete_job fl unmarshal engine nc id job now g).1
                  (complete_job-SameJobs nc id job now g)
                  (retire-IsSound g.pending_jobs g.user_jobs g.closed s id job e))
          ])
  ]
