-- ===== src/Gateway/Assigned.antt =====
-- The job that AssignJob of internal/gateway/gateway.go leaves pending.
use routecat.Prelude.{
  Bool, Bool-cases, Option, Option-cases, String, false, inl, inr, none, refl, some, str_eq_refl,
  true, ℕ, ◌≡◌,
}
use routecat.Gateway.State.{Gateway}
use routecat.Prelude.Dict.{lookup, lookup-insert}
use routecat.Gateway.Handlers.{
  admitted, assign_job-begun, assign_job-full, assign_job-missing, new_job,
}
use routecat.Text.{Text}
use routecat.Gateway.Jobs.{AssignError, assign_job, end_assign}
use routecat.Gateway.Slots.{incr_user_jobs}

module _ {F : Type 0} (delivered : Bool) (node_id job_id model user_key : String) (body : Text)
    (free_tier : Bool) (now : ℕ) (g : Gateway F) where
  abbrev pub Assigned : Option AssignError × Gateway F → Type 0
  Assigned (none, h) =
      lookup job_id h.pending_jobs ≡ some (new_job node_id job_id model user_key body free_tier now)
  Assigned (some e, h) = Unit

  end_assign-Assigned :
      (b : Bool) (h : Gateway F)
      → Assigned (none, h)
      → Assigned (end_assign b node_id job_id model user_key h)
  unfolding end_assign
  end_assign-Assigned true h a = a
  end_assign-Assigned false h a = tt

  pub assign_job-Assigned :
      Assigned (assign_job delivered node_id job_id model user_key body free_tier now g)
  assign_job-Assigned = elim (Bool-cases (incr_user_jobs user_key g.user_jobs).0) [
    | inr full ↦
        rw (assign_job-full delivered node_id job_id model user_key body free_tier now g full) tt
    | inl granted ↦ elim (Option-cases (lookup node_id g.nodes)) [
      | inl missing ↦
          rw
            (assign_job-missing delivered node_id job_id model user_key body free_tier now g granted
              missing)
            tt
      | inr (nc, there) ↦
          rw
            (assign_job-begun delivered node_id job_id model user_key body free_tier now g granted
              there)
            (end_assign-Assigned delivered
              (admitted delivered node_id job_id model user_key body free_tier now g)
              (rw (lookup-insert, str_eq_refl job_id) refl))
    ]
  ]
