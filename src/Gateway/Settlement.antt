-- ===== src/Gateway/Settlement.antt =====
-- What a job that ends costs whom, in internal/gateway/gateway.go, whatever statements fail.
use routecat.Prelude.{
  Bool-cases, Option, String, [], arith, eq_iff, false, find, inl, inr, none, not, refl, some,
  str_eq, true, ℕ, ◌&&◌, ◌++◌, ◌∷◌, ◌≡◌, ◌⊎◌,
}
use routecat.Prelude.Int.{ltb_ℤ, pos, wrap64, ℤ, ◌+ℤ◌, ◌<ℤ◌, ◌≤ℤ◌}
use routecat.Float64.{Float64}
use routecat.Billing.{Engine}
use routecat.Gateway.State.{Exit, Gateway, NodeConn, PendingJob, log_prefix, panics, returns}
use routecat.Gateway.Usage.{Unmarshal}
use routecat.Gateway.Done.{
  Bill, bill_job, charge_user, complete_job, completed_row, handle_proxy_done, job_complete_msg,
  pay_out, retire,
}
use routecat.Gateway.Jobs.{push_sent}
use routecat.Store.Tables.{Db, Job, Tables}
use routecat.Store.Sql.{Result, constraint, err, ok}
use routecat.Store.Ensures.{Ensures, Ensures-statement}
use routecat.Store.Jobs.{has_job_id, record_job}
use routecat.Store.Users.{deduct_balance, read_balance, subtract_balance}
use routecat.Store.Deduct.{Deducted, deduct_balance-Deducted}
use routecat.Prelude.Dict.{lookup}

-- The job's row is added, if it is new.
abbrev pub Recorded : Job → Tables → Tables → Type 0
Recorded row t u =
    (find (has_job_id row.job_id) t.jobs ≡ none) × (u ≡ record t { jobs = t.jobs ++ row ∷ [] })

abbrev Inserts : Job → Tables → Result (Unit {0}) → Tables → Type 0
Inserts row t (ok _) u = Recorded row t u
Inserts row t (err e) u = u ≡ t

record_job-Inserts : (row : Job) (t : Tables) → Ensures (record_job row) t (Inserts row t)
unfolding record_job
record_job-Inserts row t =
    Ensures-statement _ refl (known (find (has_job_id row.job_id) t.jobs) refl)
  where
    known :
        (o : Option Job)
        → find (has_job_id row.job_id) t.jobs ≡ o
        → let out : Result (Unit {0}) × Tables = elim o [
          | none ↦ (ok tt, record t { jobs = t.jobs ++ row ∷ [] })
          | some _ ↦ (err constraint, t)
        ] in
          Inserts row t out.0 out.1
    known none e = (e, refl)
    known (some old) e = refl

-- How the tables `u` of the end come from those of the start, for a job that costs `cost`: nothing was
-- written; or the row was added alone; or it was added and the cost was deducted from the user, who is
-- not on the free tier and has a balance that covers it.
abbrev pub Settled : PendingJob → Job → ℤ → Tables → Tables → Type 0
Settled job row cost t u =
    (u ≡ t)
    ⊎ (Recorded row t u
        ⊎ ((recorded : Tables) × (current : ℤ) × Recorded row t recorded
            × (job.free_tier ≡ false)
            × (pos 0 <ℤ cost)
            × (read_balance job.user_key recorded ≡ ok current)
            × (cost ≤ℤ current)
            × (u ≡ subtract_balance job.user_key cost recorded)))

module _ (fl : Float64) (unmarshal : Unmarshal) (engine : Engine fl.F) where
  abbrev pub cost_of : Bill fl.F → ℤ
  cost_of bill = wrap64 (bill.provider_msats +ℤ bill.fee_msats)

  -- The tables after the deduction.
  abbrev Charged : PendingJob → Bill fl.F → Tables → Tables → Type 0
  Charged job bill t u =
      (u ≡ t)
      ⊎ ((current : ℤ) × (job.free_tier ≡ false)
          × (pos 0 <ℤ cost_of bill)
          × (read_balance job.user_key t ≡ ok current)
          × (cost_of bill ≤ℤ current)
          × (u ≡ subtract_balance job.user_key (cost_of bill) t))

  charge_user-Charged :
      (job : PendingJob) (bill : Bill fl.F) (g : Gateway fl.F)
      → Charged job bill g.db.tables (charge_user fl unmarshal engine job bill g).1.db.tables
  unfolding charge_user
  charge_user-Charged job bill g =
      elim (Bool-cases (ltb_ℤ (pos 0) (cost_of bill) && not job.free_tier)) [
        | inr free ↦ rw (charge_user, free) (inl refl)
        | inl paying ↦
            rw (charge_user, paying)
              (let out = deduct_balance job.user_key (cost_of bill) g.db in
                ending out.0 out.1 (ground arith) (ground arith)
                  (deduct_balance-Deducted job.user_key (cost_of bill) g.db))
      ]
    where
      ending :
          (r : Result (Unit {0})) (db' : Db)
          → job.free_tier ≡ false
          → pos 0 <ℤ cost_of bill
          → Deducted job.user_key (cost_of bill) g.db.tables (r, db'.tables)
          → let out : Exit × Gateway fl.F = elim r [
            | ok _ ↦ (returns, record g { db = db' })
            | err e ↦ (log_prefix job.user_key 6, record g { db = db' })
          ] in
            Charged job bill g.db.tables out.1.db.tables
      ending (ok x) db' paying some_cost (current, read, covered, wrote) =
          inr (current, paying, some_cost, read, covered, wrote)
      ending (err e) db' paying some_cost same = inl same

  pay_out-Charged :
      (nc : NodeConn fl.F) (job : PendingJob) (bill : Bill fl.F) (g : Gateway fl.F)
      → Charged job bill g.db.tables (pay_out fl unmarshal engine nc job bill g).1.db.tables
  unfolding pay_out
  pay_out-Charged nc job bill g =
      let out = charge_user fl unmarshal engine job bill g in
      ending out.0 out.1 (charge_user-Charged job bill g)
    where
      ending :
          (exit : Exit) (g' : Gateway fl.F)
          → Charged job bill g.db.tables g'.db.tables
          → let out : Exit × Gateway fl.F = elim exit [
            | panics ↦ (panics, g')
            | returns ↦
                (returns, push_sent nc.node_id (job_complete_msg fl unmarshal engine job bill) g')
          ] in
            Charged job bill g.db.tables out.1.db.tables
      ending panics g' c = c
      ending returns g' c = c

  complete_job-Settled :
      (nc : NodeConn fl.F) (id : String) (job : PendingJob) (now : ℕ) (g : Gateway fl.F)
      → let bill = bill_job fl unmarshal engine job in
        Settled job
          (completed_row fl unmarshal engine job bill now)
          (cost_of bill)
          g.db.tables
          (complete_job fl unmarshal engine nc id job now g).1.db.tables
  unfolding complete_job
  complete_job-Settled nc id job now g =
      let out = record_job row g.db in
      ending out.0 out.1 ((record_job-Inserts row g.db.tables).at g.db.faults)
    where
      bill : Bill fl.F
      bill = bill_job fl unmarshal engine job

      row : Job
      row = completed_row fl unmarshal engine job bill now

      retired : Gateway fl.F
      retired = retire fl unmarshal engine job id g

      charged :
          (u v : Tables)
          → Recorded row g.db.tables u
          → Charged job bill u v
          → Settled job row (cost_of bill) g.db.tables v
      charged u v rec (inl same) = inr (inl (rw same rec))
      charged u v rec (inr (current, free, some_cost, read, covered, wrote)) =
          inr (inr (u, current, rec, free, some_cost, read, covered, wrote))

      ending :
          (r : Result (Unit {0})) (db' : Db)
          → Inserts row g.db.tables r db'.tables
          → let out : Exit × Gateway fl.F = elim r [
            | err e ↦ (returns, record retired { db = db' })
            | ok _ ↦ pay_out fl unmarshal engine nc job bill (record retired { db = db' })
          ] in
            Settled job row (cost_of bill) g.db.tables out.1.db.tables
      ending (err e) db' same = inl same
      ending (ok x) db' rec =
          charged db'.tables _ rec (pay_out-Charged nc job bill (record retired { db = db' }))

  -- When the node of a job reports it done, with any statements failing: the job's row is added before
  -- the user pays; the user pays only for a recorded job, not on the free tier, only if the balance
  -- covers it, and then exactly the earnings and the fee of the row.
  pub handle_proxy_done-Settled :
      (nc : NodeConn fl.F) (id : String) (job : PendingJob) (now : ℕ) (g : Gateway fl.F)
      → lookup id g.pending_jobs ≡ some job
      → job.node_id ≡ nc.node_id
      → let bill = bill_job fl unmarshal engine job in
        Settled job
          (completed_row fl unmarshal engine job bill now)
          (cost_of bill)
          g.db.tables
          (handle_proxy_done fl unmarshal engine nc id now g).1.db.tables
  unfolding handle_proxy_done
  handle_proxy_done-Settled nc id job now g there own =
      let same : str_eq job.node_id nc.node_id ≡ true =
        ground (arith, eq_iff job.node_id nc.node_id) in
      rw (handle_proxy_done, there, same) (complete_job-Settled nc id job now g)
