-- ===== src/Gateway/Done.antt =====
-- internal/gateway/gateway.go: the end of a job, when its node reports that it is done: its price, its row,
-- the user's payment and the message to the node.
use routecat.Prelude.{String, if◌then◌else◌, none, not, some, str_eq, ℕ, ◌&&◌}
use routecat.Prelude.Int.{ltb_ℤ, pos, wrap64, ℤ, ◌+ℤ◌}
use routecat.Prelude.Dict.{lookup}
use routecat.Float64.{Float64}
use routecat.Store.Tables.{Db, Job, JobStatus}
use routecat.Store.Sql.{err, ok}
use routecat.Store.Jobs.{record_job}
use routecat.Store.Users.{deduct_balance}
use routecat.Billing.{Engine, calculate}
use routecat.Gateway.State.{
  Exit, Gateway, NodeConn, Outgoing, PendingJob, job_complete, log_prefix, panics, returns, seconds,
}
use routecat.Gateway.Caps.{cap_earnings, cap_tokens}
use routecat.Gateway.Usage.{Unmarshal, parse_usage}
use routecat.Gateway.Jobs.{close_done, forget_job, push_sent, release_slot}

-- What a job comes to: the capped tokens, the price, the capped earnings and fee.
pub record Bill (F : Type 0) : Type 0 where
  pub tokens_in : ℤ
  pub tokens_out : ℤ
  pub gross_usd : F
  pub provider_msats : ℤ
  pub fee_msats : ℤ

module _ (fl : Float64) (unmarshal : Unmarshal) (engine : Engine fl.F) where
  unfoldable pub bill_job : PendingJob → Bill fl.F
  bill_job job =
      let (reported_in, reported_out) = parse_usage unmarshal job.last_chunk in
      let (tokens_in, tokens_out) = cap_tokens fl reported_in reported_out in
      let (gross, provider, fee) =
        calculate fl engine job.model tokens_in tokens_out engine.price in
      let (provider', fee') = cap_earnings fl provider fee in
      record {
        tokens_in = tokens_in;
        tokens_out = tokens_out;
        gross_usd = gross;
        provider_msats = provider';
        fee_msats = fee';
      }

  -- The row of a job that is complete at `now`.
  abbrev pub completed_row : PendingJob → Bill fl.F → ℕ → Job
  completed_row job bill now = record {
    job_id = job.job_id;
    node_id = job.node_id;
    user_key = job.user_key;
    model = job.model;
    tokens_in = bill.tokens_in;
    tokens_out = bill.tokens_out;
    earned_msats = bill.provider_msats;
    fee_msats = bill.fee_msats;
    free_tier = job.free_tier;
    status = JobStatus.complete;
    started_at = seconds job.started_at;
    completed_at = some (seconds now);
  }

  abbrev with_db : Db → Gateway fl.F → Gateway fl.F
  with_db db g = record g { db = db }

  -- The deduction from a paying user; its failure is logged with the key's first six characters.
  unfoldable pub charge_user : PendingJob → Bill fl.F → Gateway fl.F → Exit × Gateway fl.F
  charge_user job bill g =
      let cost = wrap64 (bill.provider_msats +ℤ bill.fee_msats) in
      if ltb_ℤ (pos 0) cost && not job.free_tier
      then (let (r, db') = deduct_balance job.user_key cost g.db in
          elim r [
            | ok _ ↦ (returns, with_db db' g)
            | err e ↦ (log_prefix job.user_key 6, with_db db' g)
          ])
      else (returns, g)

  -- The message to the node: the tokens, and the price less the fee.
  abbrev pub job_complete_msg : PendingJob → Bill fl.F → Outgoing fl.F
  job_complete_msg job bill = job_complete job.model (wrap64 (bill.tokens_in +ℤ bill.tokens_out)) (
      fl.mul bill.gross_usd
        (fl.sub (fl.of_int (pos 1)) (fl.div engine.fee_pct (fl.of_int (pos 100)))))

  -- The end of handleProxyDone, once the job is recorded.
  unfoldable pub pay_out :
      NodeConn fl.F → PendingJob → Bill fl.F → Gateway fl.F → Exit × Gateway fl.F
  unfolding charge_user
  pay_out nc job bill g =
      let (exit, g') = charge_user job bill g in
      elim exit [
        | panics ↦ (panics, g')
        | returns ↦ (returns, push_sent nc.node_id (job_complete_msg job bill) g')
      ]

  -- The job leaves the map, its channel is closed and its slot is released.
  abbrev pub retire : PendingJob → String → Gateway fl.F → Gateway fl.F
  retire job job_id g = release_slot job.user_key (close_done job_id (forget_job job_id g))

  unfoldable pub complete_job :
      NodeConn fl.F → String → PendingJob → ℕ → Gateway fl.F → Exit × Gateway fl.F
  complete_job nc job_id job now g =
      let retired = retire job job_id g in
      let bill = bill_job job in
      let (r, db') = record_job (completed_row job bill now) retired.db in
      elim r [
        | err e ↦ (returns, with_db db' retired)
        | ok _ ↦ pay_out nc job bill (with_db db' retired)
      ]

  unfoldable pub handle_proxy_done : NodeConn fl.F → String → ℕ → Gateway fl.F → Exit × Gateway fl.F
  handle_proxy_done nc job_id now g = elim (lookup job_id g.pending_jobs) [
    | none ↦ (returns, g)
    | some job ↦
        if not (str_eq job.node_id nc.node_id)
        then (returns, g)
        else complete_job nc job_id job now g
  ]
