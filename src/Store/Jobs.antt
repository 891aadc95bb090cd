-- ===== src/Store/Jobs.antt =====
-- internal/store/sqlite.go: recorded jobs and the statistics over them.
use routecat.Prelude.{
  Bool, List, String, [], count, false, filter, find, if◌then◌else◌, leb, map, none, some, str_eq,
  take, true, ℕ, ◌&&◌, ◌*◌, ◌++◌, ◌+◌, ◌∷◌,
}
use routecat.Prelude.Int.{pos, sum_where, wrap64, ℤ, ◌+ℤ◌}
use routecat.Store.Tables.{Job, JobStatus, Tables}
use routecat.Store.Sql.{Result, Sql, constraint, err, ok, or_zero, pure, select, statement, ◌>>=◌}

abbrev pub is_complete : JobStatus → Bool
is_complete JobStatus.complete = true
is_complete JobStatus.pending = false
is_complete JobStatus.streaming = false
is_complete JobStatus.failed = false

-- WHERE node_id=? AND status='complete'
abbrev pub completed_by : String → Job → Bool
completed_by node_id j = str_eq j.node_id node_id && is_complete j.status

-- started_at >= datetime('now', '-24 hours'), and with '-30 days'
abbrev pub started_within : ℕ → ℕ → Job → Bool
started_within span now j = leb now (j.started_at + span)

abbrev pub day_seconds : ℕ
day_seconds = 86400

abbrev pub month_seconds : ℕ
month_seconds = 2592000

abbrev pub has_job_id : String → Job → Bool
has_job_id job_id j = str_eq j.job_id job_id

-- INSERT INTO jobs; the job id is the primary key
abbrev pub insert_job : Job → Tables → Result (Unit {0}) × Tables
insert_job j t = elim (find (has_job_id j.job_id) t.jobs) [
  | none ↦ (ok tt, record t { jobs = t.jobs ++ j ∷ [] })
  | some _ ↦ (err constraint, t)
]

unfoldable pub record_job : Job → Sql (Unit {0})
record_job j = statement (insert_job j)

-- COALESCE(SUM(earned_msats),0) of a node's completed jobs
abbrev pub earned_total : String → Tables → ℤ
earned_total node_id t = sum_where (completed_by node_id) (λ j. j.earned_msats) t.jobs

unfoldable pub node_earnings_total : String → Sql ℤ
node_earnings_total node_id = select (λ t. ok (earned_total node_id t))

abbrev pub completed_within : String → ℕ → Job → Bool
completed_within node_id now j = completed_by node_id j && started_within day_seconds now j

unfoldable pub node_earnings_today : String → ℕ → Sql ℤ
node_earnings_today node_id now =
    select (λ t. ok (sum_where (completed_within node_id now) (λ j. j.earned_msats) t.jobs))

-- The number of jobs and their tokens.
unfoldable pub node_jobs_today : String → ℕ → Sql (ℤ × ℤ)
node_jobs_today node_id now = select λ t. ok (
  pos (count (completed_within node_id now) t.jobs),
  sum_where (completed_within node_id now) (λ j. j.tokens_in +ℤ j.tokens_out) t.jobs,
)

abbrev global_within : ℕ → Job → Bool
global_within now j = is_complete j.status && started_within day_seconds now j

unfoldable pub global_stats_24h : ℕ → Sql (ℤ × ℤ)
global_stats_24h now = select λ t. ok (
  pos (count (global_within now) t.jobs),
  sum_where (global_within now) (λ j. j.tokens_in +ℤ j.tokens_out) t.jobs,
)

abbrev free_by : String → Job → Bool
free_by node_id j = completed_by node_id j && j.free_tier

abbrev month_by : String → ℕ → Job → Bool
month_by node_id now j = completed_by node_id j && started_within month_seconds now j

-- The free-tier jobs served, and karma: ten for each of those and one for each job of the last 30
-- days; an error of the second query leaves that count at 0.
unfoldable pub node_karma : String → ℕ → Sql (ℤ × ℤ)
node_karma node_id now = do
  free ← select (λ t. ok (count (free_by node_id) t.jobs))
  month ← or_zero 0 (select (λ t. ok (count (month_by node_id now) t.jobs)))
  pure (pos free, wrap64 (pos (free * 10 + month)))

-- The public audit row: no user key, no node id.
pub record AuditJob : Type 0 where
  pub model : String
  pub tokens_in : ℤ
  pub tokens_out : ℤ
  pub earned_msats : ℤ
  pub fee_msats : ℤ
  pub timestamp : ℕ

-- ORDER BY started_at DESC, by insertion
unfoldable pub insert_latest : Job → List Job → List Job
insert_latest j [] = j ∷ []
insert_latest j (x ∷ xs) =
    if leb x.started_at j.started_at then j ∷ x ∷ xs else x ∷ insert_latest j xs

unfoldable pub latest_first : List Job → List Job
unfolding insert_latest
latest_first [] = []
latest_first (j ∷ js) = insert_latest j (latest_first js)

abbrev pub anonymise : Job → AuditJob
anonymise j = record {
  model = j.model;
  tokens_in = j.tokens_in;
  tokens_out = j.tokens_out;
  earned_msats = j.earned_msats;
  fee_msats = j.fee_msats;
  timestamp = j.started_at;
}

unfoldable pub recent_jobs : ℕ → Sql (List AuditJob)
unfolding latest_first
recent_jobs limit =
    select λ t.
      ok (map anonymise (take limit (latest_first (filter (λ j. is_complete j.status) t.jobs))))
