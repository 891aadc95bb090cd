-- ===== src/Api/Public.antt =====
-- internal/api/api.go: the public pages: statistics, the audit log and the models on offer.
use routecat.Prelude.{List, Option, String, map, none, some, ℕ}
use routecat.Prelude.Int.{pos, ℤ}
use routecat.Router.{Source, available_models}
use routecat.Float64.{Float64}
use routecat.Billing.{Engine, get_pricing}
use routecat.Billing.Pricing.{ModelPricing, fallback_pricing}
use routecat.Store.Tables.{Db}
use routecat.Store.Sql.{Result, or_zero, pure, ◌>>=◌}
use routecat.Store.Jobs.{AuditJob, global_stats_24h, recent_jobs}
use routecat.Gateway.State.{Gateway, seconds}
use routecat.Gateway.Nodes.{connected_nodes}

pub record BuildInfo : Type 0 where
  pub version : String
  pub commit : String

pub record Stats (F : Type 0) : Type 0 where
  pub nodes_online : ℕ
  pub fee_pct : F
  pub jobs_24h : ℤ
  pub tokens_24h : ℤ
  pub build : BuildInfo

-- A counter that is not wired counts no node; a query that fails leaves zeros.
unfoldable pub handle_stats :
    {F : Type 0} → Option (Gateway F) → Engine F → BuildInfo → ℕ → Db → Result (Stats F) × Db
handle_stats counter engine build now db =
    (do
      (jobs, tokens) ← or_zero (pos 0, pos 0) (global_stats_24h (seconds now))
      pure (record {
        nodes_online = elim counter [ none ↦ 0 | some g ↦ connected_nodes g ];
        fee_pct = engine.fee_pct;
        jobs_24h = jobs;
        tokens_24h = tokens;
        build = build;
      }))
      db

abbrev pub audit_rows : ℕ
audit_rows = 100

-- The rows of the log, or the note that the query failed.
unfoldable pub handle_audit : Db → Result (List AuditJob) × Db
handle_audit db = recent_jobs audit_rows db

module _ (fl : Float64) (engine : Engine fl.F) where
  -- GetPricing, or else FallbackPricing
  abbrev pub model_entry : String → String × ModelPricing fl.F
  model_entry tag = elim (get_pricing fl engine tag) [
    | none ↦ (tag, fallback_pricing fl)
    | some p ↦ (tag, p)
  ]

  unfoldable pub handle_models : Source → List (String × ModelPricing fl.F)
  handle_models source = map model_entry (available_models source)
