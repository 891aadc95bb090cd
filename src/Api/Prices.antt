-- ===== src/Api/Prices.antt =====
-- Proofs about `HandleModels` in internal/api/api.go and the prices of internal/billing/billing.go.
use routecat.Prelude.{All, List, Option, String, [], map, none, refl, some, ◌∷◌, ◌≡◌}
use routecat.Prelude.Int.{pos, ℤ}
use routecat.Prelude.Dict.{lookup}
use routecat.Router.{Source, available_models}
use routecat.Float64.{Float64}
use routecat.Billing.{Engine, get_pricing, gross_usd, pricing_or_fallback}
use routecat.Billing.Pricing.{ModelPricing, fallback_pricing}
use routecat.Api.Public.{handle_models, model_entry}

module _ (fl : Float64) (engine : Engine fl.F) where
  -- What some tokens of a model cost at a price.
  abbrev pub at_price : ModelPricing fl.F → ℤ → ℤ → fl.F
  at_price p tokens_in tokens_out =
      let million = fl.of_int (pos 1000000) in
      fl.add (fl.mul (fl.div (fl.of_int tokens_in) million) p.per_m_input_usd)
        (fl.mul (fl.div (fl.of_int tokens_out) million) p.per_m_output_usd)

  abbrev pub Charged : String × ModelPricing fl.F → Type 0
  Charged (tag, p) =
      (tokens_in tokens_out : ℤ)
      → gross_usd fl engine tag tokens_in tokens_out ≡ at_price p tokens_in tokens_out

  model_entry-Charged : (tag : String) → Charged (model_entry fl engine tag)
  unfolding gross_usd get_pricing pricing_or_fallback
  model_entry-Charged tag = entry (lookup tag engine.pricing) refl
    where
      entry :
          (o : Option (ModelPricing fl.F))
          → lookup tag engine.pricing ≡ o
          → Charged (elim o [ none ↦ (tag, fallback_pricing fl) | some p ↦ (tag, p) ])
      entry none e tokens_in tokens_out = rw (gross_usd, pricing_or_fallback, e) refl
      entry (some p) e tokens_in tokens_out = rw (gross_usd, pricing_or_fallback, e) refl

  entries-Charged : (tags : List String) → All Charged (map (model_entry fl engine) tags)
  entries-Charged [] = tt
  entries-Charged (tag ∷ tags) = (model_entry-Charged tag, entries-Charged tags)

  -- Each model on the list is shown with the price that a job of it is charged at, whatever its tokens.
  pub handle_models-Charged : (source : Source) → All Charged (handle_models fl engine source)
  unfolding handle_models
  handle_models-Charged source = entries-Charged (available_models source)
