-- ===== src/Billing.antt =====
-- internal/billing/billing.go and btcprice.go: what a job costs, and how it is split into the
-- provider's earnings and the gateway's fee.
pub mod Pricing
pub mod Split
use routecat.Prelude.{List, Option, String, [], if◌then◌else◌, none, not, some, ℕ, ◌∷◌}
use routecat.Prelude.Int.{pos, wrap64, ℤ, ◌-ℤ◌}
use routecat.Prelude.Dict.{Dict, lookup}
use routecat.Float64.{Float64}
use Pricing.{ModelPricing, default_pricing, fallback_pricing}

-- The engine with its price tracker's current BTC price.
pub record Engine (F : Type 0) : Type 0 where
  pub fee_pct : F
  pub price : F
  pub pricing : Dict (ModelPricing F)

abbrev pub msats_per_btc : ℕ
msats_per_btc = 100000000000

module _ (fl : Float64) where
  abbrev pub zero_usd : fl.F
  zero_usd = fl.of_int (pos 0)

  -- New, before the first fetch has returned.
  unfoldable pub new_engine : fl.F → Engine fl.F
  unfolding default_pricing
  new_engine fee_pct = record { fee_pct = fee_pct; price = zero_usd; pricing = default_pricing fl }

  -- What `fetch` makes of the price that it decoded; `none` is a failed request or bad JSON.
  unfoldable pub fetch : Option fl.F → Engine fl.F → Engine fl.F
  fetch none e = e
  fetch (some usd) e = if not (fl.le usd zero_usd) then record e { price = usd } else e

  -- NewPriceTracker: the first fetch, and one at each tick, with what they decode.
  unfoldable pub fetch_all : List (Option fl.F) → Engine fl.F → Engine fl.F
  unfolding fetch
  fetch_all [] e = e
  fetch_all (usd ∷ later) e = fetch_all later (fetch usd e)

  unfoldable pub get_pricing : Engine fl.F → String → Option (ModelPricing fl.F)
  get_pricing e model = lookup model e.pricing

  unfoldable pub pricing_or_fallback : Engine fl.F → String → ModelPricing fl.F
  unfolding fallback_pricing
  pricing_or_fallback e model = elim (lookup model e.pricing) [
    | none ↦ fallback_pricing fl
    | some p ↦ p
  ]

  -- float64(tokens)/1_000_000*price
  abbrev cost : ℤ → fl.F → fl.F
  cost tokens price = fl.mul (fl.div (fl.of_int tokens) (fl.of_int (pos 1000000))) price

  unfoldable pub gross_usd : Engine fl.F → String → ℤ → ℤ → fl.F
  unfolding pricing_or_fallback
  gross_usd e model tokens_in tokens_out =
      let p = pricing_or_fallback e model in
      fl.add (cost tokens_in p.per_m_input_usd) (cost tokens_out p.per_m_output_usd)

  -- int64(grossUSD / btcPriceUSD * 100_000_000_000)
  unfoldable pub total_msats : fl.F → fl.F → ℤ
  total_msats gross btc = fl.to_int (fl.mul (fl.div gross btc) (fl.of_int (pos msats_per_btc)))

  -- int64(float64(totalMsats) * e.feePct / 100)
  unfoldable pub fee_msats : fl.F → ℤ → ℤ
  fee_msats fee_pct total =
      fl.to_int (fl.div (fl.mul (fl.of_int total) fee_pct) (fl.of_int (pos 100)))

  -- The gross price in USD, the provider's earnings and the fee.
  unfoldable pub calculate : Engine fl.F → String → ℤ → ℤ → fl.F → fl.F × ℤ × ℤ
  calculate e model tokens_in tokens_out btc =
      let gross = gross_usd e model tokens_in tokens_out in
      if fl.le btc zero_usd
      then (gross, pos 0, pos 0)
      else (let total = total_msats gross btc in
          let fee = fee_msats e.fee_pct total in (gross, wrap64 (total -ℤ fee), fee))
