-- ===== src/Billing/Pricing.antt =====
-- internal/billing/billing.go: the price table.
use routecat.Prelude.{List, String, [], map, ℕ, ◌∷◌}
use routecat.Prelude.Dict.{Dict}
use routecat.Float64.{Float64}

-- USD per million tokens.
pub record ModelPricing (F : Type 0) : Type 0 where
  pub per_m_input_usd : F
  pub per_m_output_usd : F

-- The literals of the table, in thousandths of a dollar: input, output.
default_prices : List (String × ℕ × ℕ)
default_prices =
    ("llama3.1:70b", 100, 140)
    ∷ ("llama3.1:70b-instruct-q4_K_M", 100, 140)
    ∷ ("llama3.3:70b", 100, 140)
    ∷ ("llama3.1:70b-instruct-q2_K", 80, 120)
    ∷ ("qwen2.5-coder:32b-instruct-q4_K_M", 60, 110)
    ∷ ("qwen2.5:32b", 60, 110)
    ∷ ("mixtral:8x7b", 60, 110)
    ∷ ("command-r:35b", 50, 100)
    ∷ ("gemma2:27b", 50, 100)
    ∷ ("mistral-small:24b", 50, 100)
    ∷ ("qwen2.5:14b", 40, 90)
    ∷ ("deepseek-r1:14b", 50, 90)
    ∷ ("llama3.1:8b-instruct-q8_0", 30, 80)
    ∷ ("qwen3.5:9b", 30, 80)
    ∷ ("qwen3:8b", 30, 80)
    ∷ ("deepseek-r1:8b", 30, 70)
    ∷ ("llama3.1:8b", 30, 70)
    ∷ ("qwen2.5:7b", 30, 70)
    ∷ ("qwen2.5-coder:7b", 30, 70)
    ∷ ("deepseek-r1:7b", 30, 70)
    ∷ ("gemma2:9b", 30, 70)
    ∷ ("mistral:7b", 30, 70)
    ∷ ("phi4-mini", 20, 60)
    ∷ ("phi4-mini:latest", 20, 60)
    ∷ ("qwen3.5:4b", 20, 50)
    ∷ ("gemma3:4b", 20, 50)
    ∷ ("llama3.2:3b", 15, 40)
    ∷ ("qwen2.5:3b", 15, 40)
    ∷ ("phi3:mini", 15, 40)
    ∷ ("qwen2.5:1.5b", 8, 20)
    ∷ ("deepseek-r1:1.5b", 8, 20)
    ∷ ("llama3.2:1b", 5, 10)
    ∷ ("tinyllama:1.1b", 5, 10)
    ∷ ("qwen3.5:0.8b", 5, 12)
    ∷ ("qwen2.5:0.5b", 3, 8)
    ∷ ("smollm2:360m", 2, 5)
    ∷ ("smollm2:135m", 1, 3)
    ∷ []

abbrev price_row : (fl : Float64) → String × ℕ × ℕ → String × ModelPricing fl.F
price_row fl (model, input, output) =
    (model, record { per_m_input_usd = fl.lit input 3; per_m_output_usd = fl.lit output 3 })

unfoldable pub default_pricing : (fl : Float64) → Dict (ModelPricing fl.F)
unfolding default_prices
default_pricing fl = map (price_row fl) default_prices

unfoldable pub fallback_pricing : (fl : Float64) → ModelPricing fl.F
fallback_pricing fl = record { per_m_input_usd = fl.lit 30 3; per_m_output_usd = fl.lit 70 3 }
