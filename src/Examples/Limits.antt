-- ===== src/Examples/Limits.antt =====
-- Runs of the rate limiter, the router and the prices.
use routecat.Prelude.{List, [], arith, count, leb, not, true, ℕ, ◌∷◌, ◌≡◌, ◌≤◌}
use routecat.Prelude.Int.{pos}
use routecat.Text.{codes}
use routecat.Router.{NodeInfo}
use routecat.RateLimiter.{allow, is_recent}
use routecat.RateLimiter.History.{Call, asks, cleans, serve}
use routecat.RateLimiter.Window.{allow_exact, fresh, window_limit}
use routecat.Gateway.Address.{
  IsAddress, is_valid_lightning_address, is_valid_lightning_address-IsAddress,
}

abbrev history : List (ℕ × Call)
history = (1, asks "a") ∷ (2, asks "a") ∷ (3, asks "b") ∷ (4, asks "a") ∷ (20, cleans) ∷ []

window_limit_example : count (is_recent 10 20) (serve "a" history [] (fresh 2 10)).0 ≤ 2
window_limit_example = window_limit 2 10 "a" history 20 (omega arith) (omega arith)

allow_exact_example :
    let (granted, rl) = serve "a" history [] (fresh 2 10) in
    (allow rl "a" 20).0 ≡ not (leb 2 (count (is_recent 10 20) granted))
allow_exact_example = allow_exact 2 10 "a" history 20 (omega arith) (omega arith)

abbrev near_node : NodeInfo
near_node = record {
  node_id = "n1";
  models = "phi4-mini" ∷ "llama3" ∷ [];
  vram_free_mb = pos 1;
  region = "eu";
  queue_depth = pos 3;
}

abbrev far_node : NodeInfo
far_node = record near_node { node_id = "n2"; models = "phi4-mini" ∷ []; queue_depth = pos 1 }

is_valid_lightning_address-IsAddress_example :
    (is_valid_lightning_address (codes "a b@c.d") ≡ true → IsAddress (codes "a b@c.d"))
    × (IsAddress (codes "a b@c.d") → is_valid_lightning_address (codes "a b@c.d") ≡ true)
is_valid_lightning_address-IsAddress_example =
    is_valid_lightning_address-IsAddress (codes "a b@c.d")
