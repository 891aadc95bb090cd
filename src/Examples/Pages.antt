-- ===== src/Examples/Pages.antt =====
-- Runs of the public pages and of the middleware.
use routecat.Prelude.{All, List, [], arith, count, some, ℕ, ◌∷◌, ◌≤◌}
use routecat.Text.{codes}
use routecat.Float64.FixedPoint.{fixed_point}
use routecat.RateLimiter.{is_recent}
use routecat.RateLimiter.Window.{fresh}
use routecat.Middleware.{Arrival}
use routecat.Middleware.Forwarding.{Visit, arrives, forward, forward_limit, sweeps}
use routecat.Gateway.Nodes.{node_info}
use routecat.Api.Public.{handle_models}
use routecat.Api.Prices.{Charged, handle_models-Charged}
use routecat.Examples.Data.{engine, node_conn}

handle_models-Charged_example :
    All
      (Charged fixed_point engine)
      (handle_models fixed_point engine (some (node_info node_conn ∷ [])))
handle_models-Charged_example =
    handle_models-Charged fixed_point engine (some (node_info node_conn ∷ []))

abbrev chat : Arrival
chat = record { path = codes "/v1/chat/completions"; remote_addr = "10.0.0.1"; real_ip = "" }

abbrev page : Arrival
page = record chat { path = codes "/logo.svg" }

abbrev visits : List (ℕ × Visit)
visits = (1, arrives chat) ∷ (2, arrives page) ∷ (3, arrives chat) ∷ (4, sweeps) ∷ []

forward_limit_example :
    count (is_recent 10 5) (forward 1000 "10.0.0.1" visits [] (fresh 1 10)).0 ≤ 1
forward_limit_example = forward_limit 1000 1 10 "10.0.0.1" visits 5 (omega arith) (omega arith)
