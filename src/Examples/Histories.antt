-- ===== src/Examples/Histories.antt =====
-- A history of the program: a node connects, a request is served by it, and its heartbeat arrives.
use routecat.Prelude.{count, find, refl, true, ℕ, ◌≡◌}
use routecat.Prelude.Int.{wrap64, ◌-ℤ◌}
use routecat.Prelude.Dict.{erase, insert, lookup}
use routecat.Http.{success}
use routecat.Store.Nodes.{node_by_api_key}
use routecat.Store.Users.{user_balance, validate_user_key}
use routecat.Store.Sql.{or_zero, sql}
use routecat.Router.{best_node, has_model, route_request}
use routecat.Gateway.Nodes.{connect, live_node_infos}
use routecat.Gateway.Jobs.{assign_job, begin_assign, end_assign}
use routecat.Gateway.Slots.{incr_user_jobs}
use routecat.Api.Chat.{admit, check_user, handle_chat_completions, read_chat, start_job}
use routecat.Main.Histories.{Healthy, History-Healthy_start}
use routecat.Main.Events.{
  Event, History, begin, chatting, connecting, follow, receiving, with_gateway,
}
use routecat.Examples.Wiring.{build, heartbeat, macaroon_file, options}
use routecat.Examples.Lnd.{lossy}
use routecat.Examples.Data.{market_db, no_usage, node_conn}
use routecat.Float64.FixedPoint.{fixed_point}
use routecat.Gateway.State.{Gateway}
use routecat.Gateway.Messages.{dispatch}
use routecat.Main.{App, start_app, wire_app}
use routecat.Examples.Requests.{chat_request}

abbrev started : App fixed_point ℕ
started = start_app fixed_point lossy macaroon_file options build market_db 0

abbrev served_by : Gateway ℕ → App fixed_point ℕ → App fixed_point ℕ
served_by = with_gateway fixed_point no_usage

abbrev connected : App fixed_point ℕ
connected = served_by (connect 0 true 1 "nk-1" started.gateway).1 started

abbrev served : App fixed_point ℕ
served =
    served_by (handle_chat_completions true "j1" chat_request 5000000000 connected.gateway).1
      connected

abbrev answered : App fixed_point ℕ
answered =
    served_by
      (dispatch fixed_point no_usage served.engine node_conn heartbeat 6000000000 served.gateway).1
      served

module _ (world : ℕ) where
  abbrev Runs : App fixed_point ℕ → App fixed_point ℕ → Type 0
  Runs a b = Event fixed_point no_usage a world b world

  joins : Runs started connected
  joins = connecting 0 true 1 "nk-1" refl refl

  asks : Runs connected served
  unfolding start_app wire_app connect lookup find node_by_api_key sql insert erase
  asks = chatting true "j1" chat_request 5000000000 refl refl refl refl

  beats : Runs served answered
  beats = receiving node_conn heartbeat 6000000000 refl refl

  served_run : History fixed_point no_usage started world answered world
  served_run = follow (follow (follow begin joins) asks) beats

History-Healthy_start_example : Healthy answered
History-Healthy_start_example =
    History-Healthy_start fixed_point no_usage lossy macaroon_file options build market_db 0
      (served_run 0)

-- The request is served: its job is in flight.
served_by_node :
    (handle_chat_completions true "j1" chat_request 5000000000 connected.gateway).0 ≡ success
unfolding start_app wire_app connect find node_by_api_key sql insert erase lookup
    handle_chat_completions check_user validate_user_key user_balance admit read_chat start_job
    route_request best_node has_model live_node_infos assign_job begin_assign end_assign
    incr_user_jobs count or_zero wrap64 ◌-ℤ◌
served_by_node = refl
