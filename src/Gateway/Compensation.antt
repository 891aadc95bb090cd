-- ===== src/Gateway/Compensation.antt =====
-- What the cleanup of internal/gateway/gateway.go writes.
use routecat.Prelude.Dict.{Dict}
use routecat.Float64.{Float64}
use routecat.Gateway.State.{Gateway}
