-- ===== src/Gateway/Price.antt =====
-- What a job that ends costs in internal/gateway/gateway.go.
use routecat.Float64.{Float64}
use routecat.Billing.{Engine}
use routecat.Gateway.State.{PendingJob}
use routecat.Gateway.Usage.{Unmarshal}
use routecat.Gateway.Done.{Bill, bill_job}

module _ (fl : Float64) (unmarshal : Unmarshal) (engine : Engine fl.F) where
  abbrev bill_of : PendingJob → Bill fl.F
  bill_of job = bill_job fl unmarshal engine job
