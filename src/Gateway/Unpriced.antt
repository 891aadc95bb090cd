-- ===== src/Gateway/Unpriced.antt =====
-- What jobs cost in internal/gateway/gateway.go until internal/billing/btcprice.go has a price.
use routecat.Prelude.{Option, none, some, true, ◌≡◌}
use routecat.Float64.{Float64}
use routecat.Billing.{zero_usd}
use routecat.Store.Tables.{Tables}
use routecat.Gateway.State.{Gateway}

module _ (fl : Float64) where
  -- A fetch that fails, or that decodes no positive price.
  abbrev pub NoPrice : Option fl.F → Type 0
  NoPrice none = Unit
  NoPrice (some usd) = fl.le usd (zero_usd fl) ≡ true
