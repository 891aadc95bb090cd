-- ===== src/Lightning/Client.antt =====
-- internal/lightning/lightning.go: the interface `Client`. The network's answers are the caller's to
-- choose: a client's operations take and return a state `W` of the world.
use routecat.Prelude.{Bool, Option, String}
use routecat.Prelude.Int.{ℤ}

pub record Client (W : Type 0) : Type 0 where
  -- the payment hash, or none for an error
  pub pay_address : String → ℤ → W → Option String × W
  -- in sats
  pub get_balance : W → Option ℤ × W
  -- the bolt11 invoice and the payment hash
  pub create_invoice : ℤ → String → W → Option (String × String) × W
  pub check_invoice : String → W → Option Bool × W
