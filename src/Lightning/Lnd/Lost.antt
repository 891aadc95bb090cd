-- ===== src/Lightning/Lnd/Lost.antt =====
-- Proofs about the payout engine with LNDClient (internal/lightning/payout.go and lightning.go), where
-- the answer to a payment does not come.
use routecat.Text.{Text}
use routecat.Lightning.Client.{Client}
