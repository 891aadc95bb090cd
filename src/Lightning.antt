-- ===== src/Lightning.antt =====
-- internal/lightning: payouts to the providers and invoices of the users, over a Lightning client.
pub mod Client
pub mod LndIo
pub mod Lnd
pub mod Hashes
pub mod Payout
pub mod Invoices
pub mod Cap
pub mod Balance
pub mod Rounds
pub mod Solvency
pub mod Watching
pub mod Late
pub mod Panics
pub mod Crediting
