-- ===== src/Examples.antt =====
-- Concrete runs of the program, on which its theorems are applied.
pub mod Data
pub mod Stores
pub mod Limits
pub mod Gateways
pub mod Payments
pub mod Requests
pub mod Lnd
pub mod Wiring
pub mod Histories
pub mod Hazards
pub mod Pages
