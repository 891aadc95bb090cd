-- ===== src/Api.antt =====
-- internal/api: the public API for the buyers.
pub mod Accounts
pub mod Chat
pub mod Topups
pub mod Terms
pub mod Admission
pub mod Public
pub mod Prices
pub mod Sound
