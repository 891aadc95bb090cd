-- ===== src/Store.antt =====
-- internal/store/sqlite.go: the SQLite store, its tables and the typed queries over them.
pub mod Tables
pub mod Sql
pub mod Users
pub mod Invoices
pub mod Jobs
pub mod Payouts
pub mod Nodes
pub mod Ensures
pub mod Deduct
pub mod Credit
pub mod Accounts
pub mod Owners
pub mod Spec
pub mod Views
pub mod SpecCalls
pub mod Simulation
pub mod Refinement
pub mod Books
pub mod Conservation
pub mod Audit
