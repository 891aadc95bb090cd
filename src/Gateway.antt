-- ===== src/Gateway.antt =====
-- internal/gateway: the hub of the provider nodes and of the jobs in flight.
pub mod State
pub mod Slots
pub mod Caps
pub mod Usage
pub mod Address
pub mod Jobs
pub mod Done
pub mod Expiry
pub mod Pending
pub mod Sound
pub mod Handlers
pub mod Assigned
pub mod Cleanup
pub mod Reachable
pub mod Expiring
pub mod Race
pub mod Register
pub mod Nodes
pub mod Messages
pub mod Sessions
pub mod SessionInvariant
pub mod Unordered
pub mod Price
pub mod Unpriced
pub mod Connections
pub mod Compensation
pub mod Settlement
pub mod Takeover
pub mod Ownership
pub mod Admission
