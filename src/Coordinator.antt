-- ===== src/Coordinator.antt =====
-- src/aether_rl/coordinator: the durable state of one run and its transactions.
pub mod Schema
pub mod Rows
pub mod Lifecycle
pub mod Stale
pub mod Leases
pub mod Renewal
pub mod Results
pub mod Workers
pub mod Sources
pub mod Registering
pub mod Offers
pub mod Policies
pub mod Batches
pub mod Leasing
pub mod Calls
pub mod Sound
pub mod History
pub mod Promises
mod Examples
mod Tests
mod PromiseTests
mod GrantTests
mod OfferTests
