-- ===== src/Broker.antt =====
-- src/aether_rl/coordinator/inference.py: the exchange of inference requests between the coordinator
-- and the worker that holds a lease.
pub mod Exchange
pub mod Delivery
pub mod Inversion
pub mod Delivered
pub mod Refinement
pub mod Closing
pub mod Tests
