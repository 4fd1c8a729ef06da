-- ===== src/Worker.antt =====
-- src/aether_rl/worker: the policy cache of policy_cache.py.
pub mod Cache
pub mod Sweep
pub mod Retention
pub mod Ensuring
pub mod Tests
