-- ===== src/Orchestrator.antt =====
-- src/aether_rl/orchestrator: filters.py and trajectories.py.
pub mod Filters
pub mod Trajectories
pub mod Streaks
pub mod Tests
pub mod Verdicts
pub mod Masks
pub mod Credit
pub mod Shapes
