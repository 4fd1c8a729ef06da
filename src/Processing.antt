-- ===== src/Processing.antt =====
-- src/aether_rl/coordinator/results.py: the batches that `ResultProcessor` makes.
pub mod Selecting
pub mod Partition
pub mod Selection
pub mod Homogeneous
pub mod Emitting
pub mod Rounds
pub mod Ends
pub mod Assigning
pub mod Emission
pub mod Tests
