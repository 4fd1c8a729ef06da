-- ===== src/Batch.antt =====
-- src/aether_rl/trainer/batch.py: the packing of samples into micro batches and their padding.
pub mod Data
pub mod Bins
pub mod Packing
pub mod Padding
pub mod Materialize
pub mod Conservation
pub mod Capacity
pub mod Termination
pub mod Alignment
pub mod Extending
pub mod Materializing
mod Tests
