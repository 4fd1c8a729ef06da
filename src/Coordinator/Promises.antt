-- ===== src/Coordinator/Promises.antt =====
-- What single operations of coordinator/database.py promise their callers.
pub mod Submissions
pub mod Retries
pub mod Activation
pub mod Batching
pub mod Granting
pub mod Offers
