-- ===== src/Lib.antt =====
-- The durable coordinator of aether-rl, the worker's policy cache, and the making of training batches.
--
-- The coordinator (src/aether_rl/coordinator) owns one SQLite database. Workers register, ask for
-- leases of rollout assignments, renew them by heartbeats and submit results or failures; a scheduler
-- makes groups of assignments from sources; a trainer takes processed rollouts in batches and publishes
-- policies. A result processor turns the results of a group into such rollouts and those into batches,
-- a broker hands inference requests to the worker that holds a lease, and the worker caches the policies
-- that it serves. `CoordinatorRepository` of coordinator/database.py holds all of it as transactions over the
-- tables of coordinator/migrations.py. The trainer (src/aether_rl/trainer/batch.py) packs the samples
-- of a batch into micro batches.
--
-- The library, by files:
-- - Prelude: shared names, Boolean tests, lists, sorting and permutations.
-- - Tx: `_transaction`. A transaction is a function of the database that returns or raises. Tx/Rules has
--   the rules of partial correctness, Tx/Total those for code that never raises.
-- - Table: SELECT, UPDATE and INSERT on a table with a primary key, a list of rows.
-- - Coordinator/Schema, Rows: the tables of schema version 5 and the single statements, with the keys,
--   foreign keys and CHECKs that the code can meet.
-- - Coordinator/Lifecycle, Stale: `_retry_or_terminal`, `_expire_leases`, `_cancel_stale_train_groups`.
-- - Coordinator/Leases, Renewal: `lease_next_compatible`, `create_lease`, `renew_lease`,
--   `release_unoffered_lease`.
-- - Coordinator/Offers: `associate_offered_leases`, `lease_or_create_next_compatible`, and `recover` once
--   the files are checked.
-- - Coordinator/Results: `accept_result`, `accept_failure`, `claim_pending_results`.
-- - Coordinator/Workers: `register_worker`, `record_heartbeat`, `validate_lease_request`.
-- - Coordinator/Sources, Registering: `create_next_group`, `create_group`, `register_scheduler_source`.
-- - Coordinator/Policies, Batches: the policies, the processed groups and the training batches.
-- - Coordinator/Calls: the calls as one state machine, `step`, and the databases that they reach.
-- - Coordinator/Leasing, Sound: the invariant of the lease tables, and each operation under it.
-- - Coordinator/History, Promises: what holds after every history, and of single operations.
-- - Dict: Python's dict as a list of its items.
-- - Processing: `ResultProcessor` of coordinator/results.py: Selecting is the choice of a batch's rollouts,
--   Emitting the loop over the database; Partition, Selection and Homogeneous are about the choice,
--   Rounds, Ends, Assigning and Emission about the loop.
-- - Broker/Exchange: `InferenceBroker` of coordinator/inference.py, each coroutine cut at its awaits.
--   Delivery has its steps; Delivered, Refinement and Closing are about them.
-- - Orchestrator/Filters, Trajectories: orchestrator/filters.py and trajectories.py. Streaks and Verdicts
--   are about the filters, Masks, Credit and Shapes about the samples of a trace.
-- - Worker/Cache: `AdapterCache` of worker/policy_cache.py; Sweep and Retention are about its evictions,
--   Ensuring about downloads and pins.
-- - Batch: trainer/batch.py, with Batch/Conservation, Capacity, Termination, Extending, Materializing
--   and Alignment for its properties.
--
-- Identifiers, digests, paths, canonical JSON texts and floats are numbers; times are numbers of one
-- unit of the clock. A call is given what the clock says, and fresh identifiers, as arguments. The
-- float quotient of `create_next_group`, `policy_manifest_digest`, `bin_cost` and numpy's item sizes are
-- parameters. Fuel is that of `expand` in Batch/Packing, the target number of bins: each round
-- of `_expand_bins_by_splitting` appends one bin, so no more rounds run; and that of
-- `emit` in Processing/Emitting, one more than the free rollouts: each round that goes on leaves fewer.
--
-- Not modelled: files (the spool, adapters, the checks of recovery), the HTTP API, threads, status
-- queries, the processing of a group's results up to its artifact, the worker's daemon, and the rest of
-- the trainer.
mod Prelude
pub mod Tx
pub mod Table
pub mod Coordinator
pub mod Batch
pub mod Dict
pub mod Processing
pub mod Broker
pub mod Orchestrator
pub mod Worker
