-- ===== src/Coordinator/Policies.antt =====
-- Policies and settings: `initialize_run`, `_record_policy_in_transaction`, `record_policy`,
-- `record_and_activate_policy`, `activate_policy` and `configure_scheduler` of coordinator/database.py.
-- `digest` is a manifest's identity digest and `path` the artifact's path below the run root, both as
-- `_prepare_trained_policy_record` computes them; `verified` says that the files passed their check.
use aether_rl.Prelude.{
  ℕ, Bool, Option, none, some, List, [], ◌∷◌, ◌++◌, ◌&&◌, ◌||◌, not, ◌==◌, ltb, leb, any, is_none,
  is_some, holds_some, if◌then◌else◌,
}
use aether_rl.Tx.{
  value, invalid_state, conflict, integrity, artifact_corruption, type_error, Tx, ◌>>=◌, ◌>>◌, gets,
  require, guard, modify,
}
use aether_rl.Table.{select}
use aether_rl.Coordinator.Schema.{Db, PolicyManifest, Run, Policy, SchedulerState}
use aether_rl.Coordinator.Rows.{policy_key}
use aether_rl.Coordinator.Stale.{active_policy_row, reconcile_stale_work}

-- `policy_id = ? OR policy_version = ?`
abbrev pub same_policy : ℕ → ℕ → List Policy → Option Policy
same_policy id version [] = none
same_policy id version (p ∷ ps) =
    if p.policy_id == id || p.policy_version == version then some p else same_policy id version ps

-- The keys of `policies`, and its CHECK: the base policy alone has no artifact.
unfoldable pub insert_policy : Policy → Tx Db Unit
insert_policy row = do
  taken ← gets (λ db.
      any
        (λ p.
          p.policy_id == row.policy_id
          || p.policy_version == row.policy_version
          || p.manifest_digest == row.manifest_digest)
        db.policies)
  guard (not taken) integrity
  guard
      (row.policy_version == 0 && is_none row.artifact_path
        || ltb 0 row.policy_version && is_some row.artifact_path)
      integrity
  modify (λ db. record db { policies = db.policies ++ row ∷ [] })

abbrev pub policy_row : PolicyManifest → ℕ → Option ℕ → Policy
policy_row m digest path = record {
  policy_id = m.policy_id;
  policy_version = m.policy_version;
  manifest_digest = digest;
  manifest_json = m;
  artifact_path = path;
}

abbrev pub initialize_by_row : PolicyManifest → ℕ → Option Run → Tx Db Unit
initialize_by_row m digest (some run) = do
  p ← require type_error (λ db. select policy_key run.base_policy_id db.policies)
  guard (run.run_id == m.run_id && p.manifest_digest == digest) conflict
initialize_by_row m digest none = do
  insert_policy (policy_row m digest none)
  modify (λ db. record db {
    run = some (record {
      run_id = m.run_id;
      base_model_json = m.base_model;
      base_policy_id = m.policy_id;
      active_policy_id = m.policy_id;
    });
  })

-- `initialize_run`
unfoldable pub initialize_run : PolicyManifest → ℕ → Tx Db Unit
unfolding insert_policy
initialize_run m digest = do
  guard (m.policy_version == 0) value
  existing ← gets (λ db. db.run)
  initialize_by_row m digest existing

abbrev pub record_by_row : PolicyManifest → ℕ → ℕ → Option Policy → Tx Db Unit
record_by_row m digest path none = insert_policy (policy_row m digest (some path))
record_by_row m digest path (some p) =
    guard (p.manifest_digest == digest && holds_some (λ x. x == path) p.artifact_path) conflict

-- `_record_policy_in_transaction`
unfoldable pub record_in_transaction : PolicyManifest → ℕ → ℕ → Tx Db Unit
unfolding insert_policy
record_in_transaction m digest path = do
  run ← require invalid_state (λ db. db.run)
  guard (m.run_id == run.run_id && m.base_model == run.base_model_json) conflict
  existing ← gets (λ db. same_policy m.policy_id m.policy_version db.policies)
  record_by_row m digest path existing

-- The checks of `_prepare_trained_policy_record`.
abbrev pub prepare : PolicyManifest → Bool → Tx Db Unit
prepare m verified = do guard (not (m.policy_version == 0)) value; guard verified value

-- `record_policy`
unfoldable pub record_policy : PolicyManifest → Bool → ℕ → ℕ → Tx Db Unit
unfolding record_in_transaction
record_policy m verified digest path = do prepare m verified; record_in_transaction m digest path

-- The activation that `activate_policy` and `record_and_activate_policy` share.
abbrev pub point_at : ℕ → Run → Run
point_at policy r = record r { active_policy_id = policy }

abbrev pub set_active : ℕ → Option Run → Option Run
set_active policy none = none
set_active policy (some r) = some (point_at policy r)

unfoldable pub activate : ℕ → ℕ → ℕ → Tx Db Unit
activate policy version now = do
  active ← require invalid_state active_policy_row
  guard (leb active.policy_version version) invalid_state
  modify (λ db. record db { run = set_active policy db.run })
  reconcile_stale_work now

-- `record_and_activate_policy`
unfoldable pub record_and_activate_policy : PolicyManifest → Bool → ℕ → ℕ → ℕ → Tx Db Unit
unfolding record_in_transaction activate
record_and_activate_policy m verified digest path now = do
  prepare m verified
  record_in_transaction m digest path
  activate m.policy_id m.policy_version now

-- `activate_policy`
unfoldable pub activate_policy : ℕ → Bool → ℕ → Tx Db Unit
unfolding activate
activate_policy policy verified now = do
  target ← require invalid_state (λ db. select policy_key policy db.policies)
  guard verified artifact_corruption
  activate policy target.policy_version now

abbrev pub configured : ℕ → ℕ → Option SchedulerState → Option SchedulerState
configured lag preference none = none
configured lag preference (some s) =
    some
      (record s { max_policy_lag = some lag; loaded_policy_preference_seconds = some preference })

-- `configure_scheduler`; both settings are non-negative numbers here.
unfoldable pub configure_scheduler : ℕ → ℕ → ℕ → Tx Db Unit
configure_scheduler lag preference now = do
  modify (λ db. record db { scheduler = configured lag preference db.scheduler })
  reconcile_stale_work now
