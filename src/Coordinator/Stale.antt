-- ===== src/Coordinator/Stale.antt =====
-- Cancelling train groups whose policy lags: `_cancel_stale_train_groups` and
-- `_reconcile_stale_work` of coordinator/database.py.
use aether_rl.Prelude.{
  ℕ, ◌+◌, Bool, true, false, Option, none, some, List, [], ◌∷◌, ◌++◌, ◌&&◌, ◌||◌, not, ◌==◌, ltb,
  leb, keep, order_by, is_none, if◌then◌else◌,
}
use aether_rl.Tx.{type_error, invalid_state, Tx, ◌>>=◌, ◌>>◌, gets, require, modify, pure, for_each}
use aether_rl.Table.{select}
use aether_rl.Coordinator.Schema.{
  Db, Run, Policy, Group, Assignment, AssignmentCancellation, LeaseCancellation, Kind, train, eval,
  policy_stale, failure, is_leased, is_terminal,
}
use aether_rl.Coordinator.Rows.{
  policy_key, cancellation_key, lease_cancellation_key, set_assignment, close_cancellation,
  insert_outcome_or_ignore, recompute_group,
}
use aether_rl.Coordinator.Lifecycle.{to_failed}

abbrev pub is_train : Kind → Bool
is_train train = true
is_train eval = false

-- `runs r JOIN policies p ON p.policy_id = r.active_policy_id WHERE r.singleton = 1`
abbrev pub policy_of_run : Db → Option Run → Option Policy
policy_of_run db none = none
policy_of_run db (some r) = select policy_key r.active_policy_id db.policies

abbrev pub active_policy_row : Db → Option Policy
active_policy_row db = policy_of_run db db.run

-- `kind = 'train' AND active_version - policy_version > max_policy_lag`, over `JOIN policies`; the
-- difference may be negative.
abbrev pub lags : ℕ → ℕ → Option Policy → Bool
lags active_version max_policy_lag none = false
lags active_version max_policy_lag (some p) = ltb (p.policy_version + max_policy_lag) active_version

abbrev pub group_before : Group → Group → Bool
group_before x y =
    ltb x.sequence y.sequence || x.sequence == y.sequence && leb x.group_id y.group_id

unfoldable pub stale_groups : ℕ → ℕ → Db → List Group
stale_groups active_version max_policy_lag db = order_by group_before (
    keep
      (λ g.
        is_train g.kind
        && lags active_version max_policy_lag (select policy_key g.policy_id db.policies))
      db.groups)

-- `ORDER BY group_index, assignment_id`
abbrev pub index_before : Assignment → Assignment → Bool
index_before x y =
    ltb x.group_index y.group_index
    || x.group_index == y.group_index && leb x.assignment_id y.assignment_id

unfoldable pub unfinished : ℕ → Db → List Assignment
unfinished group db =
    order_by index_before
      (keep (λ a. a.group_id == group && not (is_terminal a.state)) db.assignments)

-- `INSERT OR IGNORE INTO assignment_cancellations`
abbrev pub add_cancellation : AssignmentCancellation → Db → Db
add_cancellation row db = record db {
  cancellations =
      if is_none (select cancellation_key row.assignment_id db.cancellations)
      then db.cancellations ++ row ∷ []
      else db.cancellations;
}

-- `INSERT OR IGNORE INTO lease_cancellations`, for a lease that is there
abbrev pub cancel_lease_rows : ℕ → ℕ → Option ℕ → List LeaseCancellation → List LeaseCancellation
cancel_lease_rows now assignment none rows = rows
cancel_lease_rows now assignment (some lease) rows =
    if is_none (select lease_cancellation_key lease rows)
    then rows
      ++ (record {
        lease_id = lease;
        assignment_id = assignment;
        reason = policy_stale;
        requested_at = now;
        delivered_at = none;
      })
        ∷ []
    else rows

abbrev pub cancel_lease : ℕ → ℕ → Option ℕ → Db → Db
cancel_lease now assignment lease db = record db {
  lease_cancellations = cancel_lease_rows now assignment lease db.lease_cancellations;
}

-- One round of the inner loop of `_cancel_stale_train_groups`.
unfoldable pub cancel_assignment : ℕ → Assignment → Tx Db Unit
cancel_assignment now a = do
  modify (
      add_cancellation (record {
        assignment_id = a.assignment_id;
        reason = policy_stale;
        requested_at = now;
        terminal = not (is_leased a.state);
      }))
  if is_leased a.state then modify (cancel_lease now a.assignment_id a.current_lease_id) else (do
    modify (set_assignment a.assignment_id to_failed)
    modify (close_cancellation a.assignment_id)
    insert_outcome_or_ignore (record {
      assignment_id = a.assignment_id;
      outcome = failure;
      lease_id = none;
      envelope_digest = none;
      completed_at = now;
    }))

unfoldable pub cancel_group : ℕ → Group → Tx Db Unit
unfolding cancel_assignment unfinished
cancel_group now g = do
  assignments ← gets (unfinished g.group_id)
  for_each assignments (cancel_assignment now)
  modify (recompute_group g.group_id)

unfoldable pub cancel_stale_train_groups : ℕ → ℕ → Tx Db Unit
unfolding stale_groups cancel_group
cancel_stale_train_groups max_policy_lag now = do
  active ← require type_error active_policy_row
  groups ← gets (stale_groups active.policy_version max_policy_lag)
  for_each groups (cancel_group now)

abbrev pub reconcile_with : ℕ → Option ℕ → Tx Db Unit
reconcile_with now none = pure tt
reconcile_with now (some lag) = cancel_stale_train_groups lag now

unfoldable pub reconcile_stale_work : ℕ → Tx Db Unit
reconcile_stale_work now = do
  settings ← require invalid_state (λ db. db.scheduler)
  reconcile_with now settings.max_policy_lag
