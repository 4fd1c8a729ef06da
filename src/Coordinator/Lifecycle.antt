-- ===== src/Coordinator/Lifecycle.antt =====
-- How an assignment leaves its lease: `_retry_or_terminal`, `_terminalize_without_envelope`,
-- `_expire_leases` and `_recompute_groups` of coordinator/database.py.
use aether_rl.Prelude.{
  ℕ, zero, suc, ◌+◌, ◌*◌, ◌/◌, ◌^◌, min, Bool, true, false, Option, none, some, List, [], ◌∷◌, ◌&&◌,
  ◌||◌, not, ◌==◌, ltb, leb, length, keep, map, order_by, is_some, holds_some, if◌then◌else◌,
}
use aether_rl.Tx.{overflow, Tx, ◌>>=◌, ◌>>◌, gets, guard, modify, pure, for_each}
use aether_rl.Table.{select}
use aether_rl.Coordinator.Schema.{
  Db, Assignment, Lease, AssignmentState, LeaseState, Outcome, retry_wait, failure,
  attempts_exhausted, deadline_exceeded, is_open, is_active, is_due,
}
use aether_rl.Coordinator.Rows.{
  assignment_key, lease_cancellation_key, set_assignment, set_lease, close_cancellation,
  insert_outcome, insert_outcome_or_ignore, recompute_group,
}

-- What a retry reads of a `FailureEnvelope`.
pub record FailureReport : Type 0 where
  pub lease_id : ℕ
  pub retryable : Bool
  pub digest : ℕ

-- The retry settings of `CoordinatorRepository.__init__`.
pub record RetrySettings : Type 0 where
  pub retry_base_seconds : ℕ
  pub retry_max_seconds : ℕ

-- `retry_base_seconds * 2 ** (n - 1)`: `2 ** -1` is a half, and the clock's unit divides half the base.
abbrev pub scaled_base : ℕ → ℕ → ℕ
scaled_base base zero = base / 2
scaled_base base (suc n) = base * 2 ^ n

-- The float times the integer raises `OverflowError` where the integer, `2 ** (attempt_count - 1)`, is
-- `2 ** 1024` or more.
abbrev pub delay_overflows : Assignment → Bool
delay_overflows a = ltb 1024 a.attempt_count

-- The delay, where it does not overflow.
unfoldable pub retry_delay : RetrySettings → Assignment → ℕ
retry_delay cfg a = min cfg.retry_max_seconds (scaled_base cfg.retry_base_seconds a.attempt_count)

abbrev pub retryable_report : Option FailureReport → Bool
retryable_report none = true
retryable_report (some e) = e.retryable

unfoldable pub can_retry : RetrySettings → Assignment → ℕ → Option FailureReport → Bool
unfolding retry_delay
can_retry cfg a now envelope =
    retryable_report envelope
    && ltb a.attempt_count a.max_attempts
    && not (holds_some (λ d. leb d (now + retry_delay cfg a)) a.deadline_at)

unfoldable pub terminal_outcome : RetrySettings → Assignment → ℕ → Option FailureReport → Outcome
unfolding retry_delay
terminal_outcome cfg a now envelope =
    if leb a.max_attempts a.attempt_count
    then attempts_exhausted
    else if not (retryable_report envelope)
    then failure
    else if holds_some (λ d. leb d (now + retry_delay cfg a)) a.deadline_at
    then deadline_exceeded
    else attempts_exhausted

-- `state = 'retry_wait', available_at = ?, current_lease_id = NULL`
abbrev pub to_retry : ℕ → Assignment → Assignment
to_retry at a = record a { state = retry_wait; available_at = at; current_lease_id = none }

-- `state = 'failed', current_lease_id = NULL`
abbrev pub to_failed : Assignment → Assignment
to_failed a = record a { state = AssignmentState.failed; current_lease_id = none }

abbrev pub report_lease : Option FailureReport → Option ℕ → Option ℕ
report_lease none lease_id = lease_id
report_lease (some e) lease_id = some e.lease_id

abbrev pub report_digest : Option FailureReport → Option ℕ
report_digest none = none
report_digest (some e) = some e.digest

abbrev pub retry_or_end :
    RetrySettings → Assignment → ℕ → Option FailureReport → Option ℕ → Tx Db Bool
retry_or_end cfg a now envelope lease_id =
    if can_retry cfg a now envelope
    then (do
      modify (set_assignment a.assignment_id (to_retry (now + retry_delay cfg a)))
      pure false)
    else (do
      modify (set_assignment a.assignment_id to_failed)
      insert_outcome (record {
        assignment_id = a.assignment_id;
        outcome = terminal_outcome cfg a now envelope;
        lease_id = report_lease envelope lease_id;
        envelope_digest = report_digest envelope;
        completed_at = now;
      })
      pure true)

-- `_retry_or_terminal`: the delay is computed first.
unfoldable pub retry_or_terminal :
    RetrySettings → Assignment → ℕ → Option FailureReport → Option ℕ → Tx Db Bool
retry_or_terminal cfg a now envelope lease_id = do
  guard (not (delay_overflows a)) overflow
  retry_or_end cfg a now envelope lease_id

unfoldable pub terminalize_without_envelope : Assignment → Outcome → ℕ → Tx Db Unit
terminalize_without_envelope a outcome now = do
  modify (set_assignment a.assignment_id to_failed)
  insert_outcome (record {
    assignment_id = a.assignment_id;
    outcome = outcome;
    lease_id = none;
    envelope_digest = none;
    completed_at = now;
  })
  modify (recompute_group a.group_id)

-- A row of the join that `_expire_leases` reads.
pub record ExpiredLease : Type 0 where
  pub lease_id : ℕ
  pub expires_at : ℕ
  pub assignment : Assignment
  pub cancelled : Bool

abbrev pub is_expired : ℕ → Lease → Assignment → Bool
is_expired now l a = is_active l.state && (leb l.expires_at now || is_due a.deadline_at now)

abbrev pub expired_row : Db → Lease → Assignment → ExpiredLease
expired_row db l a = record {
  lease_id = l.lease_id;
  expires_at = l.expires_at;
  assignment = a;
  cancelled = is_some (select lease_cancellation_key l.lease_id db.lease_cancellations);
}

abbrev pub join_row : ℕ → Db → Lease → List ExpiredLease → Option Assignment → List ExpiredLease
join_row now db l rest none = rest
join_row now db l rest (some a) = if is_expired now l a then expired_row db l a ∷ rest else rest

abbrev pub expired_join : ℕ → Db → List Lease → List ExpiredLease
expired_join now db [] = []
expired_join now db (l ∷ ls) =
    join_row now db l (expired_join now db ls)
      (select assignment_key l.assignment_id db.assignments)

-- `ORDER BY l.expires_at, l.assignment_id`
abbrev pub expires_before : ExpiredLease → ExpiredLease → Bool
expires_before x y =
    ltb x.expires_at y.expires_at
    || x.expires_at == y.expires_at && leb x.assignment.assignment_id y.assignment.assignment_id

unfoldable pub expired_leases : ℕ → Db → List ExpiredLease
expired_leases now db = order_by expires_before (expired_join now db db.leases)

-- `ORDER BY deadline_at, assignment_id`
abbrev pub deadline_value : Option ℕ → ℕ
deadline_value none = 0
deadline_value (some d) = d

abbrev pub due_before : Assignment → Assignment → Bool
due_before x y =
    ltb (deadline_value x.deadline_at) (deadline_value y.deadline_at)
    || deadline_value x.deadline_at == deadline_value y.deadline_at
      && leb x.assignment_id y.assignment_id

unfoldable pub overdue_assignments : ℕ → Db → List Assignment
overdue_assignments now db =
    order_by due_before (keep (λ a. is_open a.state && is_due a.deadline_at now) db.assignments)

-- One round of the first loop of `_expire_leases`.
unfoldable pub expire_lease : RetrySettings → ℕ → ExpiredLease → Tx Db Unit
expire_lease cfg now row = do
  modify (set_lease row.lease_id (λ l. record l { state = LeaseState.expired }))
  if row.cancelled
      then (do
        modify (set_assignment row.assignment.assignment_id to_failed)
        modify (close_cancellation row.assignment.assignment_id)
        insert_outcome_or_ignore (record {
          assignment_id = row.assignment.assignment_id;
          outcome = failure;
          lease_id = some row.lease_id;
          envelope_digest = none;
          completed_at = now;
        }))
      else (do retry_or_terminal cfg row.assignment now none (some row.lease_id); pure tt)

unfoldable pub recompute_all : List ℕ → Db → Db
recompute_all [] db = db
recompute_all (g ∷ gs) db = recompute_all gs (recompute_group g db)

-- `SELECT group_id FROM rollout_groups ORDER BY group_id`
unfoldable pub recompute_groups : Db → Db
unfolding recompute_all
recompute_groups db = recompute_all (order_by leb (map (λ g. g.group_id) db.groups)) db

-- `_expire_leases`
unfoldable pub expire_leases : RetrySettings → ℕ → Tx Db ℕ
expire_leases cfg now = do
  leases ← gets (expired_leases now)
  for_each leases (expire_lease cfg now)
  overdue ← gets (overdue_assignments now)
  for_each overdue (λ a. terminalize_without_envelope a deadline_exceeded now)
  modify recompute_groups
  pure (length leases)
