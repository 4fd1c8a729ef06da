-- ===== src/Coordinator/Renewal.antt =====
-- `create_lease`, `renew_lease` and `release_unoffered_lease` of coordinator/database.py.
use aether_rl.Prelude.{
  ℕ, ◌+◌, ◌-◌, max, Bool, true, false, Option, none, some, ◌&&◌, not, ◌==◌, ltb, leb, any, count,
  keep, holds_some, if◌then◌else◌,
}
use aether_rl.Tx.{
  Result, ok, err, value, invalid_state, incompatible_worker, capacity, conflict, integrity, Tx,
  ◌>>=◌, ◌>>◌, gets, require, guard, modify, pure, transaction,
}
use aether_rl.Table.{select}
use aether_rl.Coordinator.Schema.{
  Db, Assignment, Lease, LeaseCancellation, Reason, AssignmentState, deadline_exceeded, is_open,
  is_active, is_due,
}
use aether_rl.Coordinator.Rows.{
  session_key, lease_key, lease_cancellation_key, set_assignment, set_lease, deliver_cancellation,
}
use aether_rl.Coordinator.Lifecycle.{RetrySettings, expire_leases, terminalize_without_envelope}
use aether_rl.Coordinator.Stale.{reconcile_stale_work}
use aether_rl.Coordinator.Leases.{AssignmentLease, lease_of, find_assignment_row, capped, grant}

-- The public `expire_leases`.
unfoldable pub expire_all : RetrySettings → ℕ → Tx Db ℕ
expire_all cfg now = do reconcile_stale_work now; expire_leases cfg now

-- What `create_lease` finds: a lease, or that the deadline has just passed, which is committed before
-- it is raised.
pub data Creation : Type 0 where
  created : AssignmentLease → Creation
  deadline_passed : Creation

abbrev pub is_failed : AssignmentState → Bool
is_failed AssignmentState.failed = true
is_failed AssignmentState.succeeded = false
is_failed AssignmentState.pending = false
is_failed AssignmentState.retry_wait = false
is_failed AssignmentState.leased = false

-- The last part of `create_lease`: the capacity of the session, and the grant.
unfoldable pub create_granted : Assignment → ℕ → ℕ → ℕ → ℕ → ℕ → ℕ → Tx Db Creation
create_granted a slots worker session lease duration now = do
  active ← gets (λ db.
      count (λ l. l.worker_id == worker && l.worker_session_id == session && is_active l.state)
        db.leases)
  guard (ltb active slots) capacity
  l ← grant a worker session lease now duration
  pure (created l)

unfoldable pub create_passed : Assignment → ℕ → Tx Db Creation
create_passed a now = do terminalize_without_envelope a deadline_exceeded now; pure deadline_passed

-- The second transaction of `create_lease`.
unfoldable pub create_lease_body : ℕ → ℕ → ℕ → ℕ → ℕ → ℕ → Tx Db Creation
unfolding create_passed create_granted
create_lease_body assignment worker session lease duration now = do
  a ← find_assignment_row assignment
  guard (not (is_failed a.state && is_due a.deadline_at now)) invalid_state
  guard (is_open a.state && leb a.available_at now) invalid_state
  row ← require incompatible_worker (λ db. select session_key session db.sessions)
  guard (row.worker_id == worker) incompatible_worker
  guard (ltb a.attempt_count a.max_attempts) invalid_state
  if is_due a.deadline_at now
      then create_passed a now
      else create_granted a row.inference_slots worker session lease duration now

abbrev pub raise_passed : Result Creation × Db → Result AssignmentLease × Db
raise_passed (ok (created l), s) = (ok l, s)
raise_passed (ok deadline_passed, s) = (err invalid_state, s)
raise_passed (err e, s) = (err e, s)

abbrev pub after_expiry :
    (Db → Result AssignmentLease × Db) → Result ℕ × Db → Result AssignmentLease × Db
after_expiry next (ok n, s) = next s
after_expiry next (err e, s) = (err e, s)

-- `create_lease`: the expiry is a transaction of its own, which stays when the second one raises. The
-- clock is read twice.
unfoldable pub create_lease :
    RetrySettings → ℕ → ℕ → ℕ → ℕ → ℕ → ℕ → ℕ → Db → Result AssignmentLease × Db
unfolding create_lease_body expire_all
create_lease cfg assignment worker session lease duration now now' s =
    if ltb 0 duration
    then after_expiry
        (λ t.
          raise_passed
            (transaction (create_lease_body assignment worker session lease duration now') t))
        (transaction (expire_all cfg now) s)
    else (err value, s)

pub data Renewal : Type 0 where
  renewed : AssignmentLease → Renewal
  stopped : Reason → Renewal

-- The arguments of `renew_lease`.
pub record RenewRequest : Type 0 where
  pub lease_id : ℕ
  pub worker_id : ℕ
  pub worker_session_id : ℕ
  pub duration_seconds : ℕ
  pub expected_assignment_id : Option ℕ
  pub sent_at : Option ℕ
  pub acknowledge_cancellation : Bool

-- `sent_at is not None and last is not None and sent_at <= last`
abbrev pub is_stale_message : Option ℕ → Option ℕ → Bool
is_stale_message none last = false
is_stale_message (some sent) none = false
is_stale_message (some sent) (some last) = leb sent last

-- `COALESCE(?, last_renew_sent_at)`
abbrev pub coalesce : Option ℕ → Option ℕ → Option ℕ
coalesce none last = last
coalesce (some sent) last = some sent

abbrev pub to_renewed : ℕ → Option ℕ → Lease → Lease
to_renewed expiry sent l = record l {
  expires_at = expiry;
  last_renew_sent_at = coalesce sent l.last_renew_sent_at;
}

-- The expiry that a renewal asks for, capped by the assignment's deadline.
abbrev pub renewed_expiry : Option ℕ → ℕ → ℕ → ℕ → ℕ
renewed_expiry deadline expires_at now duration = capped deadline (max expires_at (now + duration))

abbrev pub renew_uncancelled : RenewRequest → ℕ → Lease → Option LeaseCancellation → Tx Db Renewal
renew_uncancelled r now l (some c) = do
  guard r.acknowledge_cancellation invalid_state
  modify (deliver_cancellation now r.lease_id)
  pure (stopped c.reason)
renew_uncancelled r now l none = do
  guard (not (is_stale_message r.sent_at l.last_renew_sent_at)) conflict
  a ← find_assignment_row l.assignment_id
  guard (not (is_due a.deadline_at now)) invalid_state
  let expiry = renewed_expiry a.deadline_at l.expires_at now r.duration_seconds
  guard (ltb l.issued_at expiry) integrity
  modify (set_lease r.lease_id (to_renewed expiry r.sent_at))
  pure (renewed (record (lease_of l a) { lease_id = r.lease_id; expires_at = expiry }))

-- `expected_assignment_id is not None and lease["assignment_id"] != expected_assignment_id`
abbrev pub is_misdirected : Option ℕ → Option Lease → Bool
is_misdirected none l = false
is_misdirected (some i) none = false
is_misdirected (some i) (some l) = not (l.assignment_id == i)

-- `renew_lease`
unfoldable pub renew_lease : RenewRequest → ℕ → Tx Db Renewal
renew_lease r now = do
  guard (ltb 0 r.duration_seconds) value
  reconcile_stale_work now
  found ← gets (λ db. select lease_key r.lease_id db.leases)
  guard (not (is_misdirected r.expected_assignment_id found)) conflict
  l ← require invalid_state (λ _. found)
  guard (is_active l.state && ltb now l.expires_at) invalid_state
  guard (l.worker_id == r.worker_id && l.worker_session_id == r.worker_session_id) conflict
  cancellation ← gets (λ db. select lease_cancellation_key r.lease_id db.lease_cancellations)
  renew_uncancelled r now l cancellation

-- `DELETE FROM lease_attempts WHERE lease_id = ?`. The foreign key
-- `(assignment_id, current_lease_id)` of `assignments` refers to the row, so the statement fails while
-- an assignment names the lease.
unfoldable pub delete_lease : ℕ → Tx Db Unit
delete_lease k = do
  referenced ← gets (λ db. any (λ a. holds_some (λ c. c == k) a.current_lease_id) db.assignments)
  guard (not referenced) integrity
  modify (λ db. record db { leases = keep (λ l. not (l.lease_id == k)) db.leases })

unfoldable pub release_current : ℕ → Lease → ℕ → Tx Db Unit
release_current k l now = do
  delete_lease k
  modify (
      set_assignment l.assignment_id (λ x. record x {
        state = AssignmentState.retry_wait;
        attempt_count = x.attempt_count - 1;
        current_lease_id = none;
        available_at = now;
      }))

abbrev pub release_active : ℕ → ℕ → Option Lease → Tx Db Unit
release_active k now none = pure tt
release_active k now (some l) =
    if is_active l.state
    then (do
      a ← find_assignment_row l.assignment_id
      if holds_some (λ c. c == k) a.current_lease_id then release_current k l now else pure tt)
    else pure tt

-- `release_unoffered_lease`
unfoldable pub release_unoffered_lease : ℕ → ℕ → Tx Db Unit
release_unoffered_lease k now = do
  l ← gets (λ db. select lease_key k db.leases)
  release_active k now l
