-- ===== src/Coordinator/Leases.antt =====
-- Granting and renewing leases: `lease_next_compatible`, `create_lease`, `renew_lease` and the queries
-- behind them, of coordinator/database.py.
use aether_rl.Prelude.{
  ℕ, ◌+◌, min, Bool, true, false, Option, none, some, List, [], ◌∷◌, ◌&&◌, ◌||◌, not, ◌==◌, ltb,
  leb, any, all, count, order_by, is_none, is_some, holds_some, if◌then◌else◌,
}
use aether_rl.Tx.{
  value, invalid_state, incompatible_worker, not_found, integrity, Tx, ◌>>=◌, ◌>>◌, gets, require,
  guard, modify, pure, raise,
}
use aether_rl.Table.{select, update}
use aether_rl.Coordinator.Schema.{
  Db, RolloutAssignment, Group, Assignment, Lease, LeaseCancellation, Request, RequestState,
  AssignmentState, LeaseState, is_open, is_active, is_due,
}
use aether_rl.Coordinator.Rows.{
  policy_key, session_key, group_key, assignment_key, lease_key, cancellation_key,
  lease_cancellation_key, request_key, set_assignment, insert_lease,
}
use aether_rl.Coordinator.Lifecycle.{RetrySettings, expire_leases}
use aether_rl.Coordinator.Stale.{cancel_stale_train_groups}

-- `AssignmentLease` of protocol.py.
pub record AssignmentLease : Type 0 where
  pub lease_id : ℕ
  pub attempt : ℕ
  pub worker_id : ℕ
  pub worker_session_id : ℕ
  pub issued_at : ℕ
  pub expires_at : ℕ
  pub assignment : RolloutAssignment

-- `AssignmentLease.validate_expiry`
unfoldable pub validate_expiry : AssignmentLease → Bool
validate_expiry l =
    ltb l.issued_at l.expires_at
    && leb l.assignment.created_at l.issued_at
    && not (holds_some (λ d. ltb d l.expires_at) l.assignment.deadline_at)

-- `LeaseRequest` of protocol.py.
pub record LeaseRequest : Type 0 where
  pub request_id : ℕ
  pub worker_id : ℕ
  pub worker_session_id : ℕ
  pub sent_at : ℕ
  pub loaded_policy_ids : List ℕ
  pub available_slots : ℕ

pub data Disposition : Type 0 where
  pending no_work : Disposition
  leased : AssignmentLease → Disposition

abbrev pub lease_of : Lease → Assignment → AssignmentLease
lease_of l a = record {
  lease_id = l.lease_id;
  attempt = l.attempt;
  worker_id = l.worker_id;
  worker_session_id = l.worker_session_id;
  issued_at = l.issued_at;
  expires_at = l.expires_at;
  assignment = a.assignment_json;
}

-- `_assignment`
abbrev pub find_assignment_row : ℕ → Tx Db Assignment
find_assignment_row i = require not_found (λ db. select assignment_key i db.assignments)

-- `_assignment_lease`
unfoldable pub assignment_lease : ℕ → Tx Db AssignmentLease
assignment_lease k = do
  l ← require invalid_state (λ db. select lease_key k db.leases)
  a ← require invalid_state (λ db. select assignment_key l.assignment_id db.assignments)
  pure (lease_of l a)

-- `_lease_request_disposition`; a leased request names its lease by a CHECK of the table.
abbrev pub disposition_of : RequestState → Option ℕ → Tx Db Disposition
disposition_of RequestState.pending lease = pure pending
disposition_of RequestState.no_work lease = pure no_work
disposition_of RequestState.leased none = raise invalid_state
disposition_of RequestState.leased (some k) = do l ← assignment_lease k; pure (leased l)

unfoldable pub lease_request_disposition : Request → Tx Db Disposition
unfolding assignment_lease
lease_request_disposition r = disposition_of r.state r.lease_id

abbrev pub mem : ℕ → List ℕ → Bool
mem x xs = any (λ y. x == y) xs

-- `_validate_policy_ids`
unfoldable pub validate_policy_ids : List ℕ → Tx Db Unit
validate_policy_ids ids = do
  known ← gets (λ db. all (λ i. is_some (select policy_key i db.policies)) ids)
  guard known incompatible_worker

-- `deadline_at IS NULL OR deadline_at > ?`, of the row that a join finds
abbrev pub assignment_in_time : ℕ → Option Assignment → Bool
assignment_in_time now none = false
assignment_in_time now (some a) = not (is_due a.deadline_at now)

-- `c.lease_id IS NULL OR c.delivered_at IS NULL`
abbrev pub undelivered : Option LeaseCancellation → Bool
undelivered none = true
undelivered (some c) = is_none c.delivered_at

-- The leases that fill a worker session's capacity.
unfoldable pub active_count : ℕ → ℕ → ℕ → Db → ℕ
active_count worker session now db =
    count
      (λ l.
        l.worker_id == worker
        && l.worker_session_id == session
        && is_active l.state
        && ltb now l.expires_at
        && assignment_in_time now (select assignment_key l.assignment_id db.assignments)
        && undelivered (select lease_cancellation_key l.lease_id db.lease_cancellations))
      db.leases

pub record Candidate : Type 0 where
  pub sequence : ℕ
  pub assignment : Assignment

-- The WHERE clause of the candidate query.
unfoldable pub is_schedulable : ℕ → Db → Assignment → Bool
is_schedulable now db a =
    is_open a.state
    && leb a.available_at now
    && not (is_due a.deadline_at now)
    && is_none (select cancellation_key a.assignment_id db.cancellations)

abbrev pub candidate_before : Candidate → Candidate → Bool
candidate_before x y =
    ltb x.sequence y.sequence
    || x.sequence == y.sequence
      && (ltb x.assignment.group_index y.assignment.group_index
          || x.assignment.group_index == y.assignment.group_index
            && leb x.assignment.assignment_id y.assignment.assignment_id)

abbrev pub candidate_row : ℕ → Db → Assignment → List Candidate → Option Group → List Candidate
candidate_row now db a rest none = rest
candidate_row now db a rest (some g) =
    if is_schedulable now db a
    then (record { sequence = g.sequence; assignment = a }) ∷ rest
    else rest

abbrev pub candidate_join : ℕ → Db → List Assignment → List Candidate
candidate_join now db [] = []
candidate_join now db (a ∷ t) =
    candidate_row now db a (candidate_join now db t) (select group_key a.group_id db.groups)

unfoldable pub candidates : ℕ → Db → List Candidate
unfolding is_schedulable
candidates now db = order_by candidate_before (candidate_join now db db.assignments)

-- `next((c for c in candidates if c["policy_id"] in loaded), oldest)`
abbrev pub first_loaded : List ℕ → List Candidate → Candidate → Candidate
first_loaded loaded [] oldest = oldest
first_loaded loaded (c ∷ cs) oldest =
    if mem c.assignment.policy_id loaded then c else first_loaded loaded cs oldest

-- The oldest work, unless it is recent and the worker has another policy loaded that has work.
unfoldable pub choose : ℕ → ℕ → List ℕ → List Candidate → Option Candidate
choose now preference loaded [] = none
choose now preference loaded (oldest ∷ cs) = some (
    if ltb now (oldest.assignment.available_at + preference)
    then first_loaded loaded (oldest ∷ cs) oldest
    else oldest)

-- `min(now + duration, deadline) if deadline is not None else now + duration`
abbrev pub capped : Option ℕ → ℕ → ℕ
capped none expiry = expiry
capped (some d) expiry = min expiry d

-- `state = 'leased', attempt_count = ?, current_lease_id = ?`
abbrev pub to_leased : ℕ → ℕ → Assignment → Assignment
to_leased attempt lease a = record a {
  state = AssignmentState.leased;
  attempt_count = attempt;
  current_lease_id = some lease;
}

abbrev pub new_lease : Assignment → ℕ → ℕ → ℕ → ℕ → ℕ → Lease
new_lease a worker session lease now duration = record {
  lease_id = lease;
  assignment_id = a.assignment_id;
  attempt = a.attempt_count + 1;
  worker_id = worker;
  worker_session_id = session;
  issued_at = now;
  expires_at = capped a.deadline_at (now + duration);
  state = LeaseState.active;
  last_renew_sent_at = none;
}

-- The two statements that hand an assignment to a worker session.
unfoldable pub grant : Assignment → ℕ → ℕ → ℕ → ℕ → ℕ → Tx Db AssignmentLease
grant a worker session lease now duration = do
  insert_lease (new_lease a worker session lease now duration)
  modify (set_assignment a.assignment_id (to_leased (a.attempt_count + 1) lease))
  pure (lease_of (new_lease a worker session lease now duration) a)

-- `UPDATE lease_requests SET state = 'leased' … AND state = 'pending'`, with the table's CHECK on
-- `completed_at`.
abbrev pub to_answered : ℕ → ℕ → Request → Request
to_answered lease now r = record r {
  state = RequestState.leased;
  lease_id = some lease;
  completed_at = some now;
}

abbrev pub answer_request : Request → ℕ → ℕ → Tx Db Unit
answer_request r lease now = do
  guard (leb r.created_at now) integrity
  modify (λ db. record db {
    requests = update request_key r.request_id (to_answered lease now) db.requests;
  })

abbrev pub lease_choice :
    LeaseRequest → Request → ℕ → ℕ → ℕ → Option Candidate → Tx Db (Option AssignmentLease)
lease_choice req row now duration lease none = pure none
lease_choice req row now duration lease (some c) = do
  l ← grant c.assignment req.worker_id req.worker_session_id lease now duration
  answer_request row lease now
  pure (some l)

-- The last part of `lease_next_compatible`: the choice, for a worker that has capacity.
unfoldable pub lease_chosen :
    LeaseRequest → Request → ℕ → ℕ → ℕ → ℕ → Tx Db (Option AssignmentLease)
unfolding choose candidates
lease_chosen req row now duration lease preference = do
  rows ← gets (candidates now)
  lease_choice req row now duration lease (choose now preference req.loaded_policy_ids rows)

-- `lease_next_compatible` for a request that is still pending; `lease` is the new identifier.
unfoldable pub lease_pending :
    RetrySettings → LeaseRequest → Request → ℕ → ℕ → ℕ → Tx Db (Option AssignmentLease)
unfolding lease_chosen
lease_pending cfg req row now duration lease = do
  expire_leases cfg now
  session ← require incompatible_worker (λ db. select session_key req.worker_session_id db.sessions)
  guard (session.worker_id == req.worker_id) incompatible_worker
  validate_policy_ids req.loaded_policy_ids
  settings ← require invalid_state (λ db. db.scheduler)
  lag ← require invalid_state (λ _. settings.max_policy_lag)
  preference ← require invalid_state (λ _. settings.loaded_policy_preference_seconds)
  cancel_stale_train_groups lag now
  active ← gets (active_count req.worker_id req.worker_session_id now)
  if leb session.inference_slots active
      then pure none
      else lease_chosen req row now duration lease preference

abbrev pub lease_by_disposition :
    RetrySettings
    → LeaseRequest
    → Request
    → ℕ
    → ℕ
    → ℕ
    → Disposition
    → Tx Db (Option AssignmentLease)
lease_by_disposition cfg req row now duration lease (leased l) = pure (some l)
lease_by_disposition cfg req row now duration lease no_work = pure none
lease_by_disposition cfg req row now duration lease pending =
    lease_pending cfg req row now duration lease

-- `lease_next_compatible`
unfoldable pub lease_next_compatible :
    RetrySettings → LeaseRequest → ℕ → ℕ → ℕ → Tx Db (Option AssignmentLease)
unfolding lease_pending
lease_next_compatible cfg req now duration lease = do
  guard (ltb 0 duration) value
  row ← require invalid_state (λ db. select request_key req.request_id db.requests)
  disposition ← lease_request_disposition row
  lease_by_disposition cfg req row now duration lease disposition
