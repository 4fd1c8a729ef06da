-- ===== src/Coordinator/Workers.antt =====
-- Worker sessions: `register_worker`, `record_heartbeat`, `validate_lease_request` and
-- `mark_lease_request_no_work` of coordinator/database.py.
use aether_rl.Prelude.{
  ℕ, ◌+◌, Bool, true, false, Option, none, some, List, [], ◌∷◌, ◌++◌, ◌&&◌, not, ◌==◌, ltb, leb,
  all, is_some, if◌then◌else◌,
}
use aether_rl.Tx.{
  value, invalid_state, incompatible_worker, capacity, conflict, integrity, Tx, ◌>>=◌, ◌>>◌, gets,
  require, guard, modify, pure, when,
}
use aether_rl.Table.{select, update}
use aether_rl.Coordinator.Schema.{
  Db, Session, Lease, Assignment, Request, RequestState, is_active, is_leased, is_due,
}
use aether_rl.Coordinator.Rows.{
  session_key, lease_key, assignment_key, lease_cancellation_key, request_key, set_lease,
  deliver_cancellation,
}
use aether_rl.Coordinator.Stale.{reconcile_stale_work}
use aether_rl.Coordinator.Leases.{
  LeaseRequest, Disposition, pending, lease_request_disposition, validate_policy_ids, active_count,
  mem,
}
use aether_rl.Coordinator.Renewal.{is_stale_message, renewed_expiry}

-- `WorkerRegistration` of protocol.py, with the digest of its capabilities' canonical text.
pub record Registration : Type 0 where
  pub worker_id : ℕ
  pub worker_session_id : ℕ
  pub base_model : ℕ
  pub inference_slots : ℕ
  pub capabilities_json : ℕ

-- Whether the session was new.
abbrev pub register_by_row : Registration → ℕ → Option Session → Tx Db Bool
register_by_row r now (some x) = do
  guard (x.worker_id == r.worker_id && x.capabilities_json == r.capabilities_json) conflict
  pure false
register_by_row r now none = do
  modify (λ db. record db {
    workers = if mem r.worker_id db.workers then db.workers else db.workers ++ r.worker_id ∷ [];
  })
  modify (λ db. record db {
    sessions =
        db.sessions
        ++ (record {
          worker_session_id = r.worker_session_id;
          worker_id = r.worker_id;
          base_model = r.base_model;
          inference_slots = r.inference_slots;
          capabilities_json = r.capabilities_json;
          last_seen_at = now;
          last_heartbeat_sent_at = none;
          last_lease_request_sent_at = none;
        })
          ∷ [];
  })
  pure true

-- `register_worker`
unfoldable pub register_worker : Registration → ℕ → Tx Db Bool
register_worker r now = do
  run ← require invalid_state (λ db. db.run)
  guard (r.base_model == run.base_model_json) incompatible_worker
  existing ← gets (λ db. select session_key r.worker_session_id db.sessions)
  register_by_row r now existing

-- `WorkerHeartbeat` of protocol.py.
pub record Heartbeat : Type 0 where
  pub worker_id : ℕ
  pub worker_session_id : ℕ
  pub sent_at : ℕ
  pub active_lease_ids : List ℕ
  pub loaded_policy_ids : List ℕ

pub record LeaseRenewal : Type 0 where
  pub assignment_id : ℕ
  pub lease_id : ℕ
  pub expires_at : ℕ

-- What a heartbeat answers for one lease.
-- The lists `renewals` and `stop_ids`.
abbrev pub Answers : Type 0
Answers = List LeaseRenewal × List ℕ

-- `renewals.append(…)` and `stop_ids.append(…)`
abbrev pub append_renewal : LeaseRenewal → Answers → Answers
append_renewal r (renewals, stop_ids) = (renewals ++ r ∷ [], stop_ids)

abbrev pub append_stop : ℕ → Answers → Answers
append_stop k (renewals, stop_ids) = (renewals, stop_ids ++ k ∷ [])

-- A lease that the heartbeat names and that another session owns is refused.
abbrev pub is_owned_by : Heartbeat → Option Lease → Bool
is_owned_by h none = true
is_owned_by h (some l) = l.worker_id == h.worker_id && l.worker_session_id == h.worker_session_id

-- The lease and its assignment go on: the negation of the six tests of the loop.
abbrev pub is_live : ℕ → Bool → Lease → Assignment → Bool
is_live now cancelled l a =
    not cancelled
    && is_active l.state
    && is_leased a.state
    && ltb now l.expires_at
    && not (is_due a.deadline_at now)

-- The row of the join is what the query before the loop read, `db`. A lease that does not go on is
-- appended to `stop_ids`, and the round is over.
abbrev pub beat_joined : Db → ℕ → ℕ → ℕ → Bool → Answers → Lease → Option Assignment → Tx Db Answers
beat_joined db now duration k cancelled as' l none = pure (append_stop k as')
beat_joined db now duration k cancelled as' l (some a) =
    if is_live now cancelled l a
    then (do
      let expiry = renewed_expiry a.deadline_at l.expires_at now duration
      guard (ltb l.issued_at expiry) integrity
      modify (set_lease k (λ x. record x { expires_at = expiry }))
      pure (
          append_renewal
            (record { assignment_id = l.assignment_id; lease_id = k; expires_at = expiry }) as'))
    else pure (append_stop k as')

abbrev pub beat_row : Db → ℕ → ℕ → ℕ → Bool → Answers → Option Lease → Tx Db Answers
beat_row db now duration k cancelled as' none = pure (append_stop k as')
beat_row db now duration k cancelled as' (some l) =
    beat_joined db now duration k cancelled as' l
      (select assignment_key l.assignment_id db.assignments)

-- One round of the loop of `record_heartbeat`; `db` is what the queries before it read.
unfoldable pub beat_lease : Db → ℕ → ℕ → ℕ → Answers → Tx Db Answers
beat_lease db now duration k as' = do
  let cancelled = is_some (select lease_cancellation_key k db.lease_cancellations)
  when cancelled (modify (deliver_cancellation now k))
  beat_row db now duration k cancelled as' (select lease_key k db.leases)

unfoldable pub beat_leases : Db → ℕ → ℕ → List ℕ → Answers → Tx Db Answers
unfolding beat_lease
beat_leases db now duration [] as' = pure as'
beat_leases db now duration (k ∷ ks) as' = do
  later ← beat_lease db now duration k as'
  beat_leases db now duration ks later

-- `record_heartbeat`, which returns the two lists
unfoldable pub record_heartbeat : Heartbeat → ℕ → ℕ → Tx Db Answers
unfolding beat_leases
record_heartbeat h now duration = do
  guard (ltb 0 duration) value
  reconcile_stale_work now
  session ← require incompatible_worker (λ db. select session_key h.worker_session_id db.sessions)
  guard (session.worker_id == h.worker_id) incompatible_worker
  guard (not (is_stale_message (some h.sent_at) session.last_heartbeat_sent_at)) conflict
  validate_policy_ids h.loaded_policy_ids
  db ← gets (λ db. db)
  guard (all (λ k. is_owned_by h (select lease_key k db.leases)) h.active_lease_ids) conflict
  answers ← beat_leases db now duration h.active_lease_ids ([], [])
  modify (λ t. record t {
    sessions =
        update session_key h.worker_session_id
          (λ s. record s { last_seen_at = now; last_heartbeat_sent_at = some h.sent_at })
          t.sessions;
  })
  pure answers

abbrev pub new_request : LeaseRequest → ℕ → ℕ → Request
new_request r digest now = record {
  request_id = r.request_id;
  worker_session_id = r.worker_session_id;
  request_digest = digest;
  state = RequestState.pending;
  lease_id = none;
  created_at = now;
  completed_at = none;
}

abbrev pub validate_by_row : LeaseRequest → ℕ → ℕ → Option Request → Tx Db Disposition
validate_by_row r digest now (some x) = do
  guard (x.request_digest == digest) conflict
  lease_request_disposition x
validate_by_row r digest now none = do
  session ← require incompatible_worker (λ db. select session_key r.worker_session_id db.sessions)
  guard (session.worker_id == r.worker_id) incompatible_worker
  guard (not (is_stale_message (some r.sent_at) session.last_lease_request_sent_at)) conflict
  validate_policy_ids r.loaded_policy_ids
  active ← gets (active_count r.worker_id r.worker_session_id now)
  guard (leb (r.available_slots + active) session.inference_slots) capacity
  modify (λ db. record db { requests = db.requests ++ new_request r digest now ∷ [] })
  modify (λ db. record db {
    sessions =
        update session_key r.worker_session_id
          (λ s. record s { last_lease_request_sent_at = some r.sent_at }) db.sessions;
  })
  pure pending

-- `validate_lease_request`; `digest` is the SHA-256 of the request's canonical text.
unfoldable pub validate_lease_request : LeaseRequest → ℕ → ℕ → Tx Db Disposition
validate_lease_request r digest now = do
  existing ← gets (λ db. select request_key r.request_id db.requests)
  validate_by_row r digest now existing

abbrev pub is_pending : RequestState → Bool
is_pending RequestState.pending = true
is_pending RequestState.no_work = false
is_pending RequestState.leased = false

abbrev pub to_no_work : ℕ → Request → Request
to_no_work now r = record r { state = RequestState.no_work; completed_at = some now }

-- `mark_lease_request_no_work`
unfoldable pub mark_lease_request_no_work : ℕ → ℕ → Tx Db Disposition
mark_lease_request_no_work k now = do
  row ← require invalid_state (λ db. select request_key k db.requests)
  when (is_pending row.state) (
      guard (leb row.created_at now) integrity
      >> modify (λ db. record db { requests = update request_key k (to_no_work now) db.requests }))
  again ← require invalid_state (λ db. select request_key k db.requests)
  lease_request_disposition again
