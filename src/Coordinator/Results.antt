-- ===== src/Coordinator/Results.antt =====
-- Submissions of workers: `accept_result`, `accept_failure`, `claim_pending_results` and
-- `mark_result_processed` of coordinator/database.py.
use aether_rl.Prelude.{
  ℕ, Bool, true, false, Option, none, some, List, [], ◌∷◌, ◌++◌, ◌&&◌, ◌||◌, not, ◌==◌, ltb, leb,
  any, keep, take, order_by, is_none, holds_some,
}
use aether_rl.Tx.{
  Result, ok, err, transaction, value, invalid_state, conflict, integrity, Tx, ◌>>=◌, ◌>>◌, gets,
  require, guard, modify, pure, for_each,
}
use aether_rl.Table.{select, update}
use aether_rl.Coordinator.Schema.{
  Db, Assignment, Lease, AcceptedResult, Failure, AssignmentOutcome, AssignmentState, LeaseState,
  Outcome, ProcessingState, result, failure, is_active, is_leased, is_due, LeaseCancellation,
}
use aether_rl.Coordinator.Rows.{
  lease_key, result_key, failure_key, outcome_key, lease_cancellation_key, set_assignment,
  set_lease, close_cancellation, insert_outcome, recompute_group,
}
use aether_rl.Coordinator.Lifecycle.{RetrySettings, retry_or_terminal, to_failed}
use aether_rl.Coordinator.Leases.{find_assignment_row}

-- What both envelopes of protocol.py name; `digest` is the SHA-256 of their canonical bytes.
pub record Envelope : Type 0 where
  pub assignment_id : ℕ
  pub attempt : ℕ
  pub lease_id : ℕ
  pub worker_id : ℕ
  pub worker_session_id : ℕ
  pub digest : ℕ

-- `ResultEnvelope`: `size_bytes` is the length of its bytes.
pub record ResultEnvelope : Type 0 where
  pub envelope : Envelope
  pub open envelope use *
  pub requested_policy_id : ℕ
  pub requested_policy_digest : ℕ
  pub size_bytes : ℕ

pub record FailureEnvelope : Type 0 where
  pub envelope : Envelope
  pub open envelope use *
  pub retryable : Bool

pub record AcceptanceRecord : Type 0 where
  pub assignment_id : ℕ
  pub envelope_digest : ℕ
  pub duplicate : Bool
  pub terminal : Bool

-- The record that `accept_result` returns.
abbrev pub result_record : ℕ → ℕ → Bool → AcceptanceRecord
result_record i digest duplicate = record {
  assignment_id = i;
  envelope_digest = digest;
  duplicate = duplicate;
  terminal = true;
}

-- `_existing_terminal`
abbrev pub existing_result : ℕ → ℕ → ℕ → Option AcceptedResult → Tx Db (Option AcceptanceRecord)
existing_result i lease digest none = do
  outcome ← gets (λ db. select outcome_key i db.outcomes)
  guard (is_none outcome) conflict
  pure none
existing_result i lease digest (some r) = do
  guard (r.lease_id == lease && r.envelope_digest == digest) conflict
  pure (some (result_record i digest true))

unfoldable pub existing_terminal : ℕ → ℕ → ℕ → Tx Db (Option AcceptanceRecord)
existing_terminal i lease digest = do
  r ← gets (λ db. select result_key i db.results)
  existing_result i lease digest r

-- `_existing_failure`
abbrev pub existing_report : Envelope → Option Failure → Tx Db (Option AcceptanceRecord)
existing_report e none = pure none
existing_report e (some f) = do
  guard (f.assignment_id == e.assignment_id && f.envelope_digest == e.digest) conflict
  pure (
      some (record {
        assignment_id = e.assignment_id;
        envelope_digest = e.digest;
        duplicate = true;
        terminal = f.terminal;
      }))

unfoldable pub existing_failure : Envelope → Tx Db (Option AcceptanceRecord)
existing_failure e = do
  f ← gets (λ db. select failure_key e.lease_id db.failures)
  existing_report e f

-- The test of `_validate_active_envelope` on the two rows.
unfoldable pub matches_lease : Envelope → Assignment → Lease → Bool
matches_lease e a l =
    l.assignment_id == e.assignment_id
    && l.attempt == e.attempt
    && l.worker_id == e.worker_id
    && l.worker_session_id == e.worker_session_id
    && is_active l.state
    && is_leased a.state
    && holds_some (λ c. c == e.lease_id) a.current_lease_id

-- `_validate_active_envelope`
unfoldable pub validate_active_envelope : Envelope → ℕ → Tx Db Assignment
unfolding matches_lease
validate_active_envelope e now = do
  a ← find_assignment_row e.assignment_id
  l ← require conflict (λ db. select lease_key e.lease_id db.leases)
  guard (matches_lease e a l) conflict
  guard (ltb now l.expires_at) invalid_state
  guard (not (is_due a.deadline_at now)) invalid_state
  pure a

-- The PRIMARY KEY and UNIQUE constraints of `accepted_results`.
unfoldable pub insert_result : AcceptedResult → Tx Db Unit
insert_result row = do
  taken ← gets (λ db.
      any
        (λ r.
          r.assignment_id == row.assignment_id
          || r.lease_id == row.lease_id
          || r.envelope_digest == row.envelope_digest
          || r.artifact_path == row.artifact_path)
        db.results)
  guard (not taken && ltb 0 row.size_bytes) integrity
  modify (λ db. record db { results = db.results ++ row ∷ [] })

-- `UPDATE lease_attempts SET state = 'succeeded'`, and so for the assignment
abbrev pub succeed : Lease → Lease
succeed l = record l { state = LeaseState.succeeded }

abbrev pub to_succeeded : Assignment → Assignment
to_succeeded a = record a { state = AssignmentState.succeeded; current_lease_id = none }

abbrev pub fail_lease : Lease → Lease
fail_lease l = record l { state = LeaseState.failed }

abbrev pub outcome_row : Envelope → Outcome → ℕ → AssignmentOutcome
outcome_row e o now = record {
  assignment_id = e.assignment_id;
  outcome = o;
  lease_id = some e.lease_id;
  envelope_digest = some e.digest;
  completed_at = now;
}

abbrev pub result_row : ResultEnvelope → ℕ → ℕ → AcceptedResult
result_row e path now = record {
  assignment_id = e.assignment_id;
  lease_id = e.lease_id;
  envelope_digest = e.digest;
  artifact_path = path;
  size_bytes = e.size_bytes;
  accepted_at = now;
  processing_state = ProcessingState.pending;
}

-- The statements of `accept_result` for a valid envelope.
unfoldable pub commit_result : ResultEnvelope → ℕ → Assignment → ℕ → Tx Db AcceptanceRecord
unfolding insert_result
commit_result e path a now = do
  insert_result (result_row e path now)
  insert_outcome (outcome_row e.envelope result now)
  modify (set_lease e.lease_id succeed)
  modify (set_assignment e.assignment_id to_succeeded)
  modify (close_cancellation e.assignment_id)
  modify (recompute_group a.group_id)
  pure (result_record e.assignment_id e.digest false)

-- The tests of `accept_result` on an envelope that is no duplicate.
unfoldable pub validate_result : ResultEnvelope → ℕ → Tx Db Assignment
unfolding validate_active_envelope
validate_result e now = do
  a ← validate_active_envelope e.envelope now
  guard (e.requested_policy_id == a.policy_id) conflict
  guard (e.requested_policy_digest == a.policy_manifest_digest) conflict
  pure a

abbrev pub accept_new : ResultEnvelope → ℕ → ℕ → Option AcceptanceRecord → Tx Db AcceptanceRecord
accept_new e path now (some duplicate) = pure duplicate
accept_new e path now none = do a ← validate_result e now; commit_result e path a now

-- The transaction of `accept_result`; `path` is where the spool published the bytes.
unfoldable pub accept_in_transaction : ResultEnvelope → ℕ → ℕ → Tx Db AcceptanceRecord
unfolding existing_terminal validate_result commit_result
accept_in_transaction e path now = do
  duplicate ← existing_terminal e.assignment_id e.lease_id e.digest
  accept_new e path now duplicate

abbrev pub check_new :
    ResultEnvelope → ℕ → Option AcceptanceRecord → Tx Db (Option AcceptanceRecord)
check_new e received (some duplicate) = pure (some duplicate)
check_new e received none = do validate_result e received; pure none

-- What `accept_result` tests before it publishes the bytes.
unfoldable pub check_result : ResultEnvelope → ℕ → Tx Db (Option AcceptanceRecord)
unfolding existing_terminal validate_result
check_result e received = do
  duplicate ← existing_terminal e.assignment_id e.lease_id e.digest
  check_new e received duplicate

abbrev pub publish_then :
    ResultEnvelope
    → Option ℕ
    → ℕ
    → Db
    → Result (Option AcceptanceRecord × Db)
    → Result AcceptanceRecord × Db
publish_then e published now s (err x) = (err x, s)
publish_then e none now s (ok r) = (err value, s)
publish_then e (some path) now s (ok (some duplicate, t)) = (ok duplicate, s)
publish_then e (some path) now s (ok (none, t)) = transaction (accept_in_transaction e path now) s

-- `accept_result`. `published` is the path that `AtomicSpool.publish_result` returned, or `none` where
-- it raised; the clock is read twice.
unfoldable pub accept_result : ResultEnvelope → Option ℕ → ℕ → ℕ → Db → Result AcceptanceRecord × Db
unfolding accept_in_transaction check_result
accept_result e published received now s =
    publish_then e published now s (check_result e received s)

-- The two ways in which `accept_failure` ends the assignment's lease.
unfoldable pub fail_assignment :
    RetrySettings → FailureEnvelope → Assignment → ℕ → Option LeaseCancellation → Tx Db Bool
fail_assignment cfg e a now (some c) = do
  modify (set_assignment e.assignment_id to_failed)
  modify (close_cancellation e.assignment_id)
  insert_outcome (outcome_row e.envelope failure now)
  pure true
fail_assignment cfg e a now none =
    retry_or_terminal cfg a now
      (some (record { lease_id = e.lease_id; retryable = e.retryable; digest = e.digest }))
      (some e.lease_id)

-- The PRIMARY KEY and UNIQUE constraints of `failures`.
unfoldable pub insert_failure : Failure → Tx Db Unit
insert_failure row = do
  taken ← gets (λ db.
      any (λ f. f.lease_id == row.lease_id || f.envelope_digest == row.envelope_digest) db.failures)
  guard (not taken) integrity
  modify (λ db. record db { failures = db.failures ++ row ∷ [] })

abbrev pub accept_new_failure :
    RetrySettings → FailureEnvelope → ℕ → Option AcceptanceRecord → Tx Db AcceptanceRecord
accept_new_failure cfg e now (some duplicate) = pure duplicate
accept_new_failure cfg e now none = do
  a ← validate_active_envelope e.envelope now
  modify (set_lease e.lease_id fail_lease)
  cancellation ← gets (λ db. select lease_cancellation_key e.lease_id db.lease_cancellations)
  terminal ← fail_assignment cfg e a now cancellation
  insert_failure (record {
    lease_id = e.lease_id;
    assignment_id = e.assignment_id;
    envelope_digest = e.digest;
    accepted_at = now;
    retryable = e.retryable;
    terminal = terminal;
  })
  modify (recompute_group a.group_id)
  pure (record {
    assignment_id = e.assignment_id;
    envelope_digest = e.digest;
    duplicate = false;
    terminal = terminal;
  })

-- The transaction of `accept_failure`.
unfoldable pub accept_failure : RetrySettings → FailureEnvelope → ℕ → Tx Db AcceptanceRecord
unfolding existing_failure validate_active_envelope fail_assignment insert_failure
accept_failure cfg e now = do
  duplicate ← existing_failure e.envelope
  accept_new_failure cfg e now duplicate

abbrev pub is_unclaimed : ProcessingState → Bool
is_unclaimed ProcessingState.pending = true
is_unclaimed ProcessingState.processing = false
is_unclaimed ProcessingState.processed = false

abbrev pub is_processing : ProcessingState → Bool
is_processing ProcessingState.pending = false
is_processing ProcessingState.processing = true
is_processing ProcessingState.processed = false

-- `ORDER BY accepted_at, assignment_id`
abbrev pub accepted_before : AcceptedResult → AcceptedResult → Bool
accepted_before x y =
    ltb x.accepted_at y.accepted_at
    || x.accepted_at == y.accepted_at && leb x.assignment_id y.assignment_id

unfoldable pub claimable : ℕ → Db → List AcceptedResult
claimable limit db =
    take limit (order_by accepted_before (keep (λ r. is_unclaimed r.processing_state) db.results))

abbrev pub claim : AcceptedResult → AcceptedResult
claim r = record r { processing_state = ProcessingState.processing }

-- `claim_pending_results`
unfoldable pub claim_pending_results : ℕ → Tx Db (List AcceptedResult)
unfolding claimable
claim_pending_results limit = do
  guard (ltb 0 limit) value
  rows ← gets (claimable limit)
  for_each rows (λ r.
      modify (λ db. record db { results = update result_key r.assignment_id claim db.results }))
  pure rows

-- `mark_result_processed`
unfoldable pub mark_result_processed : ℕ → Tx Db Unit
mark_result_processed i = do
  r ← require invalid_state (λ db. select result_key i db.results)
  guard (is_processing r.processing_state) invalid_state
  modify (λ db. record db {
    results =
        update result_key i (λ x. record x { processing_state = ProcessingState.processed })
          db.results;
  })
