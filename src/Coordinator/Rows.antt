-- ===== src/Coordinator/Rows.antt =====
-- Single SQL statements over the tables: the rows that a key selects, and writes with the
-- PRIMARY KEY, UNIQUE and CHECK constraints of coordinator/migrations.py that they can meet.
use aether_rl.Prelude.{
  ℕ, true, Option, some, [], ◌∷◌, ◌++◌, ◌&&◌, ◌==◌, ltb, any, count, is_none, if◌then◌else◌, not,
}
use aether_rl.Tx.{integrity, Tx, ◌>>=◌, ◌>>◌, gets, guard, modify, when}
use aether_rl.Table.{select, update}
use aether_rl.Coordinator.Schema.{
  Db, Policy, Session, Group, Assignment, Lease, AcceptedResult, Failure, AssignmentOutcome, Source,
  AssignmentCancellation, LeaseCancellation, Request, TrainingBatch, ProcessedGroup, GroupState,
  ready, collecting, is_terminal,
}

abbrev pub policy_key : Policy → ℕ
policy_key r = r.policy_id

abbrev pub session_key : Session → ℕ
session_key r = r.worker_session_id

abbrev pub group_key : Group → ℕ
group_key r = r.group_id

abbrev pub assignment_key : Assignment → ℕ
assignment_key r = r.assignment_id

abbrev pub lease_key : Lease → ℕ
lease_key r = r.lease_id

abbrev pub result_key : AcceptedResult → ℕ
result_key r = r.assignment_id

abbrev pub failure_key : Failure → ℕ
failure_key r = r.lease_id

abbrev pub outcome_key : AssignmentOutcome → ℕ
outcome_key r = r.assignment_id

abbrev pub source_key : Source → ℕ
source_key r = r.source_id

abbrev pub cancellation_key : AssignmentCancellation → ℕ
cancellation_key r = r.assignment_id

abbrev pub lease_cancellation_key : LeaseCancellation → ℕ
lease_cancellation_key r = r.lease_id

abbrev pub request_key : Request → ℕ
request_key r = r.request_id

abbrev pub batch_key : TrainingBatch → ℕ
batch_key r = r.step

abbrev pub processed_group_key : ProcessedGroup → ℕ
processed_group_key r = r.group_id

abbrev pub find_assignment : ℕ → Db → Option Assignment
find_assignment k db = select assignment_key k db.assignments

abbrev pub find_lease : ℕ → Db → Option Lease
find_lease k db = select lease_key k db.leases

abbrev pub find_outcome : ℕ → Db → Option AssignmentOutcome
find_outcome k db = select outcome_key k db.outcomes

-- `UPDATE assignments SET … WHERE assignment_id = ?`
abbrev pub set_assignment : ℕ → (Assignment → Assignment) → Db → Db
set_assignment k f db = record db { assignments = update assignment_key k f db.assignments }

-- `UPDATE lease_attempts SET … WHERE lease_id = ?`
abbrev pub set_lease : ℕ → (Lease → Lease) → Db → Db
set_lease k f db = record db { leases = update lease_key k f db.leases }

-- `UPDATE assignment_cancellations SET terminal = 1 WHERE assignment_id = ?`
abbrev pub close_cancellation : ℕ → Db → Db
close_cancellation k db = record db {
  cancellations = update cancellation_key k (λ c. record c { terminal = true }) db.cancellations;
}

-- `UPDATE lease_cancellations SET delivered_at = COALESCE(delivered_at, ?) WHERE lease_id = ?`
abbrev pub deliver_cancellation : ℕ → ℕ → Db → Db
deliver_cancellation now k db = record db {
  lease_cancellations =
      update lease_cancellation_key k
        (λ c. if is_none c.delivered_at then record c { delivered_at = some now } else c)
        db.lease_cancellations;
}

-- `INSERT INTO assignment_outcomes`: the assignment is the primary key.
unfoldable pub insert_outcome : AssignmentOutcome → Tx Db Unit
insert_outcome row = do
  taken ← gets (λ db. select outcome_key row.assignment_id db.outcomes)
  guard (is_none taken) integrity
  modify (λ db. record db { outcomes = db.outcomes ++ row ∷ [] })

-- `INSERT OR IGNORE INTO assignment_outcomes`
unfoldable pub insert_outcome_or_ignore : AssignmentOutcome → Tx Db Unit
insert_outcome_or_ignore row = do
  taken ← gets (λ db. select outcome_key row.assignment_id db.outcomes)
  when (is_none taken) (modify (λ db. record db { outcomes = db.outcomes ++ row ∷ [] }))

-- `INSERT INTO lease_attempts`: its key, `UNIQUE (assignment_id, attempt)` and its CHECKs.
unfoldable pub insert_lease : Lease → Tx Db Unit
insert_lease row = do
  taken ← gets (λ db. select lease_key row.lease_id db.leases)
  guard (is_none taken) integrity
  again ←
      gets (λ db.
        any (λ l. l.assignment_id == row.assignment_id && l.attempt == row.attempt) db.leases)
  guard (not again) integrity
  guard (ltb 0 row.attempt && ltb row.issued_at row.expires_at) integrity
  modify (λ db. record db { leases = db.leases ++ row ∷ [] })

-- `_recompute_group`
unfoldable pub group_state_of : ℕ → Db → GroupState
group_state_of g db =
    if count (λ a. a.group_id == g && not (is_terminal a.state)) db.assignments == 0
    then ready
    else collecting

abbrev pub recompute_group : ℕ → Db → Db
recompute_group g db =
    let state = group_state_of g db in
    record db { groups = update group_key g (λ r. record r { state = state }) db.groups }
