-- ===== src/Coordinator/Offers.antt =====
-- The association of offered leases with a request, `lease_or_create_next_compatible` and `recover`,
-- of coordinator/database.py.
use aether_rl.Prelude.{
  ℕ, Bool, true, false, Option, none, some, List, [], ◌∷◌, ◌&&◌, not, ◌==◌, ltb, any, is_some,
  holds_some, if◌then◌else◌,
}
use aether_rl.Tx.{
  Result, ok, err, value, invalid_state, conflict, artifact_corruption, Tx, ◌>>=◌, ◌>>◌, gets,
  require, guard, modify, pure, raise, transaction,
}
use aether_rl.Table.{select}
use aether_rl.Coordinator.Schema.{
  Db, RolloutAssignment, Assignment, Lease, Request, Session, AcceptedResult, ProcessingState,
  is_active, is_leased, is_due,
}
use aether_rl.Coordinator.Rows.{session_key, group_key, lease_key, request_key}
use aether_rl.Coordinator.Lifecycle.{RetrySettings, recompute_groups}
use aether_rl.Coordinator.Renewal.{expire_all}
use aether_rl.Coordinator.Leases.{
  AssignmentLease, LeaseRequest, Disposition, find_assignment_row, lease_request_disposition,
  active_count, is_schedulable, answer_request, lease_next_compatible,
}
use aether_rl.Coordinator.Workers.{is_pending}
use aether_rl.Coordinator.Sources.{CreatedGroup, create_next_group}

-- `lease_id IN (…) AND request_id != ?`
abbrev pub names_offer : LeaseRequest → List (AssignmentLease × ℕ) → Request → Bool
names_offer r os x =
    holds_some (λ k. any (λ o. k == o.0.lease_id) os) x.lease_id
    && not (x.request_id == r.request_id)

-- `text_of` is `canonical_json_bytes` of an assignment.
module _ (text_of : RolloutAssignment → ℕ) where
  abbrev pub same_lease : AssignmentLease → AssignmentLease → Bool
  same_lease x y =
      x.lease_id == y.lease_id
      && x.attempt == y.attempt
      && x.worker_id == y.worker_id
      && x.worker_session_id == y.worker_session_id
      && x.issued_at == y.issued_at
      && x.expires_at == y.expires_at
      && text_of x.assignment == text_of y.assignment

  -- The rows say what the offer says, and the lease has not ended.
  abbrev pub is_current : ℕ → AssignmentLease → Assignment → Option Lease → Bool
  is_current now o a none = false
  is_current now o a (some l) =
      l.assignment_id == o.assignment.assignment_id
      && l.attempt == o.attempt
      && l.worker_id == o.worker_id
      && l.worker_session_id == o.worker_session_id
      && is_active l.state
      && ltb now l.expires_at
      && l.issued_at == o.issued_at
      && l.expires_at == o.expires_at
      && is_leased a.state
      && not (is_due a.deadline_at now)
      && holds_some (λ k. k == o.lease_id) a.current_lease_id
      && text_of o.assignment == text_of a.assignment_json

  -- `_validate_offered_lease`
  unfoldable pub validate_offered_lease : LeaseRequest → AssignmentLease → ℕ → Tx Db Unit
  validate_offered_lease r o now = do
    guard (o.worker_id == r.worker_id && o.worker_session_id == r.worker_session_id) conflict
    found ← gets (λ db. select lease_key o.lease_id db.leases)
    a ← find_assignment_row o.assignment.assignment_id
    guard (is_current now o a found) conflict

  -- `for lease in offered`, with what the clock says to each round.
  unfoldable pub validate_offers : LeaseRequest → List (AssignmentLease × ℕ) → Tx Db Unit
  unfolding validate_offered_lease
  validate_offers r [] = pure tt
  validate_offers r (o ∷ os) = do validate_offered_lease r o.0 o.1; validate_offers r os

  abbrev pub associate_pending :
      LeaseRequest → Request → AssignmentLease × ℕ → List (AssignmentLease × ℕ) → ℕ → Tx Db Unit
  associate_pending r row o os later = do
    validate_offers r (o ∷ os)
    associated ← gets (λ db. any (names_offer r (o ∷ os)) db.requests)
    guard (not associated) conflict
    answer_request row o.0.lease_id later

  abbrev pub associate_by :
      LeaseRequest
      → Request
      → AssignmentLease × ℕ
      → List (AssignmentLease × ℕ)
      → ℕ
      → Disposition
      → Tx Db Unit
  associate_by r row o os later (Disposition.leased l) = guard (same_lease l o.0) conflict
  associate_by r row o os later Disposition.no_work = raise conflict
  associate_by r row o os later Disposition.pending = associate_pending r row o os later

  -- `associate_offered_leases`
  unfoldable pub associate_offered_leases :
      LeaseRequest → List (AssignmentLease × ℕ) → ℕ → Tx Db Unit
  unfolding validate_offers
  associate_offered_leases r [] later = raise value
  associate_offered_leases r (o ∷ os) later = do
    row ← require invalid_state (λ db. select request_key r.request_id db.requests)
    disposition ← lease_request_disposition row
    associate_by r row o os later disposition

  -- `associate_offered_lease`: the same for one lease, which it answers.
  unfoldable pub associate_offered_lease :
      LeaseRequest → AssignmentLease → ℕ → ℕ → Tx Db Disposition
  unfolding associate_offered_leases
  associate_offered_lease r o now later = do
    associate_offered_leases r ((o, now) ∷ []) later
    pure (Disposition.leased o)

abbrev pub has_slot : ℕ → ℕ → Option Session → Bool
has_slot worker active none = false
has_slot worker active (some x) = x.worker_id == worker && ltb active x.inference_slots

abbrev pub is_pending_row : Option Request → Bool
is_pending_row none = false
is_pending_row (some x) = is_pending x.state

-- `_lease_request_can_generate`
unfoldable pub lease_request_can_generate : LeaseRequest → ℕ → Db → Bool
lease_request_can_generate r now db =
    is_pending_row (select request_key r.request_id db.requests)
    && has_slot r.worker_id (active_count r.worker_id r.worker_session_id now db)
        (select session_key r.worker_session_id db.sessions)
    && not (
        any (λ a. is_some (select group_key a.group_id db.groups) && is_schedulable now db a)
          db.assignments)

-- The arguments of the two attempts at a lease and of the group made between them: what the clock
-- says, the new identifiers, and whether the policy's files are whole.
pub record Attempts : Type 0 where
  pub first_now : ℕ
  pub first_lease : ℕ
  pub ask_now : ℕ
  pub verified : Bool
  pub group_now : ℕ
  pub group_id : ℕ
  pub ids : ℕ → ℕ
  pub second_now : ℕ
  pub second_lease : ℕ

abbrev pub LeaseAnswer : Type 0
LeaseAnswer = Result (Option AssignmentLease) × Db

abbrev pub after_group : (Db → LeaseAnswer) → Result (Option CreatedGroup) × Db → LeaseAnswer
after_group next (ok none, s) = (ok none, s)
after_group next (ok (some g), s) = next s
after_group next (err e, s) = (err e, s)

abbrev pub after_lease : (Db → LeaseAnswer) → LeaseAnswer → LeaseAnswer
after_lease next (ok none, s) = next s
after_lease next (ok (some l), s) = (ok (some l), s)
after_lease next (err e, s) = (err e, s)

-- `lease_or_create_next_compatible`: up to three transactions.
unfoldable pub lease_or_create :
    RetrySettings → (ℕ → ℕ → ℕ) → LeaseRequest → ℕ → Attempts → Db → LeaseAnswer
lease_or_create cfg share r duration x s =
    after_lease
      (λ t.
        if lease_request_can_generate r x.ask_now t
        then after_group
            (λ u. transaction (lease_next_compatible cfg r x.second_now duration x.second_lease) u)
            (transaction (create_next_group share none x.verified x.group_now x.group_id x.ids) t)
        else (ok none, t))
      (transaction (lease_next_compatible cfg r x.first_now duration x.first_lease) s)

abbrev pub is_claimed : ProcessingState → Bool
is_claimed ProcessingState.pending = false
is_claimed ProcessingState.processing = true
is_claimed ProcessingState.processed = false

abbrev pub to_requeued : List AcceptedResult → List AcceptedResult
to_requeued [] = []
to_requeued (r ∷ rs) =
    (if is_claimed r.processing_state
      then record r { processing_state = ProcessingState.pending }
      else r)
    ∷ to_requeued rs

-- `UPDATE accepted_results SET processing_state = 'pending' WHERE processing_state = 'processing'`
unfoldable pub requeue_results : Tx Db Unit
requeue_results = modify (λ db. record db { results = to_requeued db.results })

abbrev pub after_part :
    {A : Type 0} → (Db → Result {0} Unit × Db) → Result A × Db → Result {0} Unit × Db
after_part next (ok a, s) = next s
after_part next (err e, s) = (err e, s)

-- `recover`: `whole` says that the files that the rows refer to are there and intact; then there are
-- three transactions.
unfoldable pub recover : RetrySettings → Bool → ℕ → Db → Result {0} Unit × Db
unfolding requeue_results
recover cfg whole now s =
    if whole
    then after_part
        (λ t.
          after_part (λ u. transaction (modify recompute_groups) u)
            (transaction (expire_all cfg now) t))
        (transaction requeue_results s)
    else (err artifact_corruption, s)
