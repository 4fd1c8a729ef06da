-- ===== src/Coordinator/Sound/Results.antt =====
-- `accept_result` and `accept_failure` on sound tables.

use aether_rl.Prelude.{
  ℕ, ◌≡◌, ◌⊎◌, refl, sym, subst, inl, inr, true, false, Option, none, some, [], ◌∷◌, ◌++◌, arith,
  ◌∙◌,
}
use aether_rl.Tx.{Result, ok, err}
use aether_rl.Tx.Rules.{
  Ensures, Ensures-pure, Ensures_mono, Ensures-bind, Ensures-then, Ensures-gets, Ensures-require,
  Ensures-guard, Ensures-modify, Ensures-write,
}
use aether_rl.Tx.Total.{Returns-Ensures}
use aether_rl.Table.{select, select-key}
use aether_rl.Coordinator.Schema.{
  Db, Failure, Assignment, Lease, AcceptedResult, AssignmentOutcome, LeaseCancellation, is_active,
}
use aether_rl.Coordinator.Rows.{assignment_key, lease_key, result_key, set_lease, insert_outcome}
use aether_rl.Coordinator.Lifecycle.{RetrySettings, to_failed}
use aether_rl.Coordinator.Results.{
  Envelope, ResultEnvelope, FailureEnvelope, AcceptanceRecord, existing_result, existing_terminal,
  existing_report, existing_failure, matches_lease, validate_active_envelope, insert_result,
  succeed, to_succeeded, fail_lease, result_row, result_record, check_result, commit_result,
  validate_result, accept_new, accept_in_transaction, fail_assignment, insert_failure,
  accept_new_failure, accept_failure, publish_then, accept_result,
}
use aether_rl.Coordinator.Sound.{IsSound}
use aether_rl.Coordinator.Sound.Moves.{Sound-finish}
use aether_rl.Coordinator.Sound.Expiry.{Returns-retry_or_terminal}
use aether_rl.Coordinator.Sound.Renewals.{transaction-keeps}

-- The lease that an accepted envelope ends.
abbrev pub Ends : Envelope → Db → Assignment → Type 0
Ends e s a =
    (l : Lease) × (select lease_key e.lease_id s.leases ≡ some l)
    × (is_active l.state ≡ true)
    × (l.assignment_id ≡ e.assignment_id)
    × (a.assignment_id ≡ e.assignment_id)

matches_own :
    (e : Envelope) (a : Assignment) (l : Lease)
    → matches_lease e a l ≡ true
    → (is_active l.state ≡ true) × (l.assignment_id ≡ e.assignment_id)
unfolding matches_lease
matches_own e a l h = (ground arith, ground arith)

-- A valid envelope is one for an active lease of its assignment; validation writes nothing.
pub Ensures-validate :
    (e : Envelope) (now : ℕ) (s : Db) (Q : Assignment → Db → Type 0)
    → ((a : Assignment) → Ends e s a → Q a s)
    → Ensures (validate_active_envelope e now s) Q
unfolding validate_active_envelope
Ensures-validate e now s Q k = Ensures-require _ s _ _ _ λ a ea. Ensures-require _ s _ _ _ λ l el.
    Ensures-guard _ s _ _ _ λ m. Ensures-guard _ s _ _ _ λ _. Ensures-guard _ s _ _ _ λ _.
      let own = matches_own e a l m in
      Ensures-pure _ a s
        (k a (l, el, own.0, own.1, select-key assignment_key e.assignment_id s.assignments a ea))

Ensures-validate_result :
    (e : ResultEnvelope) (now : ℕ) (s : Db) (Q : Assignment → Db → Type 0)
    → ((a : Assignment) → Ends e.envelope s a → Q a s)
    → Ensures (validate_result e now s) Q
unfolding validate_result
Ensures-validate_result e now s Q k = Ensures-bind _ s _ _ (
    Ensures-validate e.envelope now s _
      λ a q. Ensures-guard _ s _ _ _ λ _. Ensures-guard _ s _ _ _ λ _. Ensures-pure _ a s (k a q))

-- `insert_outcome` where the row may be taken.
Ensures-insert_outcome :
    (o : AssignmentOutcome) (s : Db) (Q : Unit → Db → Type 0)
    → Q tt (record s { outcomes = s.outcomes ++ o ∷ [] })
    → Ensures (insert_outcome o s) Q
unfolding insert_outcome
Ensures-insert_outcome o s Q q =
    Ensures-gets _ s _ _ (Ensures-guard _ s _ _ _ λ _. Ensures-write _ s _ q)

-- What committing a result leaves: sound tables, and the row of the result.
abbrev Committed : ResultEnvelope → ℕ → ℕ → Db → Db → Type 0
Committed e path now s t = IsSound t × (t.results ≡ s.results ++ result_row e path now ∷ [])

commit-Committed :
    (e : ResultEnvelope) (path : ℕ) (a : Assignment) (now : ℕ) (s : Db)
    → IsSound s
    → Ends e.envelope s a
    → Ensures
        (commit_result e path a now s)
        (λ r t. (r ≡ result_record e.assignment_id e.digest false) × Committed e path now s t)
unfolding commit_result insert_result
commit-Committed e path a now s h (l, found, act, own, _) = Ensures-then _ s _ _ (
    Ensures-gets _ s _ _ (
      Ensures-guard _ s _ _ _ λ _. Ensures-write _ s _ (
        Ensures-then _ _ _ _ (
          Ensures-insert_outcome _ _ _ (
            Ensures-modify _ _ _ _ (
              Ensures-modify _ _ _ _ (
                Ensures-modify _ _ _ _ (
                  Ensures-modify _ _ _ _ (
                    Ensures-pure _ _ _ (
                      refl,
                      (
                        Sound-finish e.lease_id e.assignment_id l h found act own to_succeeded
                            succeed (λ _. refl) (λ _. refl) (λ _. refl) (λ _. refl) _ refl
                            (λ _. refl),
                        refl,
                      ),
                    ))))))))))

-- What `accept_result` leaves: the state as it was, for a duplicate, or sound tables and the row of
-- the result, where the assignment had none.
abbrev pub Accepted : ResultEnvelope → ℕ → ℕ → Db → AcceptanceRecord → Db → Type 0
Accepted e path now s r t =
    ((r ≡ result_record e.assignment_id e.digest true) × (t ≡ s))
    ⊎ ((r ≡ result_record e.assignment_id e.digest false)
        × (select result_key e.assignment_id s.results ≡ none)
        × Committed e path now s t)

module _ (e : ResultEnvelope) (path now : ℕ) (s : Db) (h : IsSound s) where
  accept_by_row :
      (o : Option AcceptedResult)
      → select result_key e.assignment_id s.results ≡ o
      → Ensures
          (existing_result e.assignment_id e.lease_id e.digest o s)
          (λ d t. Ensures (accept_new e path now d t) (Accepted e path now s))
  accept_by_row none eo = Ensures-gets _ s _ _ (
      Ensures-guard _ s _ _ _ λ _. Ensures-pure _ none s (
        Ensures-bind _ s _ _ (
          Ensures-validate_result e now s _ λ a q.
            Ensures_mono _ _ _ (λ r t c. inr (c.0, eo, c.1))
              (commit-Committed e path a now s h q))))
  accept_by_row (some r) eo =
      Ensures-guard _ s _ _ _ λ _. Ensures-pure _ _ s (Ensures-pure _ _ s (inl (refl, refl)))

  pub accept-Accepted : Ensures (accept_in_transaction e path now s) (Accepted e path now s)
  unfolding accept_in_transaction existing_terminal
  accept-Accepted = Ensures-bind _ s _ _ (Ensures-gets _ s _ _ (accept_by_row _ refl))

pub accept-IsSound :
    (e : ResultEnvelope) (path now : ℕ) (s : Db)
    → IsSound s
    → Ensures (accept_in_transaction e path now s) (λ _ t. IsSound t)
accept-IsSound e path now s h =
    Ensures_mono _ _ _ (λ r t a. elim a [ inl (_, p) ↦ subst IsSound (sym p) h | inr q ↦ q.2.0 ])
      (accept-Accepted e path now s h)

pub accept_result-IsSound :
    (e : ResultEnvelope) (published : Option ℕ) (received now : ℕ) (s : Db)
    → IsSound s
    → IsSound (accept_result e published received now s).1
unfolding accept_result
accept_result-IsSound e published received now s h = by_check published (check_result e received s)
  where
    by_check :
        (p : Option ℕ) (r : Result (Option AcceptanceRecord × Db))
        → IsSound (publish_then e p now s r).1
    by_check none (ok x) = h
    by_check (some path) (ok (some d, t)) = h
    by_check (some path) (ok (none, t)) =
        transaction-keeps IsSound (accept_in_transaction e path now) s h
          (accept-IsSound e path now s h)
    by_check none (err x) = h
    by_check (some path) (err x) = h

-- Failures.
module _ (cfg : RetrySettings) (e : FailureEnvelope) (now : ℕ) where
  fail-IsSound :
      (a : Assignment) (o : Option LeaseCancellation) (s : Db)
      → IsSound s
      → Ends e.envelope s a
      → Ensures
          (fail_assignment cfg e a now o (set_lease e.lease_id fail_lease s))
          (λ _ t. IsSound t)
  unfolding fail_assignment
  fail-IsSound a (some c) s h (l, found, act, own, _) = Ensures-modify _ _ _ _ (
      Ensures-modify _ _ _ _ (
        Ensures-then _ _ _ _ (
          Ensures-insert_outcome _ _ _ (
            Ensures-pure _ _ _ (
              Sound-finish e.lease_id e.assignment_id l h found act own to_failed fail_lease
                (λ _. refl) (λ _. refl) (λ _. refl) (λ _. refl) _ refl (λ _. refl))))))
  fail-IsSound a none s h (l, found, act, own, ai) =
      Ensures_mono _ _ _ (λ _ t q. q.0)
        (Returns-Ensures Unit _ _ (
          Returns-retry_or_terminal cfg a now _ _ e.lease_id l fail_lease (λ _. refl) (λ _. refl) s
            h found act (own ∙ sym ai) Unit (λ _. tt)))

  new_failure-IsSound :
      (d : Option AcceptanceRecord) (s : Db)
      → IsSound s
      → Ensures (accept_new_failure cfg e now d s) (λ _ t. IsSound t)
  unfolding insert_failure
  new_failure-IsSound (some d) s h = Ensures-pure _ d s h
  new_failure-IsSound none s h = Ensures-bind _ s _ _ (
      Ensures-validate e.envelope now s _ λ a q. Ensures-modify _ s _ _ (
        Ensures-gets _ _ _ _ (
          Ensures-bind _ _ _ _ (
            Ensures_mono _ _ _
              (λ terminal t ht. Ensures-then _ t _ _ (
                Ensures-gets _ t _ _ (
                  Ensures-guard _ t _ _ _
                    λ _. Ensures-write _ t _ (Ensures-modify _ _ _ _ (Ensures-pure _ _ _ ht)))))
              (fail-IsSound a _ s h q)))))

  pub accept_failure-IsSound :
      (s : Db) → IsSound s → Ensures (accept_failure cfg e now s) (λ _ t. IsSound t)
  unfolding accept_failure existing_failure
  accept_failure-IsSound s h = Ensures-bind _ s _ _ (Ensures-gets _ s _ _ (by_row _))
    where
      by_row :
          (o : Option Failure)
          → Ensures
              (existing_report e.envelope o s)
              (λ d t. Ensures (accept_new_failure cfg e now d t) (λ _ u. IsSound u))
      by_row none = Ensures-pure _ none s (new_failure-IsSound none s h)
      by_row (some f) = Ensures-guard _ s _ _ _ λ _. Ensures-pure _ _ s (Ensures-pure _ _ s h)
