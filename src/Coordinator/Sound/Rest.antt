-- ===== src/Coordinator/Sound/Rest.antt =====
-- The calls that write none of the lease tables.
use aether_rl.Prelude.{ℕ, Bool, Option, none, some, List}
use aether_rl.Tx.{pure}
use aether_rl.Tx.Rules.{
  Ensures, Ensures-pure, Ensures_mono, Ensures-if, Ensures-then, Ensures-gets, Ensures-require,
  Ensures-guard, Ensures-modify, Ensures-write, Ensures-check, Ensures-for_each,
}
use aether_rl.Coordinator.Schema.{
  Db, PolicyManifest, Request, Run, Session, TrainingBatch, ProcessedGroup,
}
use aether_rl.Coordinator.Leases.{LeaseRequest}
use aether_rl.Coordinator.Results.{claim_pending_results, mark_result_processed}
use aether_rl.Coordinator.Workers.{
  Registration, register_by_row, register_worker, validate_by_row, validate_lease_request,
  is_pending, mark_lease_request_no_work,
}
use aether_rl.Coordinator.Policies.{initialize_by_row, initialize_run, record_policy}
use aether_rl.Coordinator.Batches.{
  record_processed_by, record_processed_group, discard_processed_rollouts, record_batch_by,
  record_training_batch,
}
use aether_rl.Coordinator.Sound.{IsSound}
use aether_rl.Coordinator.Sound.Grants.{validate-IsSound, disposition-IsSound}
use aether_rl.Coordinator.Sound.Policies.{insert_policy-IsSound, record-IsSound}

pub initialize-IsSound :
    (m : PolicyManifest) (digest : ℕ) (s : Db)
    → IsSound s
    → Ensures (initialize_run m digest s) (λ _ t. IsSound t)
unfolding initialize_run
initialize-IsSound m digest s h = Ensures-guard _ s _ _ _ λ _. Ensures-gets _ s _ _ (by_row _)
  where
    by_row : (o : Option Run) → Ensures (initialize_by_row m digest o s) (λ _ t. IsSound t)
    by_row (some r) = Ensures-require _ s _ _ _ λ _ _. Ensures-check _ s _ _ λ _. h
    by_row none =
        Ensures-then _ s _ _
          (Ensures_mono _ _ _ (λ _ t ht. Ensures-write _ t _ ht) (insert_policy-IsSound _ s h))

pub record_policy-IsSound :
    (m : PolicyManifest) (verified : Bool) (digest path : ℕ) (s : Db)
    → IsSound s
    → Ensures (record_policy m verified digest path s) (λ _ t. IsSound t)
unfolding record_policy
record_policy-IsSound m verified digest path s h =
    Ensures-then _ s _ _
      (Ensures-guard _ s _ _ _ λ _. Ensures-check _ s _ _ λ _. record-IsSound m digest path s h)

pub register-IsSound :
    (r : Registration) (now : ℕ) (s : Db)
    → IsSound s
    → Ensures (register_worker r now s) (λ _ t. IsSound t)
unfolding register_worker
register-IsSound r now s h =
    Ensures-require _ s _ _ _ λ _ _. Ensures-guard _ s _ _ _ λ _. Ensures-gets _ s _ _ (by_row _)
  where
    by_row : (o : Option Session) → Ensures (register_by_row r now o s) (λ _ t. IsSound t)
    by_row (some x) = Ensures-guard _ s _ _ _ λ _. Ensures-pure _ _ s h
    by_row none = Ensures-modify _ s _ _ (Ensures-modify _ _ _ _ (Ensures-pure _ _ _ h))

pub validate_request-IsSound :
    (r : LeaseRequest) (digest now : ℕ) (s : Db)
    → IsSound s
    → Ensures (validate_lease_request r digest now s) (λ _ t. IsSound t)
unfolding validate_lease_request
validate_request-IsSound r digest now s h = Ensures-gets _ s _ _ (by_row _)
  where
    by_row : (o : Option Request) → Ensures (validate_by_row r digest now o s) (λ _ t. IsSound t)
    by_row (some x) = Ensures-guard _ s _ _ _ λ _. disposition-IsSound x s h
    by_row none = Ensures-require _ s _ _ _ λ _ _. Ensures-guard _ s _ _ _ λ _.
        Ensures-guard _ s _ _ _ λ _. Ensures-then _ s _ _ (
          Ensures_mono _ _ _
            (λ _ t ht. Ensures-gets _ t _ _ (
              Ensures-guard _ t _ _ _
                λ _. Ensures-modify _ t _ _ (Ensures-modify _ _ _ _ (Ensures-pure _ _ _ ht))))
            (validate-IsSound r.loaded_policy_ids s h))

pub no_work-IsSound :
    (k now : ℕ) (s : Db)
    → IsSound s
    → Ensures (mark_lease_request_no_work k now s) (λ _ t. IsSound t)
unfolding mark_lease_request_no_work
no_work-IsSound k now s h = Ensures-require _ s _ _ _ λ row _. Ensures-then _ s _ _ (
    Ensures_mono _ _ _
      (λ _ t ht. Ensures-require _ t _ _ _ λ again _. disposition-IsSound again t ht)
      (Ensures-if (is_pending row.state) _ (pure tt) s (λ _ t. IsSound t)
        (λ _. Ensures-guard _ s _ _ _ λ _. Ensures-write _ s _ h) (λ _. Ensures-pure _ tt s h)))

pub claim-IsSound :
    (limit : ℕ) (s : Db) → IsSound s → Ensures (claim_pending_results limit s) (λ _ t. IsSound t)
unfolding claim_pending_results
claim-IsSound limit s h = Ensures-guard _ s _ _ _ λ _. Ensures-gets _ s _ _ (
    Ensures-then _ s _ _ (
      Ensures_mono _ _ _ (λ _ t ht. Ensures-pure _ _ t ht)
        (Ensures-for_each IsSound _ (λ r t ht. Ensures-write _ t _ ht) _ s h)))

pub finish-IsSound :
    (i : ℕ) (s : Db) → IsSound s → Ensures (mark_result_processed i s) (λ _ t. IsSound t)
unfolding mark_result_processed
finish-IsSound i s h =
    Ensures-require _ s _ _ _ λ _ _. Ensures-guard _ s _ _ _ λ _. Ensures-write _ s _ h

pub process-IsSound :
    (g : ProcessedGroup) (tokens : List ℕ) (s : Db)
    → IsSound s
    → Ensures (record_processed_group g tokens s) (λ _ t. IsSound t)
unfolding record_processed_group
process-IsSound g tokens s h = Ensures-gets _ s _ _ (by_row _ _)
  where
    by_row :
        (x : ProcessedGroup) (o : Option ProcessedGroup)
        → Ensures (record_processed_by x tokens o s) (λ _ t. IsSound t)
    by_row x (some y) = Ensures-check _ s _ _ λ _. h
    by_row x none = Ensures-require _ s _ _ _ λ _ _.
        Ensures-guard _ s _ _ _
          λ _. Ensures-gets _ s _ _ (Ensures-guard _ s _ _ _ λ _. Ensures-write _ s _ h)

pub discard-IsSound :
    (ms : List (ℕ × ℕ)) (s : Db)
    → IsSound s
    → Ensures (discard_processed_rollouts ms s) (λ _ t. IsSound t)
unfolding discard_processed_rollouts
discard-IsSound ms s h =
    Ensures-guard _ s _ _ _
      λ _. Ensures-gets _ s _ _ (Ensures-guard _ s _ _ _ λ _. Ensures-write _ s _ h)

pub batch-IsSound :
    (b : TrainingBatch) (ms : List (ℕ × ℕ)) (s : Db)
    → IsSound s
    → Ensures (record_training_batch b ms s) (λ _ t. IsSound t)
unfolding record_training_batch
batch-IsSound b ms s h = Ensures-guard _ s _ _ _ λ _. Ensures-gets _ s _ _ (by_row _)
  where
    by_row : (o : Option TrainingBatch) → Ensures (record_batch_by b ms o s) (λ _ t. IsSound t)
    by_row (some x) = Ensures-check _ s _ _ λ _. h
    by_row none = Ensures-gets _ s _ _ (
        Ensures-guard _ s _ _ _ λ _. Ensures-gets _ s _ _ (
          Ensures-guard _ s _ _ _
            λ _. Ensures-gets _ s _ _ (Ensures-guard _ s _ _ _ λ _. Ensures-write _ s _ h)))
