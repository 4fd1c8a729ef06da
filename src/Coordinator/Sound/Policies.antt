-- ===== src/Coordinator/Sound/Policies.antt =====
-- `activate_policy`, `record_and_activate_policy` and `configure_scheduler` on sound tables.
use aether_rl.Prelude.{ℕ, Bool, Option, none, some}
use aether_rl.Tx.Rules.{
  Ensures, Ensures_mono, Ensures-then, Ensures-gets, Ensures-require, Ensures-guard, Ensures-modify,
  Ensures-write, Ensures-check,
}
use aether_rl.Coordinator.Schema.{Db, PolicyManifest, Policy}
use aether_rl.Coordinator.Policies.{
  activate, activate_policy, insert_policy, record_by_row, record_in_transaction,
  record_and_activate_policy, configure_scheduler,
}
use aether_rl.Coordinator.Sound.{IsSound}
use aether_rl.Coordinator.Sound.Stale.{reconcile-IsSound}

pub activate-IsSound :
    (policy version now : ℕ) (s : Db)
    → IsSound s
    → Ensures (activate policy version now s) (λ _ t. IsSound t)
unfolding activate
activate-IsSound policy version now s h =
    Ensures-require _ s _ _ _
      λ _ _. Ensures-guard _ s _ _ _ λ _. Ensures-modify _ s _ _ (reconcile-IsSound now _ h)

pub insert_policy-IsSound :
    (row : Policy) (s : Db) → IsSound s → Ensures (insert_policy row s) (λ _ t. IsSound t)
unfolding insert_policy
insert_policy-IsSound row s h =
    Ensures-gets _ s _ _
      (Ensures-guard _ s _ _ _ λ _. Ensures-guard _ s _ _ _ λ _. Ensures-write _ s _ h)

record_by-IsSound :
    (m : PolicyManifest) (digest path : ℕ) (o : Option Policy) (s : Db)
    → IsSound s
    → Ensures (record_by_row m digest path o s) (λ _ t. IsSound t)
record_by-IsSound m digest path none s h = insert_policy-IsSound _ s h
record_by-IsSound m digest path (some p) s h = Ensures-check _ s _ _ λ _. h

pub activate_policy-IsSound :
    (policy : ℕ) (verified : Bool) (now : ℕ) (s : Db)
    → IsSound s
    → Ensures (activate_policy policy verified now s) (λ _ t. IsSound t)
unfolding activate_policy
activate_policy-IsSound policy verified now s h =
    Ensures-require _ s _ _ _
      λ p _. Ensures-guard _ s _ _ _ λ _. activate-IsSound policy p.policy_version now s h

pub record-IsSound :
    (m : PolicyManifest) (digest path : ℕ) (s : Db)
    → IsSound s
    → Ensures (record_in_transaction m digest path s) (λ _ t. IsSound t)
unfolding record_in_transaction
record-IsSound m digest path s h =
    Ensures-require _ s _ _ _ λ _ _.
      Ensures-guard _ s _ _ _ λ _. Ensures-gets _ s _ _ (record_by-IsSound m digest path _ s h)

pub record_and_activate-IsSound :
    (m : PolicyManifest) (verified : Bool) (digest path now : ℕ) (s : Db)
    → IsSound s
    → Ensures (record_and_activate_policy m verified digest path now s) (λ _ t. IsSound t)
unfolding record_and_activate_policy
record_and_activate-IsSound m verified digest path now s h = Ensures-then _ s _ _ (
    Ensures-guard _ s _ _ _ λ _. Ensures-check _ s _ _ λ _. Ensures-then _ s _ _ (
      Ensures_mono _ _ _ (λ _ t ht. activate-IsSound m.policy_id m.policy_version now t ht)
        (record-IsSound m digest path s h)))

pub configure-IsSound :
    (lag preference now : ℕ) (s : Db)
    → IsSound s
    → Ensures (configure_scheduler lag preference now s) (λ _ t. IsSound t)
unfolding configure_scheduler
configure-IsSound lag preference now s h = Ensures-modify _ s _ _ (reconcile-IsSound now _ h)
