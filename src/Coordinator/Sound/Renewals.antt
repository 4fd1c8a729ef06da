-- ===== src/Coordinator/Sound/Renewals.antt =====
-- `create_lease`, `renew_lease` and `expire_leases` on sound tables.
use aether_rl.Prelude.{ℕ, ◌≡◌, refl, inl, inr, Bool-cases, true, Option, none, some, arith, ltb}
use aether_rl.Tx.{Result, ok, err, Tx, transaction}
use aether_rl.Tx.Rules.{
  Ensures, Ensures-pure, Ensures_mono, Ensures-if, Ensures-bind, Ensures-then, Ensures-gets,
  Ensures-require, Ensures-guard, Ensures-modify,
}
use aether_rl.Tx.Total.{Returns-Ensures}
use aether_rl.Table.{select, select_self}
use aether_rl.Coordinator.Schema.{Db, Assignment, Lease, LeaseCancellation, is_open, is_due}
use aether_rl.Coordinator.Rows.{assignment_key}
use aether_rl.Coordinator.Lifecycle.{RetrySettings}
use aether_rl.Coordinator.Leases.{AssignmentLease}
use aether_rl.Coordinator.Renewal.{
  Creation, created, deadline_passed, expire_all, create_granted, create_passed, create_lease_body,
  raise_passed, after_expiry, create_lease, RenewRequest, to_renewed, renewed_expiry,
  renew_uncancelled, renew_lease,
}
use aether_rl.Coordinator.Sound.{IsSound}
use aether_rl.Coordinator.Sound.Moves.{Sound-touch}
use aether_rl.Coordinator.Sound.Expiry.{expire_leases-IsSound, Returns-terminalize}
use aether_rl.Coordinator.Sound.Stale.{reconcile-IsSound}
use aether_rl.Coordinator.Sound.Grants.{grant-IsSound}

pub expire_all-IsSound :
    (cfg : RetrySettings) (now : ℕ) (s : Db)
    → IsSound s
    → Ensures (expire_all cfg now s) (λ _ t. IsSound t)
unfolding expire_all
expire_all-IsSound cfg now s h =
    Ensures-then _ s _ _ (
      Ensures_mono _ _ _ (λ _ t ht. expire_leases-IsSound cfg now t ht) (reconcile-IsSound now s h))

module _ (assignment worker session lease duration now : ℕ) where
  passed-IsSound :
      (a : Assignment) (s : Db)
      → IsSound s
      → select assignment_key a.assignment_id s.assignments ≡ some a
      → is_open a.state ≡ true
      → Ensures (create_passed a now s) (λ _ t. IsSound t)
  unfolding create_passed
  passed-IsSound a s h found op = Ensures-then _ s _ _ (
      Ensures_mono _ _ _ (λ _ t q. Ensures-pure _ deadline_passed t q.0)
        (Returns-Ensures ⊥ _ _ (Returns-terminalize ⊥ a _ now s h (a, found, op))))

  granted-IsSound :
      (a : Assignment) (slots : ℕ) (s : Db)
      → IsSound s
      → select assignment_key a.assignment_id s.assignments ≡ some a
      → is_open a.state ≡ true
      → Ensures (create_granted a slots worker session lease duration now s) (λ _ t. IsSound t)
  unfolding create_granted
  granted-IsSound a slots s h found op = Ensures-gets _ s _ _ (
      Ensures-guard _ s _ _ _ λ _. Ensures-bind _ s _ _ (
        Ensures_mono _ _ _ (λ l t ht. Ensures-pure _ (created l) t ht)
          (grant-IsSound a worker session lease now duration s h found op)))

  pub create_body-IsSound :
      (s : Db)
      → IsSound s
      → Ensures
          (create_lease_body assignment worker session lease duration now s)
          (λ _ t. IsSound t)
  unfolding create_lease_body
  create_body-IsSound s h = Ensures-require _ s _ _ _ λ a e. Ensures-guard _ s _ _ _ λ _.
      Ensures-guard _ s _ _ _ λ due. Ensures-require _ s _ _ _ λ row _. Ensures-guard _ s _ _ _ λ _.
        Ensures-guard _ s _ _ _ λ _.
          let found = select_self assignment_key assignment s.assignments a e in
          let op : is_open a.state ≡ true = ground arith in
          Ensures-if (is_due a.deadline_at now) (create_passed a now)
            (create_granted a row.inference_slots worker session lease duration now) s _
            (λ _. passed-IsSound a s h found op)
            (λ _. granted-IsSound a row.inference_slots s h found op)

-- A transaction, committed or rolled back, keeps what its body keeps.
pub transaction-keeps :
    {A : Type 0} (P : Db → Type 0) (m : Tx Db A) (s : Db)
    → P s
    → Ensures (m s) (λ _ t. P t)
    → P (transaction m s).1
unfolding transaction Ensures
transaction-keeps {A} P m s p e = go (m s) e
  where
    go :
        (r : Result (A × Db))
        → Ensures r (λ _ t. P t)
        → P (let q : Result A × Db = elim r [ ok (a, t) ↦ (ok a, t) | err x ↦ (err x, s) ] in q.1)
    go (ok (a, t)) e = e
    go (err x) e = p

renewed-IsSound :
    (r : RenewRequest) (now : ℕ) (l : Lease) (o : Option LeaseCancellation) (s : Db)
    → IsSound s
    → Ensures (renew_uncancelled r now l o s) (λ _ t. IsSound t)
renewed-IsSound r now l none s h = Ensures-guard _ s _ _ _ λ _. Ensures-require _ s _ _ _ λ a _.
    Ensures-guard _ s _ _ _ λ _. Ensures-guard _ s _ _ _ λ _. Ensures-modify _ s _ _ (
      Ensures-pure _ _ _ (
        Sound-touch r.lease_id
          (to_renewed (renewed_expiry a.deadline_at l.expires_at now r.duration_seconds) r.sent_at)
          (λ _. refl) (λ _. refl) (λ _. refl) h))
renewed-IsSound r now l (some c) s h =
    Ensures-guard _ s _ _ _ λ _. Ensures-modify _ s _ _ (Ensures-pure _ _ _ h)

pub renew_lease-IsSound :
    (r : RenewRequest) (now : ℕ) (s : Db)
    → IsSound s
    → Ensures (renew_lease r now s) (λ _ t. IsSound t)
unfolding renew_lease
renew_lease-IsSound r now s h = Ensures-guard _ s _ _ _ λ _. Ensures-then _ s _ _ (
    Ensures_mono _ _ _
      (λ _ t ht. Ensures-gets _ t _ _ (
        Ensures-guard _ t _ _ _ λ _. Ensures-require _ t _ _ _ λ l _.
          Ensures-guard _ t _ _ _ λ _.
            Ensures-guard _ t _ _ _ λ _. Ensures-gets _ t _ _ (renewed-IsSound r now l _ t ht)))
      (reconcile-IsSound now s h))

state-raise_passed : (p : Result Creation × Db) → (raise_passed p).1 ≡ p.1
state-raise_passed (ok (created l), s) = refl
state-raise_passed (ok deadline_passed, s) = refl
state-raise_passed (err e, s) = refl

after_expiry-keeps :
    (next : Db → Result AssignmentLease × Db)
    → ((t : Db) → IsSound t → IsSound (next t).1)
    → (p : Result ℕ × Db) → IsSound p.1
    → IsSound (after_expiry next p).1
after_expiry-keeps next k (ok n, s) h = k s h
after_expiry-keeps next k (err e, s) h = h

-- `create_lease`, with both its transactions.
pub create_lease-IsSound :
    (cfg : RetrySettings) (assignment worker session lease duration now now' : ℕ) (s : Db)
    → IsSound s
    → IsSound (create_lease cfg assignment worker session lease duration now now' s).1
unfolding create_lease
create_lease-IsSound cfg assignment worker session lease duration now now' s h =
    elim (Bool-cases (ltb 0 duration)) [
      | inl x ↦ rw x (
          after_expiry-keeps _
            (λ t ht. rw state-raise_passed (
              transaction-keeps IsSound
                (create_lease_body assignment worker session lease duration now') t ht
                (create_body-IsSound assignment worker session lease duration now' t ht)))
            (transaction (expire_all cfg now) s)
            (transaction-keeps IsSound (expire_all cfg now) s h (expire_all-IsSound cfg now s h)))
      | inr x ↦ rw x h
    ]
