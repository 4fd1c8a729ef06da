-- ===== src/Coordinator/Sound/Offers.antt =====
-- The calls of Coordinator/Offers on sound tables.
use aether_rl.Prelude.{
  ℕ, Bool, true, false, Bool-cases, inl, inr, Option, none, some, List, [], ◌∷◌, if◌then◌else◌,
}
use aether_rl.Tx.{Result, ok, err, modify, transaction}
use aether_rl.Tx.Rules.{
  Ensures, Ensures-pure, Ensures-raise, Ensures_mono, Ensures-bind, Ensures-then, Ensures-gets,
  Ensures-require, Ensures-guard, Ensures-write, Ensures-check, Ensures_read_then,
}
use aether_rl.Coordinator.Schema.{Db, RolloutAssignment, Request}
use aether_rl.Coordinator.Lifecycle.{RetrySettings, recompute_groups}
use aether_rl.Coordinator.Leases.{AssignmentLease, LeaseRequest, Disposition, lease_next_compatible}
use aether_rl.Coordinator.Renewal.{expire_all}
use aether_rl.Coordinator.Sources.{CreatedGroup, create_next_group}
use aether_rl.Coordinator.Offers.{
  associate_by, associate_offered_leases, associate_offered_lease, lease_request_can_generate,
  Attempts, LeaseAnswer, after_group, after_lease, lease_or_create, requeue_results, after_part,
  recover,
}
use aether_rl.Coordinator.Sound.{IsSound}
use aether_rl.Coordinator.Sound.Expiry.{IsSound-recompute_groups}
use aether_rl.Coordinator.Sound.Grants.{disposition-IsSound, lease_next_compatible-IsSound}
use aether_rl.Coordinator.Sound.Groups.{create_next_group-IsSound}
use aether_rl.Coordinator.Sound.Renewals.{expire_all-IsSound, transaction-keeps}
use aether_rl.Coordinator.Promises.Offers.{validate_offers-IsOffered}

module _ (text_of : RolloutAssignment → ℕ) (r : LeaseRequest) (later : ℕ) where
  by-IsSound :
      (row : Request) (o : AssignmentLease × ℕ) (os : List (AssignmentLease × ℕ)) (d : Disposition)
      (s : Db)
      → IsSound s
      → Ensures (associate_by text_of r row o os later d s) (λ _ t. IsSound t)
  by-IsSound row o os (Disposition.leased l) s h = Ensures-check _ s _ _ λ _. h
  by-IsSound row o os Disposition.no_work s h = Ensures-raise _ _
  by-IsSound row o os Disposition.pending s h =
      Ensures_read_then _ _ s _ _ (validate_offers-IsOffered text_of r s (o ∷ os)) λ _ _.
        Ensures-gets _ s _ _
          (Ensures-guard _ s _ _ _ λ _. Ensures-guard _ s _ _ _ λ _. Ensures-write _ s _ h)

  pub associate-IsSound :
      (os : List (AssignmentLease × ℕ)) (s : Db)
      → IsSound s
      → Ensures (associate_offered_leases text_of r os later s) (λ _ t. IsSound t)
  unfolding associate_offered_leases
  associate-IsSound [] s h = Ensures-raise _ _
  associate-IsSound (o ∷ os) s h = Ensures-require _ s _ _ _ λ row _.
      Ensures-bind _ s _ _
        (Ensures_mono _ _ _ (λ d t ht. by-IsSound row o os d t ht) (disposition-IsSound row s h))

  pub associate_one-IsSound :
      (o : AssignmentLease) (now : ℕ) (s : Db)
      → IsSound s
      → Ensures (associate_offered_lease text_of r o now later s) (λ _ t. IsSound t)
  unfolding associate_offered_lease
  associate_one-IsSound o now s h =
      Ensures-then _ s _ _ (
        Ensures_mono _ _ _ (λ _ t ht. Ensures-pure _ _ t ht)
          (associate-IsSound ((o, now) ∷ []) s h))

module _ (cfg : RetrySettings) (share : ℕ → ℕ → ℕ) (r : LeaseRequest) (duration : ℕ) where
  next-keeps :
      (now lease : ℕ) (s : Db)
      → IsSound s
      → IsSound (transaction (lease_next_compatible cfg r now duration lease) s).1
  next-keeps now lease s h =
      transaction-keeps IsSound _ s h (lease_next_compatible-IsSound cfg r now duration lease s h)

  after_lease-keeps :
      (next : Db → LeaseAnswer)
      → ((t : Db) → IsSound t → IsSound (next t).1)
      → (p : LeaseAnswer) → IsSound p.1
      → IsSound (after_lease next p).1
  after_lease-keeps next k (ok none, s) h = k s h
  after_lease-keeps next k (ok (some l), s) h = h
  after_lease-keeps next k (err e, s) h = h

  after_group-keeps :
      (next : Db → LeaseAnswer)
      → ((t : Db) → IsSound t → IsSound (next t).1)
      → (p : Result (Option CreatedGroup) × Db) → IsSound p.1
      → IsSound (after_group next p).1
  after_group-keeps next k (ok none, s) h = h
  after_group-keeps next k (ok (some g), s) h = k s h
  after_group-keeps next k (err e, s) h = h

  pub lease_or_create-IsSound :
      (x : Attempts) (s : Db) → IsSound s → IsSound (lease_or_create cfg share r duration x s).1
  unfolding lease_or_create
  lease_or_create-IsSound x s h =
      after_lease-keeps
        (λ t.
          if lease_request_can_generate r x.ask_now t
          then after_group
              (λ u.
                transaction (lease_next_compatible cfg r x.second_now duration x.second_lease) u)
              (transaction (create_next_group share none x.verified x.group_now x.group_id x.ids) t)
          else (ok none, t))
        (λ t ht. elim (Bool-cases (lease_request_can_generate r x.ask_now t)) [
          | inl y ↦ rw y (
              after_group-keeps
                (λ u.
                  transaction (lease_next_compatible cfg r x.second_now duration x.second_lease) u)
                (next-keeps x.second_now x.second_lease)
                (transaction (create_next_group share none x.verified x.group_now x.group_id x.ids)
                  t)
                (transaction-keeps IsSound
                  (create_next_group share none x.verified x.group_now x.group_id x.ids) t ht
                  (create_next_group-IsSound share none x.verified x.group_now x.group_id x.ids t
                    ht)))
          | inr n ↦ rw n ht
        ])
        (transaction (lease_next_compatible cfg r x.first_now duration x.first_lease) s)
        (next-keeps x.first_now x.first_lease s h)

after_part-keeps :
    {A : Type 0} (next : Db → Result {0} Unit × Db)
    → ((t : Db) → IsSound t → IsSound (next t).1)
    → (p : Result A × Db) → IsSound p.1
    → IsSound (after_part next p).1
after_part-keeps next k (ok a, s) h = k s h
after_part-keeps next k (err e, s) h = h

pub recover-IsSound :
    (cfg : RetrySettings) (whole : Bool) (now : ℕ) (s : Db)
    → IsSound s
    → IsSound (recover cfg whole now s).1
unfolding recover requeue_results
recover-IsSound cfg false now s h = h
recover-IsSound cfg true now s h =
    after_part-keeps
      (λ t.
        after_part (λ u. transaction (modify recompute_groups) u)
          (transaction (expire_all cfg now) t))
      (λ t ht.
        after_part-keeps (λ u. transaction (modify recompute_groups) u)
          (λ u hu.
            transaction-keeps IsSound (modify recompute_groups) u hu
              (Ensures-write _ u recompute_groups (IsSound-recompute_groups u hu)))
          (transaction (expire_all cfg now) t)
          (transaction-keeps IsSound (expire_all cfg now) t ht (expire_all-IsSound cfg now t ht)))
      (transaction requeue_results s)
      (transaction-keeps IsSound requeue_results s h (Ensures-write _ s _ h))
