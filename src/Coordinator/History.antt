-- ===== src/Coordinator/History.antt =====
-- The lease tables after sequences of calls of the repository.
use aether_rl.Prelude.{ℕ, ◌≡◌, ◌∙◌, ap, refl, sym, true, some, arith, is_some}
use aether_rl.Tx.{Tx}
use aether_rl.Tx.Rules.{Ensures}
use aether_rl.Table.{select}
use aether_rl.Coordinator.Schema.{
  Db, PolicyManifest, Assignment, Lease, is_active, is_leased, is_terminal,
}
use aether_rl.Coordinator.Rows.{assignment_key, lease_key, outcome_key}
use aether_rl.Coordinator.Lifecycle.{RetrySettings}
use aether_rl.Coordinator.Leases.{lease_next_compatible}
use aether_rl.Coordinator.Renewal.{renew_lease, release_unoffered_lease, expire_all}
use aether_rl.Coordinator.Results.{accept_failure, claim_pending_results, mark_result_processed}
use aether_rl.Coordinator.Workers.{
  register_worker, record_heartbeat, validate_lease_request, mark_lease_request_no_work,
}
use aether_rl.Coordinator.Sources.{create_next_group}
use aether_rl.Coordinator.Registering.{register_scheduler_source, create_group}
use aether_rl.Coordinator.Policies.{
  initialize_run, record_policy, record_and_activate_policy, activate_policy, configure_scheduler,
}
use aether_rl.Coordinator.Batches.{
  record_processed_group, discard_processed_rollouts, record_training_batch,
}
use aether_rl.Coordinator.Calls.{Call, commit, step, Reaches, start, after, empty_db}
use aether_rl.Coordinator.Sound.{IsSound}
use aether_rl.Coordinator.Sound.Moves.{holder}
use aether_rl.Coordinator.Sound.Grants.{lease_next_compatible-IsSound}
use aether_rl.Coordinator.Sound.Workers.{heartbeat-IsSound}
use aether_rl.Coordinator.Sound.Groups.{
  create_next_group-IsSound, register_source-IsSound, create_group-IsSound,
}
use aether_rl.Coordinator.Sound.Policies.{
  record_and_activate-IsSound, activate_policy-IsSound, configure-IsSound,
}
use aether_rl.Coordinator.Sound.Results.{accept_result-IsSound, accept_failure-IsSound}
use aether_rl.Coordinator.Sound.Renewals.{
  create_lease-IsSound, renew_lease-IsSound, expire_all-IsSound, transaction-keeps,
}
use aether_rl.Coordinator.Sound.Release.{release-IsSound}
use aether_rl.Coordinator.Sound.Offers.{
  associate-IsSound, associate_one-IsSound, lease_or_create-IsSound, recover-IsSound,
}
use aether_rl.Coordinator.Offers.{associate_offered_lease, associate_offered_leases}
use aether_rl.Coordinator.Sound.Rest.{
  initialize-IsSound, record_policy-IsSound, register-IsSound, validate_request-IsSound,
  no_work-IsSound, claim-IsSound, finish-IsSound, process-IsSound, discard-IsSound, batch-IsSound,
}

commit-IsSound :
    {A : Type 0} (m : Tx Db A) (s : Db)
    → IsSound s
    → Ensures (m s) (λ _ t. IsSound t)
    → IsSound (commit m s)
unfolding commit
commit-IsSound m s h e = transaction-keeps IsSound m s h e

module _ (cfg : RetrySettings) (share : ℕ → ℕ → ℕ) (digest_of : PolicyManifest → ℕ) where
  step-IsSound : (c : Call) (s : Db) → IsSound s → IsSound (step cfg share digest_of c s)
  unfolding step
  step-IsSound (Call.initialize m d) s h =
      commit-IsSound (initialize_run m d) s h (initialize-IsSound m d s h)
  step-IsSound (Call.record_one m v d p) s h =
      commit-IsSound (record_policy m v d p) s h (record_policy-IsSound m v d p s h)
  step-IsSound (Call.record_and_activate m v d p now) s h =
      commit-IsSound (record_and_activate_policy m v d p now) s h
        (record_and_activate-IsSound m v d p now s h)
  step-IsSound (Call.activate_one p v now) s h =
      commit-IsSound (activate_policy p v now) s h (activate_policy-IsSound p v now s h)
  step-IsSound (Call.configure l p now) s h =
      commit-IsSound (configure_scheduler l p now) s h (configure-IsSound l p now s h)
  step-IsSound (Call.register r now) s h =
      commit-IsSound (register_worker r now) s h (register-IsSound r now s h)
  step-IsSound (Call.beat b now d) s h =
      commit-IsSound (record_heartbeat b now d) s h (heartbeat-IsSound b now d s h)
  step-IsSound (Call.validate r d now) s h =
      commit-IsSound (validate_lease_request r d now) s h (validate_request-IsSound r d now s h)
  step-IsSound (Call.answer_no_work k now) s h =
      commit-IsSound (mark_lease_request_no_work k now) s h (no_work-IsSound k now s h)
  step-IsSound (Call.register_source x) s h =
      commit-IsSound (register_scheduler_source x) s h (register_source-IsSound x s h)
  step-IsSound (Call.manual_group_of items n) s h =
      commit-IsSound (create_group digest_of items n) s h
        (create_group-IsSound digest_of items n s h)
  step-IsSound (Call.next_group kind v now g ids) s h =
      commit-IsSound (create_next_group share kind v now g ids) s h
        (create_next_group-IsSound share kind v now g ids s h)
  step-IsSound (Call.lease_next r now d l) s h =
      commit-IsSound (lease_next_compatible cfg r now d l) s h
        (lease_next_compatible-IsSound cfg r now d l s h)
  step-IsSound (Call.lease_one i w x l d now later) s h =
      create_lease-IsSound cfg i w x l d now later s h
  step-IsSound (Call.renew_one r now) s h =
      commit-IsSound (renew_lease r now) s h (renew_lease-IsSound r now s h)
  step-IsSound (Call.release k now) s h =
      commit-IsSound (release_unoffered_lease k now) s h (release-IsSound k now s h)
  step-IsSound (Call.report e p received now) s h = accept_result-IsSound e p received now s h
  step-IsSound (Call.report_failure e now) s h =
      commit-IsSound (accept_failure cfg e now) s h (accept_failure-IsSound cfg e now s h)
  step-IsSound (Call.expire now) s h =
      commit-IsSound (expire_all cfg now) s h (expire_all-IsSound cfg now s h)
  step-IsSound (Call.claim_results n) s h =
      commit-IsSound (claim_pending_results n) s h (claim-IsSound n s h)
  step-IsSound (Call.finish_result i) s h =
      commit-IsSound (mark_result_processed i) s h (finish-IsSound i s h)
  step-IsSound (Call.process g ts) s h =
      commit-IsSound (record_processed_group g ts) s h (process-IsSound g ts s h)
  step-IsSound (Call.discard_some ms) s h =
      commit-IsSound (discard_processed_rollouts ms) s h (discard-IsSound ms s h)
  step-IsSound (Call.batch b ms) s h =
      commit-IsSound (record_training_batch b ms) s h (batch-IsSound b ms s h)
  step-IsSound (Call.associate_one text_of r o now later) s h =
      commit-IsSound (associate_offered_lease text_of r o now later) s h
        (associate_one-IsSound text_of r later o now s h)
  step-IsSound (Call.associate_some text_of r os later) s h =
      commit-IsSound (associate_offered_leases text_of r os later) s h
        (associate-IsSound text_of r later os s h)
  step-IsSound (Call.lease_or_generate r duration x) s h =
      lease_or_create-IsSound cfg share r duration x s h
  step-IsSound (Call.restart whole now) s h = recover-IsSound cfg whole now s h

  -- Calls keep the tables sound.
  pub Reaches-IsSound : (s t : Db) → Reaches cfg share digest_of s t → IsSound s → IsSound t
  Reaches-IsSound s t start h = h
  Reaches-IsSound s t (after u c r) h = step-IsSound c u (Reaches-IsSound s u r h)

pub empty-IsSound : IsSound empty_db
unfolding select
empty-IsSound = record {
  leased = record { holds = λ k l e a. ground arith; held = λ i a e l. ground arith };
  recorded = record { agree = λ i a e. ground arith; owned = λ i e. refl };
  assignments_unique = tt;
  leases_unique = tt;
}

-- In every database that calls lead to from the empty one, two active leases of the same assignment
-- are one lease.
pub lease-is_exclusive :
    (cfg : RetrySettings) (share : ℕ → ℕ → ℕ) (digest_of : PolicyManifest → ℕ) (t : Db) (j k : ℕ)
    (l m : Lease)
    → Reaches cfg share digest_of empty_db t
    → select lease_key j t.leases ≡ some l
    → select lease_key k t.leases ≡ some m
    → is_active l.state ≡ true
    → is_active m.state ≡ true
    → l.assignment_id ≡ m.assignment_id
    → j ≡ k
lease-is_exclusive cfg share digest_of t j k l m r el em al am own =
    let h = Reaches-IsSound cfg share digest_of empty_db t r empty-IsSound in
    let (a, ea, _, ac) = holder j m.assignment_id l h el al own in
    let (b, eb, _, bc) = holder k m.assignment_id m h em am refl in
    let p : some a ≡ some b = sym ea ∙ eb in
    let q : a ≡ b = cc in ground (arith, ap (λ (x : Assignment). x.current_lease_id) q)

-- In every database that calls lead to from the empty one, an active lease belongs to an assignment
-- that is leased and names that lease.
pub lease-Holds :
    (cfg : RetrySettings) (share : ℕ → ℕ → ℕ) (digest_of : PolicyManifest → ℕ) (t : Db) (k : ℕ)
    (l : Lease)
    → Reaches cfg share digest_of empty_db t
    → select lease_key k t.leases ≡ some l
    → is_active l.state ≡ true
    → (a : Assignment) × (select assignment_key l.assignment_id t.assignments ≡ some a)
      × (is_leased a.state ≡ true)
      × (a.current_lease_id ≡ some k)
lease-Holds cfg share digest_of t k l r found act =
    (Reaches-IsSound cfg share digest_of empty_db t r empty-IsSound).leased.holds k l found act

-- In every database that calls lead to from the empty one, an assignment has a row in
-- `assignment_outcomes` exactly if it has succeeded or failed.
pub outcome-agrees :
    (cfg : RetrySettings) (share : ℕ → ℕ → ℕ) (digest_of : PolicyManifest → ℕ) (t : Db) (i : ℕ)
    (a : Assignment)
    → Reaches cfg share digest_of empty_db t
    → select assignment_key i t.assignments ≡ some a
    → is_some (select outcome_key i t.outcomes) ≡ is_terminal a.state
outcome-agrees cfg share digest_of t i a r found =
    (Reaches-IsSound cfg share digest_of empty_db t r empty-IsSound).recorded.agree i a found
