-- ===== src/Coordinator/Tests.antt =====
-- The properties of the coordinator at concrete databases and messages.
use mathlib.Core.Option
use aether_rl.Prelude.{ℕ, [], ◌∷◌, ◌≤◌, All, arith, ◌≡◌, refl, subst, true, false, some, is_some}
use aether_rl.Coordinator.Calls.{empty_db, step}
use aether_rl.Coordinator.Examples.{
  digest_of, lease_row, leased, leased-Reaches, outcome_report, reported, reported-Reaches,
  settings, share, succeeded_row,
}
use aether_rl.Coordinator.Examples.Databases.{leased_db, reported_db}
use aether_rl.Coordinator.History.{
  empty-IsSound, lease-Holds, lease-is_exclusive, outcome-agrees, Reaches-IsSound,
}
use aether_rl.Coordinator.Leases.{
  active_count, candidates, choose, grant, is_schedulable, lease_chosen, lease_next_compatible,
  lease_pending, lease_request_disposition, validate_policy_ids,
}
use aether_rl.Coordinator.Leasing.{Holds}
use aether_rl.Coordinator.Lifecycle.{
  expire_leases, expired_leases, overdue_assignments, recompute_all, recompute_groups,
}
use aether_rl.Coordinator.Policies.{configure_scheduler, initialize_run, insert_policy}
use aether_rl.Coordinator.Promises.Submissions.{
  accept-twice, identity_of_row, expire-returns, release-raises,
}
use aether_rl.Coordinator.Registering.{create_group}
use aether_rl.Coordinator.Renewal.{release_unoffered_lease}
use aether_rl.Coordinator.Results.{
  accept_in_transaction, accept_result, check_result, commit_result, existing_terminal,
  insert_result, matches_lease, result_record, result_row, validate_active_envelope,
  validate_result,
}
use aether_rl.Coordinator.Rows.{
  assignment_key, group_state_of, insert_lease, insert_outcome, lease_key, outcome_key, result_key,
}
use aether_rl.Coordinator.Schema.{Db, ProcessingState}
use aether_rl.Coordinator.Sound.{IsSound}
use aether_rl.Coordinator.Sources.{allocate_group_sequence, insert_assignment, insert_group}
use aether_rl.Coordinator.Stale.{cancel_stale_train_groups, reconcile_stale_work, stale_groups}
use aether_rl.Coordinator.Workers.{register_worker, validate_lease_request}
use aether_rl.Table.{select, update}
use aether_rl.Tx.{
  err, for_each, gets, guard, integrity, modify, ok, require, transaction, ◌>>=◌, ◌>>◌,
}

lease_found : select lease_key 50 leased.leases ≡ some lease_row
unfolding step select update initialize_run insert_policy configure_scheduler reconcile_stale_work
    cancel_stale_train_groups stale_groups register_worker create_group allocate_group_sequence
    insert_group insert_assignment validate_lease_request lease_request_disposition
    validate_policy_ids active_count lease_next_compatible lease_pending expire_leases
    expired_leases overdue_assignments recompute_groups recompute_all group_state_of lease_chosen
    candidates is_schedulable choose grant insert_lease ◌>>=◌ ◌>>◌ gets require guard modify
    for_each
lease_found = refl

lease-is_exclusive_example : lease_row.lease_id ≡ 50
lease-is_exclusive_example =
    lease-is_exclusive settings share digest_of leased 50 50 lease_row lease_row leased-Reaches
      lease_found lease_found refl refl refl

lease-Holds_example : Holds leased.assignments 50 lease_row
lease-Holds_example =
    lease-Holds settings share digest_of leased 50 lease_row leased-Reaches lease_found refl

reported_found : select assignment_key 30 reported.assignments ≡ some succeeded_row
unfolding step select update initialize_run insert_policy configure_scheduler reconcile_stale_work
    cancel_stale_train_groups stale_groups register_worker create_group allocate_group_sequence
    insert_group insert_assignment validate_lease_request lease_request_disposition
    validate_policy_ids active_count lease_next_compatible lease_pending expire_leases
    expired_leases overdue_assignments recompute_groups recompute_all group_state_of lease_chosen
    candidates is_schedulable choose grant insert_lease ◌>>=◌ ◌>>◌ gets require guard modify
    for_each accept_result accept_in_transaction check_result existing_terminal validate_result
    validate_active_envelope matches_lease commit_result insert_result insert_outcome
reported_found = refl

outcome-agrees_example : is_some (select outcome_key 30 reported.outcomes) ≡ true
outcome-agrees_example =
    outcome-agrees settings share digest_of reported 30 succeeded_row reported-Reaches
      reported_found

leased-computes : leased ≡ leased_db
unfolding step select update initialize_run insert_policy configure_scheduler reconcile_stale_work
    cancel_stale_train_groups stale_groups register_worker create_group allocate_group_sequence
    insert_group insert_assignment validate_lease_request lease_request_disposition
    validate_policy_ids active_count lease_next_compatible lease_pending expire_leases
    expired_leases overdue_assignments recompute_groups recompute_all group_state_of lease_chosen
    candidates is_schedulable choose grant insert_lease ◌>>=◌ ◌>>◌ gets require guard modify
    for_each
leased-computes = refl

leased_db-IsSound : IsSound leased_db
leased_db-IsSound =
    subst IsSound leased-computes
      (Reaches-IsSound settings share digest_of empty_db leased leased-Reaches empty-IsSound)

accepted_once :
    accept_result outcome_report (some 70) 25 26 leased_db
    ≡ (ok (result_record 30 99 false), reported_db)
unfolding select update accept_result check_result accept_in_transaction existing_terminal
    validate_result validate_active_envelope matches_lease commit_result insert_result
    insert_outcome group_state_of transaction ◌>>=◌ ◌>>◌ gets require guard modify
accepted_once = refl

-- The result was claimed before the worker submits it again.
abbrev claimed_db : Db
claimed_db = record reported_db {
  results =
      record (result_row outcome_report 70 26) { processing_state = ProcessingState.processing }
      ∷ [];
}

still_recorded :
    Option.map identity_of_row (select result_key 30 claimed_db.results)
    ≡ Option.map identity_of_row (select result_key 30 reported_db.results)
unfolding select
still_recorded = refl

accept-twice_example :
    accept_result outcome_report (some 71) 900 901 claimed_db
    ≡ (ok (result_record 30 99 true), claimed_db)
accept-twice_example =
    accept-twice outcome_report 70 71 25 900 26 901 leased_db reported_db claimed_db
      leased_db-IsSound accepted_once still_recorded

expired_few : All (λ row. row.assignment.attempt_count ≤ 1024) (expired_leases 60 leased)
unfolding step select update initialize_run insert_policy configure_scheduler reconcile_stale_work
    cancel_stale_train_groups stale_groups register_worker create_group allocate_group_sequence
    insert_group insert_assignment validate_lease_request lease_request_disposition
    validate_policy_ids active_count lease_next_compatible lease_pending expire_leases
    expired_leases overdue_assignments recompute_groups recompute_all group_state_of lease_chosen
    candidates is_schedulable choose grant insert_lease ◌>>=◌ ◌>>◌ gets require guard modify
    for_each
expired_few = (omega arith, tt)

expire-returns_example :
    (n : ℕ) × (t : Db) × (expire_leases settings 60 leased ≡ ok (n, t)) × IsSound t
expire-returns_example =
    expire-returns settings share digest_of 60 leased leased-Reaches expired_few

release-raises_example : release_unoffered_lease 50 21 leased ≡ err integrity
release-raises_example =
    release-raises settings share digest_of 50 21 leased lease_row leased-Reaches lease_found refl
