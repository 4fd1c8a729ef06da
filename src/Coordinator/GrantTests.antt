-- ===== src/Coordinator/GrantTests.antt =====
-- Leases created for a session, and a heartbeat, at concrete rows.
use mathlib.Core.List.{Perm}
use aether_rl.Prelude.{◌≡◌, ◌≤◌, refl, none, some, [], ◌∷◌}
use aether_rl.Tx.{ok, ◌>>=◌, ◌>>◌, gets, require, guard, modify, for_each}
use aether_rl.Table.{select, update}
use aether_rl.Coordinator.Schema.{Db, Assignment, AssignmentState}
use aether_rl.Coordinator.Rows.{assignment_key}
use aether_rl.Coordinator.Stale.{reconcile_stale_work, cancel_stale_train_groups, stale_groups}
use aether_rl.Coordinator.Examples.{work}
use aether_rl.Coordinator.Schema.{LeaseState}
use aether_rl.Coordinator.Rows.{insert_lease}
use aether_rl.Coordinator.Leases.{AssignmentLease, grant, validate_policy_ids}
use aether_rl.Coordinator.Renewal.{created, create_granted, create_lease_body}
use aether_rl.Coordinator.Workers.{Heartbeat, Answers, beat_lease, beat_leases, record_heartbeat}
use aether_rl.Coordinator.Promises.Granting.{
  Within, create_lease-Within, answered, heartbeat_answers,
}
use aether_rl.Coordinator.Examples.Databases.{leased_db}

abbrev held_row : Assignment
held_row = record {
  assignment_id = 30;
  group_id = 40;
  group_index = 0;
  assignment_json = work;
  policy_id = 20;
  policy_manifest_digest = 77;
  state = AssignmentState.leased;
  max_attempts = 3;
  attempt_count = 1;
  available_at = 10;
  deadline_at = some 1000;
  current_lease_id = some 50;
}

abbrev open_db : Db
open_db = record leased_db {
  assignments =
      record held_row {
        state = AssignmentState.retry_wait;
        current_lease_id = none;
        available_at = 15;
      }
      ∷ [];
  leases = [];
}

abbrev second_lease : AssignmentLease
second_lease = record {
  lease_id = 51;
  attempt = 2;
  worker_id = 11;
  worker_session_id = 12;
  issued_at = 20;
  expires_at = 50;
  assignment = work;
}

abbrev granted_db : Db
granted_db = record open_db {
  assignments =
      record held_row { attempt_count = 2; current_lease_id = some 51; available_at = 15 } ∷ [];
  leases =
      (record {
        lease_id = 51;
        assignment_id = 30;
        attempt = 2;
        worker_id = 11;
        worker_session_id = 12;
        issued_at = 20;
        expires_at = 50;
        state = LeaseState.active;
        last_renew_sent_at = none;
      })
      ∷ [];
}

creation : create_lease_body 30 11 12 51 30 20 open_db ≡ ok (created second_lease, granted_db)
unfolding create_lease_body create_granted grant insert_lease select update ◌>>=◌ ◌>>◌ gets require
    guard modify
creation = refl

create_lease-Within_example :
    (a : Assignment) × (select assignment_key 30 open_db.assignments ≡ some a)
    × Within a second_lease
    × (2 ≤ a.max_attempts)
create_lease-Within_example =
    create_lease-Within 30 11 12 51 30 20 open_db granted_db second_lease creation

abbrev beat : Heartbeat
beat = record {
  worker_id = 11;
  worker_session_id = 12;
  sent_at = 25;
  active_lease_ids = 50 ∷ 99 ∷ [];
  loaded_policy_ids = 20 ∷ [];
}

abbrev beaten_db : Db
beaten_db = record leased_db {
  sessions =
      (record {
        worker_session_id = 12;
        worker_id = 11;
        base_model = 5;
        inference_slots = 1;
        capabilities_json = 0;
        last_seen_at = 25;
        last_heartbeat_sent_at = some 25;
        last_lease_request_sent_at = some 15;
      })
      ∷ [];
  leases =
      (record {
        lease_id = 50;
        assignment_id = 30;
        attempt = 1;
        worker_id = 11;
        worker_session_id = 12;
        issued_at = 20;
        expires_at = 55;
        state = LeaseState.active;
        last_renew_sent_at = none;
      })
      ∷ [];
}

abbrev beat_answers : Answers
beat_answers = ((record { assignment_id = 30; lease_id = 50; expires_at = 55 }) ∷ [], 99 ∷ [])

heartbeat_run : record_heartbeat beat 25 30 leased_db ≡ ok (beat_answers, beaten_db)
unfolding record_heartbeat beat_leases beat_lease validate_policy_ids reconcile_stale_work
    cancel_stale_train_groups stale_groups select update ◌>>=◌ ◌>>◌ gets require guard modify
    for_each
heartbeat_run = refl

heartbeat_answers_example : Perm (answered beat_answers) (50 ∷ 99 ∷ [])
heartbeat_answers_example =
    heartbeat_answers beat 25 30 leased_db beaten_db beat_answers heartbeat_run
