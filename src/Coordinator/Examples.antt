-- ===== src/Coordinator/Examples.antt =====
-- A run of calls on the empty database: a base policy, a worker with one slot, a group of one rollout
-- and its lease.
pub mod Databases
use aether_rl.Prelude.{ℕ, none, some, [], ◌∷◌}
use aether_rl.Coordinator.Schema.{
  Db, PolicyManifest, RolloutAssignment, Lease, LeaseState, Assignment, AssignmentState, Kind,
}
use aether_rl.Coordinator.Lifecycle.{RetrySettings}
use aether_rl.Coordinator.Leases.{LeaseRequest}
use aether_rl.Coordinator.Results.{ResultEnvelope}
use aether_rl.Coordinator.Calls.{Call, step, Reaches, start, after, empty_db}

abbrev pub base : PolicyManifest
base = record {
  run_id = 1;
  policy_version = 0;
  base_model = 5;
  adapter = none;
  created_at = 0;
  policy_id = 20;
}

abbrev pub work : RolloutAssignment
work = record {
  assignment_id = 30;
  source_id = 9;
  group_id = 40;
  group_index = 0;
  group_size = 1;
  kind = Kind.train;
  environment_id = 2;
  environment_revision = 3;
  task_data = 4;
  sampling = 6;
  policy = base;
  created_at = 10;
  deadline_at = some 1000;
  result_size_limit_bytes = 100;
}

abbrev pub settings : RetrySettings
settings = record { retry_base_seconds = 1; retry_max_seconds = 8 }

abbrev pub share : ℕ → ℕ → ℕ
share size weight = size

abbrev pub digest_of : PolicyManifest → ℕ
digest_of m = 77

abbrev pub do_call : Call → Db → Db
do_call c s = step settings share digest_of c s

abbrev pub initial : Db
initial = do_call (Call.configure 2 60 1) (do_call (Call.initialize base 77) empty_db)

abbrev pub prepared : Db
prepared = do_call (Call.manual_group_of (work ∷ []) 3) (
    do_call
      (Call.register
        (record {
          worker_id = 11;
          worker_session_id = 12;
          base_model = 5;
          inference_slots = 1;
          capabilities_json = 0;
        })
        5)
      initial)

abbrev pub request : LeaseRequest
request = record {
  request_id = 60;
  worker_id = 11;
  worker_session_id = 12;
  sent_at = 15;
  loaded_policy_ids = 20 ∷ [];
  available_slots = 1;
}

-- The lease 50 is granted at 20 for 30 units.
abbrev pub leased : Db
leased = do_call (Call.lease_next request 20 30 50) (do_call (Call.validate request 88 16) prepared)

abbrev pub lease_row : Lease
lease_row = record {
  lease_id = 50;
  assignment_id = 30;
  attempt = 1;
  worker_id = 11;
  worker_session_id = 12;
  issued_at = 20;
  expires_at = 50;
  state = LeaseState.active;
  last_renew_sent_at = none;
}

pub leased-Reaches : Reaches settings share digest_of empty_db leased
leased-Reaches = after _ _ (after _ _ (after _ _ (after _ _ (after _ _ (after _ _ start)))))

abbrev pub outcome_report : ResultEnvelope
outcome_report = record {
  envelope = record {
    assignment_id = 30;
    attempt = 1;
    lease_id = 50;
    worker_id = 11;
    worker_session_id = 12;
    digest = 99;
  };
  requested_policy_id = 20;
  requested_policy_digest = 77;
  size_bytes = 10;
}

abbrev pub reported : Db
reported = do_call (Call.report outcome_report (some 70) 25 26) leased

pub reported-Reaches : Reaches settings share digest_of empty_db reported
reported-Reaches = after _ _ leased-Reaches

abbrev pub succeeded_row : Assignment
succeeded_row = record {
  assignment_id = 30;
  group_id = 40;
  group_index = 0;
  assignment_json = work;
  policy_id = 20;
  policy_manifest_digest = 77;
  state = AssignmentState.succeeded;
  max_attempts = 3;
  attempt_count = 1;
  available_at = 10;
  deadline_at = some 1000;
  current_lease_id = none;
}
