-- ===== src/Coordinator/Examples/Databases.antt =====
-- The databases of the run, computed.
use aether_rl.Prelude.{none, some, [], ◌∷◌}
use aether_rl.Coordinator.Schema.{
  Db, Kind, GroupState, AssignmentState, LeaseState, Outcome, ProcessingState, RequestState,
}

abbrev pub leased_db : Db
leased_db = record {
  run =
      some (record { run_id = 1; base_model_json = 5; base_policy_id = 20; active_policy_id = 20 });
  policies =
      (record {
        policy_id = 20;
        policy_version = 0;
        manifest_digest = 77;
        manifest_json = (record {
          run_id = 1;
          policy_version = 0;
          base_model = 5;
          adapter = none;
          created_at = 0;
          policy_id = 20;
        });
        artifact_path = none;
      })
      ∷ [];
  workers = 11 ∷ [];
  sessions =
      (record {
        worker_session_id = 12;
        worker_id = 11;
        base_model = 5;
        inference_slots = 1;
        capabilities_json = 0;
        last_seen_at = 5;
        last_heartbeat_sent_at = none;
        last_lease_request_sent_at = some 15;
      })
      ∷ [];
  groups =
      (record {
        group_id = 40;
        policy_id = 20;
        kind = Kind.train;
        environment_id = 2;
        environment_revision = 3;
        task_json = 4;
        sampling_json = 6;
        group_size = 1;
        state = GroupState.collecting;
        created_at = 10;
        creation_key = (0, 40);
        sequence = 1;
        source_id = none;
      })
      ∷ [];
  assignments =
      (record {
        assignment_id = 30;
        group_id = 40;
        group_index = 0;
        assignment_json = (record {
          assignment_id = 30;
          source_id = 9;
          group_id = 40;
          group_index = 0;
          group_size = 1;
          kind = Kind.train;
          environment_id = 2;
          environment_revision = 3;
          task_data = 4;
          sampling = 6;
          policy = (record {
            run_id = 1;
            policy_version = 0;
            base_model = 5;
            adapter = none;
            created_at = 0;
            policy_id = 20;
          });
          created_at = 10;
          deadline_at = some 1000;
          result_size_limit_bytes = 100;
        });
        policy_id = 20;
        policy_manifest_digest = 77;
        state = AssignmentState.leased;
        max_attempts = 3;
        attempt_count = 1;
        available_at = 10;
        deadline_at = some 1000;
        current_lease_id = some 50;
      })
      ∷ [];
  leases =
      (record {
        lease_id = 50;
        assignment_id = 30;
        attempt = 1;
        worker_id = 11;
        worker_session_id = 12;
        issued_at = 20;
        expires_at = 50;
        state = LeaseState.active;
        last_renew_sent_at = none;
      })
      ∷ [];
  results = [];
  failures = [];
  outcomes = [];
  scheduler = some (record {
    next_group_sequence = 2;
    max_policy_lag = some 2;
    loaded_policy_preference_seconds = some 60;
  });
  sources = [];
  cancellations = [];
  lease_cancellations = [];
  requests =
      (record {
        request_id = 60;
        worker_session_id = 12;
        request_digest = 88;
        state = RequestState.leased;
        lease_id = some 50;
        created_at = 16;
        completed_at = some 20;
      })
      ∷ [];
  batches = [];
  processed_groups = [];
  rollouts = [];
}

abbrev pub reported_db : Db
reported_db = record {
  run =
      some (record { run_id = 1; base_model_json = 5; base_policy_id = 20; active_policy_id = 20 });
  policies =
      (record {
        policy_id = 20;
        policy_version = 0;
        manifest_digest = 77;
        manifest_json = (record {
          run_id = 1;
          policy_version = 0;
          base_model = 5;
          adapter = none;
          created_at = 0;
          policy_id = 20;
        });
        artifact_path = none;
      })
      ∷ [];
  workers = 11 ∷ [];
  sessions =
      (record {
        worker_session_id = 12;
        worker_id = 11;
        base_model = 5;
        inference_slots = 1;
        capabilities_json = 0;
        last_seen_at = 5;
        last_heartbeat_sent_at = none;
        last_lease_request_sent_at = some 15;
      })
      ∷ [];
  groups =
      (record {
        group_id = 40;
        policy_id = 20;
        kind = Kind.train;
        environment_id = 2;
        environment_revision = 3;
        task_json = 4;
        sampling_json = 6;
        group_size = 1;
        state = GroupState.ready;
        created_at = 10;
        creation_key = (0, 40);
        sequence = 1;
        source_id = none;
      })
      ∷ [];
  assignments =
      (record {
        assignment_id = 30;
        group_id = 40;
        group_index = 0;
        assignment_json = (record {
          assignment_id = 30;
          source_id = 9;
          group_id = 40;
          group_index = 0;
          group_size = 1;
          kind = Kind.train;
          environment_id = 2;
          environment_revision = 3;
          task_data = 4;
          sampling = 6;
          policy = (record {
            run_id = 1;
            policy_version = 0;
            base_model = 5;
            adapter = none;
            created_at = 0;
            policy_id = 20;
          });
          created_at = 10;
          deadline_at = some 1000;
          result_size_limit_bytes = 100;
        });
        policy_id = 20;
        policy_manifest_digest = 77;
        state = AssignmentState.succeeded;
        max_attempts = 3;
        attempt_count = 1;
        available_at = 10;
        deadline_at = some 1000;
        current_lease_id = none;
      })
      ∷ [];
  leases =
      (record {
        lease_id = 50;
        assignment_id = 30;
        attempt = 1;
        worker_id = 11;
        worker_session_id = 12;
        issued_at = 20;
        expires_at = 50;
        state = LeaseState.succeeded;
        last_renew_sent_at = none;
      })
      ∷ [];
  results =
      (record {
        assignment_id = 30;
        lease_id = 50;
        envelope_digest = 99;
        artifact_path = 70;
        size_bytes = 10;
        accepted_at = 26;
        processing_state = ProcessingState.pending;
      })
      ∷ [];
  failures = [];
  outcomes =
      (record {
        assignment_id = 30;
        outcome = Outcome.result;
        lease_id = some 50;
        envelope_digest = some 99;
        completed_at = 26;
      })
      ∷ [];
  scheduler = some (record {
    next_group_sequence = 2;
    max_policy_lag = some 2;
    loaded_policy_preference_seconds = some 60;
  });
  sources = [];
  cancellations = [];
  lease_cancellations = [];
  requests =
      (record {
        request_id = 60;
        worker_session_id = 12;
        request_digest = 88;
        state = RequestState.leased;
        lease_id = some 50;
        created_at = 16;
        completed_at = some 20;
      })
      ∷ [];
  batches = [];
  processed_groups = [];
  rollouts = [];
}
