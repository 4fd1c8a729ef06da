-- ===== src/Coordinator/PromiseTests.antt =====
-- The promises of single operations at concrete rows.
use aether_rl.Prelude.{
  arith, ℕ, ◌+◌, ◌≡◌, ◌≤◌, ◌<◌, ◌⊎◌, ◌&&◌, leb, Bool, refl, true, false, Option, none, some, [],
  ◌∷◌,
}
use aether_rl.Tx.{ok, err, overflow, ◌>>=◌, ◌>>◌, gets, require, guard, modify, for_each}
use aether_rl.Table.{select, update}
use aether_rl.Coordinator.Schema.{
  Db, Assignment, AssignmentState, Policy, Source, Kind, TrainingBatch, ProcessedRollout, Outcome,
}
use aether_rl.Coordinator.Rows.{assignment_key, source_key}
use aether_rl.Coordinator.Lifecycle.{
  delay_overflows, retry_delay, can_retry, retry_or_terminal, terminal_outcome, to_retry,
  retryable_report,
}
use aether_rl.Coordinator.Stale.{
  active_policy_row, reconcile_stale_work, cancel_stale_train_groups, stale_groups,
}
use aether_rl.Coordinator.Policies.{activate, activate_policy}
use aether_rl.Coordinator.Sources.{next_source}
use aether_rl.Coordinator.Batches.{record_training_batch, next_training_batch_step}
use aether_rl.Coordinator.Promises.Retries.{
  retry_delay-bounds, Retried, retry-decides, terminal_outcome-reason,
}
use aether_rl.Coordinator.Promises.Activation.{
  Advanced, activate_policy-advances, next_source-least,
}
use aether_rl.Coordinator.Promises.Batching.{Used, batch-Used}
use aether_rl.Coordinator.Examples.{settings, work, base}
use aether_rl.Coordinator.Examples.Databases.{leased_db}

abbrev held_row : Assignment
held_row = record {
  assignment_id = 30;
  group_id = 40;
  group_index = 0;
  assignment_json = work;
  policy_id = 20;
  policy_manifest_digest = 77;
  state = AssignmentState.leased;
  max_attempts = 3;
  attempt_count = 1;
  available_at = 10;
  deadline_at = some 1000;
  current_lease_id = some 50;
}

retry_delay-bounds_example :
    (delay_overflows held_row ≡ false)
    × (delay_overflows (record held_row { attempt_count = 2 }) ≡ false)
    × (retry_delay settings held_row ≤ 8)
    × (1 ≤ retry_delay settings held_row)
    × (retry_delay settings held_row ≤ retry_delay settings (record held_row { attempt_count = 2 }))
retry_delay-bounds_example = retry_delay-bounds settings held_row (omega arith) (omega arith)

abbrev waiting_db : Db
waiting_db = record leased_db { assignments = to_retry 61 held_row ∷ [] }

retry_run : retry_or_terminal settings held_row 60 none (some 50) leased_db ≡ ok (false, waiting_db)
unfolding retry_or_terminal can_retry retry_delay update ◌>>◌ guard modify
retry_run = refl

held_found : select assignment_key 30 leased_db.assignments ≡ some held_row
unfolding select
held_found = refl

retry-decides_example :
    Retried settings held_row 60 none (select assignment_key 30 waiting_db.assignments)
retry-decides_example =
    retry-decides settings held_row 60 none (some 50) leased_db waiting_db false held_found
      retry_run

abbrev last_row : Assignment
last_row = record held_row { attempt_count = 3 }

-- From the 1025th attempt on, the delay overflows and the call raises.
test_delay_overflows :
    retry_or_terminal settings
      (record held_row { attempt_count = 1025; max_attempts = 2000 })
      60
      none
      (some 50)
      leased_db
    ≡ err overflow
unfolding retry_or_terminal ◌>>◌ ◌>>=◌ guard
test_delay_overflows = refl

no_retry : can_retry settings last_row 60 none ≡ false
unfolding can_retry
no_retry = refl

terminal_outcome-reason_example :
    ((terminal_outcome settings last_row 60 none ≡ Outcome.attempts_exhausted)
      × (3 ≤ last_row.attempt_count))
    ⊎ ((terminal_outcome settings last_row 60 none ≡ Outcome.failure)
        × (retryable_report none ≡ false)
        × (last_row.attempt_count < 3))
    ⊎ ((terminal_outcome settings last_row 60 none ≡ Outcome.deadline_exceeded)
        × (leb 1000 (60 + retry_delay settings last_row) ≡ true)
        × (last_row.attempt_count < 3))
terminal_outcome-reason_example = terminal_outcome-reason settings last_row 60 none no_retry

abbrev base_row : Policy
base_row = record {
  policy_id = 20;
  policy_version = 0;
  manifest_digest = 77;
  manifest_json = base;
  artifact_path = none;
}

abbrev next_row : Policy
next_row = record {
  policy_id = 21;
  policy_version = 1;
  manifest_digest = 78;
  manifest_json = base;
  artifact_path = some 5;
}

abbrev two_policies : Db
two_policies = record leased_db { policies = base_row ∷ next_row ∷ [] }

abbrev advanced : Db
advanced = record two_policies {
  run =
      some (record { run_id = 1; base_model_json = 5; base_policy_id = 20; active_policy_id = 21 });
}

base_active : active_policy_row two_policies ≡ some base_row
unfolding select
base_active = refl

activation : activate_policy 21 true 30 two_policies ≡ ok (tt, advanced)
unfolding activate_policy activate select reconcile_stale_work cancel_stale_train_groups
    stale_groups ◌>>=◌ ◌>>◌ gets require guard modify for_each
activation = refl

activate_policy-advances_example : Advanced 21 two_policies base_row advanced
activate_policy-advances_example =
    activate_policy-advances 21 true 30 two_policies advanced base_row base_active activation

abbrev source : ℕ → ℕ → Source
source id finish = record {
  source_id = id;
  kind = Kind.train;
  environment_id = 1;
  environment_revision = 1;
  weight = 2;
  virtual_finish = finish;
  cursor = 0;
  tasks = 4 ∷ [];
  sampling_json = 3;
  group_size = 1;
  max_attempts = 2;
  result_size_limit_bytes = 100;
  assignment_timeout_seconds = none;
  enabled = true;
}

abbrev two_sources : Db
two_sources = record leased_db { sources = source 1 9 ∷ source 2 4 ∷ [] }

second_next : next_source none two_sources ≡ some (source 2 4)
unfolding next_source
second_next = refl

first_found : select source_key 1 two_sources.sources ≡ some (source 1 9)
unfolding select
first_found = refl

next_source-least_example :
    ((source 2 4).enabled && true ≡ true) × ((source 2 4).virtual_finish ≤ 9)
next_source-least_example =
    next_source-least none two_sources (source 2 4) (source 1 9) 1 second_next first_found refl

abbrev rollout : ℕ → Option ℕ → Option ℕ → Bool → ProcessedRollout
rollout ordinal step position discarded = record {
  group_id = 40;
  ordinal = ordinal;
  token_count = 7;
  batch_step = step;
  batch_ordinal = position;
  discarded = discarded;
}

abbrev two_rollouts : Db
two_rollouts = record leased_db {
  rollouts = rollout 0 none none true ∷ rollout 1 none none false ∷ [];
}

abbrev first_batch : TrainingBatch
first_batch = record {
  step = 1;
  artifact_digest = 8;
  artifact_path = 9;
  size_bytes = 10;
  sample_count = 1;
}

abbrev one_used : Db
one_used = record two_rollouts {
  batches = first_batch ∷ [];
  rollouts = rollout 0 none none true ∷ rollout 1 (some 1) (some 0) false ∷ [];
}

batch_run : record_training_batch first_batch ((40, 1) ∷ []) two_rollouts ≡ ok (tt, one_used)
unfolding record_training_batch next_training_batch_step select ◌>>=◌ ◌>>◌ gets guard modify
batch_run = refl

batch-Used_example : Used two_rollouts one_used
batch-Used_example =
    batch-Used first_batch ((40, 1) ∷ []) two_rollouts one_used ((refl, tt), (tt, tt))
      (refl, (refl, tt)) batch_run
