-- ===== src/Processing/Tests.antt =====
-- The batches of a processor on a small database.
use aether_rl.Prelude.{
  ℕ, ◌+◌, ◌≡◌, ◌≢◌, ◌⊎◌, refl, Bool, true, false, Option, none, some, List, [], ◌∷◌,
}
use aether_rl.Tx.{◌>>=◌, ◌>>◌, gets, guard, modify, transaction}
use aether_rl.Table.{select}
use aether_rl.Coordinator.Schema.{
  Db, Kind, GroupState, Group, TrainingBatch, ProcessedGroup, ProcessedRollout,
}
use aether_rl.Coordinator.Batches.{
  available, assign_members, discard_members, discard_processed_rollouts, next_training_batch_step,
  record_training_batch,
}
use aether_rl.Coordinator.Calls.{empty_db}
use aether_rl.Processing.Selecting.{
  Pending, GroupPayload, Identity, same_identity, payload_identity, sizes_are_valid, identity_of,
  reached, is_enough, collect, ready, least, take_enough, mixes, select_batch,
}
use aether_rl.Processing.Partition.{rollouts_of}
use aether_rl.Processing.Selection.{Suffices}
use aether_rl.Processing.Homogeneous.{IsSelected, select_batch-IsSelected}
use aether_rl.Processing.Emitting.{
  pending_processed_rollouts, is_stale, gather, payloads_are_single, samples_are_single, batch_of,
  emit_selected, Round, Setting, emit_round, LoopEnd, emit, emit_ready_batches,
}
use aether_rl.Processing.Ends.{emit_ready_batches-ends}
use aether_rl.Processing.Emission.{IsEmission, emit_round-IsEmission}

abbrev payload : ℕ → GroupPayload
payload version = record {
  policy_id = 7;
  policy_version = version;
  policy_digest = 5;
  adapter_digest = none;
  rollouts =
      record {
        samples =
            record {
              token_ids = 1 ∷ 2 ∷ [];
              behavior_policy_version = some version;
              behavior_policy_digest = some 5;
            }
            ∷ [];
        token_count = 2;
      }
      ∷ record { samples = []; token_count = 0 }
      ∷ [];
}

-- The artifact at the path `v` holds rollouts of the version `v`.
abbrev pairs : Setting
pairs = record {
  sizes = record { batch_size = some 2; token_batch_size = none };
  payload_of = payload;
  artifact = λ step samples. (100 + step, 200 + step, 64);
}

abbrev of_version : ℕ → ℕ → Pending
of_version version group = record {
  group_id = group;
  ordinal = 0;
  token_count = 2;
  artifact_path = version;
  artifact_digest = version;
  size_bytes = 9;
}

-- The second and the fourth rollout stem from one policy, the others from one policy each.
abbrev mixed : List Pending
mixed = of_version 1 41 ∷ of_version 2 42 ∷ of_version 3 43 ∷ of_version 2 44 ∷ []

pairs_valid : sizes_are_valid pairs.sizes ≡ true
unfolding sizes_are_valid
pairs_valid = refl

select_batch-IsSelected_example :
    ((select_batch pairs.sizes payload mixed ≡ [])
      × ((i : Identity) → ¬ Suffices pairs.sizes (rollouts_of payload i mixed)))
    ⊎ IsSelected pairs.sizes payload mixed (select_batch pairs.sizes payload mixed)
select_batch-IsSelected_example = select_batch-IsSelected pairs.sizes payload mixed pairs_valid

test_select_batch : select_batch pairs.sizes payload mixed ≡ of_version 2 42 ∷ of_version 2 44 ∷ []
unfolding select_batch collect ready least take_enough reached is_enough identity_of
    payload_identity same_identity
test_select_batch = refl

test_mixes : mixes pairs.sizes payload 0 0 [] mixed ≡ true
unfolding mixes reached identity_of payload_identity same_identity
test_mixes = refl

abbrev group : ℕ → ℕ → Group
group id sequence = record {
  group_id = id;
  policy_id = 20;
  kind = Kind.train;
  environment_id = 2;
  environment_revision = 3;
  task_json = 4;
  sampling_json = 6;
  group_size = 1;
  state = GroupState.ready;
  created_at = 10;
  creation_key = (0, id);
  sequence = sequence;
  source_id = none;
}

abbrev artifact_at : ℕ → ℕ → ProcessedGroup
artifact_at version id = record {
  group_id = id;
  input_digest = id;
  artifact_digest = version;
  artifact_path = version;
  size_bytes = 9;
  rollout_count = 1;
  processed_at = 0;
}

abbrev row : ℕ → Option ℕ → Option ℕ → Bool → ProcessedRollout
row id step position discarded = record {
  group_id = id;
  ordinal = 0;
  token_count = 2;
  batch_step = step;
  batch_ordinal = position;
  discarded = discarded;
}

-- Version 3 is active, and rollouts may lag by one version.
abbrev stocked : List ProcessedRollout → List TrainingBatch → Db
stocked rollouts batches = record empty_db {
  run = some record { run_id = 1; base_model_json = 5; base_policy_id = 20; active_policy_id = 20 };
  policies =
      record {
        policy_id = 20;
        policy_version = 3;
        manifest_digest = 77;
        manifest_json = record {
          run_id = 1;
          policy_version = 3;
          base_model = 5;
          adapter = none;
          created_at = 0;
          policy_id = 20;
        };
        artifact_path = none;
      }
      ∷ [];
  scheduler = some record {
    next_group_sequence = 4;
    max_policy_lag = some 1;
    loaded_policy_preference_seconds = none;
  };
  groups = group 42 2 ∷ group 44 1 ∷ group 41 3 ∷ [];
  processed_groups = artifact_at 2 42 ∷ artifact_at 2 44 ∷ artifact_at 1 41 ∷ [];
  rollouts = rollouts;
  batches = batches;
}

abbrev pair : TrainingBatch
pair = record {
  step = 1;
  artifact_digest = 101;
  artifact_path = 201;
  size_bytes = 64;
  sample_count = 2;
}

abbrev before_round : Db
before_round = stocked (row 42 none none false ∷ row 44 none none false ∷ []) []

-- The batch begins with the rollout of the group that was created first.
abbrev after_round : Db
after_round =
    stocked (row 42 (some 1) (some 1) false ∷ row 44 (some 1) (some 0) false ∷ []) (pair ∷ [])

round_run : emit_round pairs before_round ≡ (Round.emitted, after_round)
unfolding emit_round pending_processed_rollouts is_stale emit_selected gather payloads_are_single
    samples_are_single batch_of select_batch collect ready least take_enough reached is_enough
    identity_of payload_identity same_identity select transaction record_training_batch available
    assign_members next_training_batch_step ◌>>=◌ ◌>>◌ gets guard modify
round_run = refl

emit_round-IsEmission_example : IsEmission pairs before_round after_round
emit_round-IsEmission_example =
    emit_round-IsEmission pairs before_round after_round pairs_valid round_run

-- A stale rollout is discarded, then a batch is emitted, then nothing is pending.
test_emit_ready_batches :
    emit_ready_batches pairs
      (stocked (row 42 none none false ∷ row 44 none none false ∷ row 41 none none false ∷ []) [])
    ≡ (
      LoopEnd.ended 1,
      stocked
          (row 42 (some 1) (some 1) false
            ∷ row 44 (some 1) (some 0) false
            ∷ row 41 none none true
            ∷ [])
          (pair ∷ []),
    )
unfolding emit_ready_batches emit emit_round pending_processed_rollouts is_stale emit_selected
    gather payloads_are_single samples_are_single batch_of select_batch collect ready least
    take_enough reached is_enough identity_of payload_identity same_identity select transaction
    record_training_batch available assign_members discard_processed_rollouts discard_members
    next_training_batch_step ◌>>=◌ ◌>>◌ gets guard modify
test_emit_ready_batches = refl

emit_ready_batches-ends_example : (emit_ready_batches pairs before_round).0 ≢ LoopEnd.out_of_fuel
emit_ready_batches-ends_example = emit_ready_batches-ends pairs before_round
