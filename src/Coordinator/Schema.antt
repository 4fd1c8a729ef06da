-- ===== src/Coordinator/Schema.antt =====
-- The tables of coordinator/migrations.py at schema version 5, with the records of protocol.py that
-- they store. Identifiers, digests, paths and canonical JSON texts are numbers that are compared;
-- times and durations are numbers of one unit of the clock.
use aether_rl.Prelude.{ℕ, Bool, true, false, Option, List, leb, holds_some}

pub data Kind : Type 0 where
  train eval : Kind

pub data AssignmentState : Type 0 where
  pending retry_wait leased succeeded failed : AssignmentState

pub data LeaseState : Type 0 where
  active succeeded failed expired : LeaseState

pub data GroupState : Type 0 where
  collecting ready : GroupState

pub data Outcome : Type 0 where
  result failure attempts_exhausted deadline_exceeded : Outcome

pub data ProcessingState : Type 0 where
  pending processing processed : ProcessingState

pub data RequestState : Type 0 where
  pending no_work leased : RequestState

pub data Reason : Type 0 where
  policy_stale cancelled : Reason

pub record PolicyManifest : Type 0 where
  pub run_id : ℕ
  pub policy_version : ℕ
  pub base_model : ℕ
  pub adapter : Option ℕ
  pub created_at : ℕ
  pub policy_id : ℕ

pub record RolloutAssignment : Type 0 where
  pub assignment_id : ℕ
  pub source_id : ℕ
  pub group_id : ℕ
  pub group_index : ℕ
  pub group_size : ℕ
  pub kind : Kind
  pub environment_id : ℕ
  pub environment_revision : ℕ
  pub task_data : ℕ
  pub sampling : ℕ
  pub policy : PolicyManifest
  pub created_at : ℕ
  pub deadline_at : Option ℕ
  pub result_size_limit_bytes : ℕ

pub record Run : Type 0 where
  pub run_id : ℕ
  pub base_model_json : ℕ
  pub base_policy_id : ℕ
  pub active_policy_id : ℕ

pub record Policy : Type 0 where
  pub policy_id : ℕ
  pub policy_version : ℕ
  pub manifest_digest : ℕ
  pub manifest_json : PolicyManifest
  pub artifact_path : Option ℕ

pub record Session : Type 0 where
  pub worker_session_id : ℕ
  pub worker_id : ℕ
  pub base_model : ℕ
  pub inference_slots : ℕ
  pub capabilities_json : ℕ
  pub last_seen_at : ℕ
  pub last_heartbeat_sent_at : Option ℕ
  pub last_lease_request_sent_at : Option ℕ

pub record Group : Type 0 where
  pub group_id : ℕ
  pub policy_id : ℕ
  pub kind : Kind
  pub environment_id : ℕ
  pub environment_revision : ℕ
  pub task_json : ℕ
  pub sampling_json : ℕ
  pub group_size : ℕ
  pub state : GroupState
  pub created_at : ℕ
  pub creation_key : ℕ × ℕ
  pub sequence : ℕ
  pub source_id : Option ℕ

pub record Assignment : Type 0 where
  pub assignment_id : ℕ
  pub group_id : ℕ
  pub group_index : ℕ
  pub assignment_json : RolloutAssignment
  pub policy_id : ℕ
  pub policy_manifest_digest : ℕ
  pub state : AssignmentState
  pub max_attempts : ℕ
  pub attempt_count : ℕ
  pub available_at : ℕ
  pub deadline_at : Option ℕ
  pub current_lease_id : Option ℕ

pub record Lease : Type 0 where
  pub lease_id : ℕ
  pub assignment_id : ℕ
  pub attempt : ℕ
  pub worker_id : ℕ
  pub worker_session_id : ℕ
  pub issued_at : ℕ
  pub expires_at : ℕ
  pub state : LeaseState
  pub last_renew_sent_at : Option ℕ

pub record AcceptedResult : Type 0 where
  pub assignment_id : ℕ
  pub lease_id : ℕ
  pub envelope_digest : ℕ
  pub artifact_path : ℕ
  pub size_bytes : ℕ
  pub accepted_at : ℕ
  pub processing_state : ProcessingState

pub record Failure : Type 0 where
  pub lease_id : ℕ
  pub assignment_id : ℕ
  pub envelope_digest : ℕ
  pub accepted_at : ℕ
  pub retryable : Bool
  pub terminal : Bool

pub record AssignmentOutcome : Type 0 where
  pub assignment_id : ℕ
  pub outcome : Outcome
  pub lease_id : Option ℕ
  pub envelope_digest : Option ℕ
  pub completed_at : ℕ

pub record SchedulerState : Type 0 where
  pub next_group_sequence : ℕ
  pub max_policy_lag : Option ℕ
  pub loaded_policy_preference_seconds : Option ℕ

pub record Source : Type 0 where
  pub source_id : ℕ
  pub kind : Kind
  pub environment_id : ℕ
  pub environment_revision : ℕ
  pub weight : ℕ
  pub virtual_finish : ℕ
  pub cursor : ℕ
  pub tasks : List ℕ
  pub sampling_json : ℕ
  pub group_size : ℕ
  pub max_attempts : ℕ
  pub result_size_limit_bytes : ℕ
  pub assignment_timeout_seconds : Option ℕ
  pub enabled : Bool

pub record AssignmentCancellation : Type 0 where
  pub assignment_id : ℕ
  pub reason : Reason
  pub requested_at : ℕ
  pub terminal : Bool

pub record LeaseCancellation : Type 0 where
  pub lease_id : ℕ
  pub assignment_id : ℕ
  pub reason : Reason
  pub requested_at : ℕ
  pub delivered_at : Option ℕ

pub record Request : Type 0 where
  pub request_id : ℕ
  pub worker_session_id : ℕ
  pub request_digest : ℕ
  pub state : RequestState
  pub lease_id : Option ℕ
  pub created_at : ℕ
  pub completed_at : Option ℕ

pub record TrainingBatch : Type 0 where
  pub step : ℕ
  pub artifact_digest : ℕ
  pub artifact_path : ℕ
  pub size_bytes : ℕ
  pub sample_count : ℕ

pub record ProcessedGroup : Type 0 where
  pub group_id : ℕ
  pub input_digest : ℕ
  pub artifact_digest : ℕ
  pub artifact_path : ℕ
  pub size_bytes : ℕ
  pub rollout_count : ℕ
  pub processed_at : ℕ

pub record ProcessedRollout : Type 0 where
  pub group_id : ℕ
  pub ordinal : ℕ
  pub token_count : ℕ
  pub batch_step : Option ℕ
  pub batch_ordinal : Option ℕ
  pub discarded : Bool

pub record Db : Type 0 where
  pub run : Option Run
  pub policies : List Policy
  pub workers : List ℕ
  pub sessions : List Session
  pub groups : List Group
  pub assignments : List Assignment
  pub leases : List Lease
  pub results : List AcceptedResult
  pub failures : List Failure
  pub outcomes : List AssignmentOutcome
  pub scheduler : Option SchedulerState
  pub sources : List Source
  pub cancellations : List AssignmentCancellation
  pub lease_cancellations : List LeaseCancellation
  pub requests : List Request
  pub batches : List TrainingBatch
  pub processed_groups : List ProcessedGroup
  pub rollouts : List ProcessedRollout

-- `state IN ('pending', 'retry_wait')`
abbrev pub is_open : AssignmentState → Bool
is_open AssignmentState.pending = true
is_open AssignmentState.retry_wait = true
is_open AssignmentState.leased = false
is_open AssignmentState.succeeded = false
is_open AssignmentState.failed = false

-- `state IN ('succeeded', 'failed')`, the test of `_is_terminal`.
abbrev pub is_terminal : AssignmentState → Bool
is_terminal AssignmentState.pending = false
is_terminal AssignmentState.retry_wait = false
is_terminal AssignmentState.leased = false
is_terminal AssignmentState.succeeded = true
is_terminal AssignmentState.failed = true

abbrev pub is_leased : AssignmentState → Bool
is_leased AssignmentState.pending = false
is_leased AssignmentState.retry_wait = false
is_leased AssignmentState.leased = true
is_leased AssignmentState.succeeded = false
is_leased AssignmentState.failed = false

abbrev pub is_active : LeaseState → Bool
is_active LeaseState.active = true
is_active LeaseState.succeeded = false
is_active LeaseState.failed = false
is_active LeaseState.expired = false

-- `deadline_at IS NOT NULL AND deadline_at <= now`
abbrev pub is_due : Option ℕ → ℕ → Bool
is_due deadline now = holds_some (λ d. leb d now) deadline
