-- ===== src/Coordinator/Calls.antt =====
-- The repository as a state machine: one constructor for each call of `CoordinatorRepository` that
-- changes the database, and the database that the call leaves. A call that raises leaves it as it was.
use aether_rl.Prelude.{ℕ, Bool, Option, none, List, []}
use aether_rl.Tx.{Tx, transaction}
use aether_rl.Coordinator.Schema.{
  Db, PolicyManifest, RolloutAssignment, TrainingBatch, ProcessedGroup, Kind,
}
use aether_rl.Coordinator.Lifecycle.{RetrySettings}
use aether_rl.Coordinator.Leases.{AssignmentLease, LeaseRequest, lease_next_compatible}
use aether_rl.Coordinator.Renewal.{
  RenewRequest, create_lease, renew_lease, release_unoffered_lease, expire_all,
}
use aether_rl.Coordinator.Results.{
  ResultEnvelope, FailureEnvelope, accept_result, accept_failure, claim_pending_results,
  mark_result_processed,
}
use aether_rl.Coordinator.Workers.{
  Registration, Heartbeat, register_worker, record_heartbeat, validate_lease_request,
  mark_lease_request_no_work,
}
use aether_rl.Coordinator.Sources.{create_next_group}
use aether_rl.Coordinator.Registering.{SourceSpec, register_scheduler_source, create_group}
use aether_rl.Coordinator.Policies.{
  initialize_run, record_policy, record_and_activate_policy, activate_policy, configure_scheduler,
}
use aether_rl.Coordinator.Batches.{
  record_processed_group, discard_processed_rollouts, record_training_batch,
}
use aether_rl.Coordinator.Offers.{
  Attempts, associate_offered_lease, associate_offered_leases, lease_or_create, recover,
}

-- The numbers called `now` are what the clock says to the call.
pub data Call : Type 0 where
  initialize : PolicyManifest → ℕ → Call
  record_one : PolicyManifest → Bool → ℕ → ℕ → Call
  record_and_activate : PolicyManifest → Bool → ℕ → ℕ → ℕ → Call
  activate_one : ℕ → Bool → ℕ → Call
  configure : ℕ → ℕ → ℕ → Call
  register : Registration → ℕ → Call
  beat : Heartbeat → ℕ → ℕ → Call
  validate : LeaseRequest → ℕ → ℕ → Call
  answer_no_work : ℕ → ℕ → Call
  register_source : SourceSpec → Call
  manual_group_of : List RolloutAssignment → ℕ → Call
  next_group : Option Kind → Bool → ℕ → ℕ → (ℕ → ℕ) → Call
  lease_next : LeaseRequest → ℕ → ℕ → ℕ → Call
  lease_one : ℕ → ℕ → ℕ → ℕ → ℕ → ℕ → ℕ → Call
  renew_one : RenewRequest → ℕ → Call
  release : ℕ → ℕ → Call
  report : ResultEnvelope → Option ℕ → ℕ → ℕ → Call
  report_failure : FailureEnvelope → ℕ → Call
  expire : ℕ → Call
  claim_results : ℕ → Call
  finish_result : ℕ → Call
  process : ProcessedGroup → List ℕ → Call
  discard_some : List (ℕ × ℕ) → Call
  batch : TrainingBatch → List (ℕ × ℕ) → Call
  associate_one : (RolloutAssignment → ℕ) → LeaseRequest → AssignmentLease → ℕ → ℕ → Call
  associate_some : (RolloutAssignment → ℕ) → LeaseRequest → List (AssignmentLease × ℕ) → ℕ → Call
  lease_or_generate : LeaseRequest → ℕ → Attempts → Call
  restart : Bool → ℕ → Call

-- `with self._transaction(): …`
unfoldable pub commit : {A : Type 0} → Tx Db A → Db → Db
unfolding transaction
commit m s = (transaction m s).1

-- `cfg` are the settings of the repository, `share` is the float quotient of `create_next_group` and
-- `digest_of` is `policy_manifest_digest`.
module _ (cfg : RetrySettings) (share : ℕ → ℕ → ℕ) (digest_of : PolicyManifest → ℕ) where
  unfoldable pub step : Call → Db → Db
  unfolding commit
  step (Call.initialize m digest) s = commit (initialize_run m digest) s
  step (Call.record_one m v digest path) s = commit (record_policy m v digest path) s
  step (Call.record_and_activate m v digest path now) s =
      commit (record_and_activate_policy m v digest path now) s
  step (Call.activate_one p v now) s = commit (activate_policy p v now) s
  step (Call.configure lag preference now) s = commit (configure_scheduler lag preference now) s
  step (Call.register r now) s = commit (register_worker r now) s
  step (Call.beat b now duration) s = commit (record_heartbeat b now duration) s
  step (Call.validate r digest now) s = commit (validate_lease_request r digest now) s
  step (Call.answer_no_work k now) s = commit (mark_lease_request_no_work k now) s
  step (Call.register_source x) s = commit (register_scheduler_source x) s
  step (Call.manual_group_of items attempts) s = commit (create_group digest_of items attempts) s
  step (Call.next_group kind v now group ids) s =
      commit (create_next_group share kind v now group ids) s
  step (Call.lease_next r now duration lease) s =
      commit (lease_next_compatible cfg r now duration lease) s
  step (Call.lease_one i w x lease duration now later) s =
      (create_lease cfg i w x lease duration now later s).1
  step (Call.renew_one r now) s = commit (renew_lease r now) s
  step (Call.release k now) s = commit (release_unoffered_lease k now) s
  step (Call.report e published received now) s = (accept_result e published received now s).1
  step (Call.report_failure e now) s = commit (accept_failure cfg e now) s
  step (Call.expire now) s = commit (expire_all cfg now) s
  step (Call.claim_results limit) s = commit (claim_pending_results limit) s
  step (Call.finish_result i) s = commit (mark_result_processed i) s
  step (Call.process g tokens) s = commit (record_processed_group g tokens) s
  step (Call.discard_some ms) s = commit (discard_processed_rollouts ms) s
  step (Call.batch b ms) s = commit (record_training_batch b ms) s
  step (Call.associate_one text_of r o now later) s =
      commit (associate_offered_lease text_of r o now later) s
  step (Call.associate_some text_of r os later) s =
      commit (associate_offered_leases text_of r os later) s
  step (Call.lease_or_generate r duration x) s = (lease_or_create cfg share r duration x s).1
  step (Call.restart whole now) s = (recover cfg whole now s).1

  -- The databases that calls lead to.
  pub data Reaches (s : Db) : Db → Type 0 where
    start : Reaches s s
    after : (t : Db) (c : Call) → Reaches s t → Reaches s (step c t)

-- The database after the migrations.
abbrev pub empty_db : Db
empty_db = record {
  run = none;
  policies = [];
  workers = [];
  sessions = [];
  groups = [];
  assignments = [];
  leases = [];
  results = [];
  failures = [];
  outcomes = [];
  scheduler = Option.some (record {
    next_group_sequence = 1;
    max_policy_lag = none;
    loaded_policy_preference_seconds = none;
  });
  sources = [];
  cancellations = [];
  lease_cancellations = [];
  requests = [];
  batches = [];
  processed_groups = [];
  rollouts = [];
}
