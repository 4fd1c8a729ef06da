-- ===== src/Processing/Emitting.antt =====
-- `_emit_ready_batches` of src/aether_rl/coordinator/results.py, with `pending_processed_rollouts`,
-- `active_policy` and `max_policy_lag` of coordinator/database.py.
use aether_rl.Prelude.{
  ℕ, zero, suc, ◌+◌, Bool, false, Option, none, some, List, [], ◌∷◌, ◌++◌, ◌&&◌, ◌||◌, ltb, leb,
  ◌==◌, all, count, keep, length, map, holds_some, order_by, if◌then◌else◌,
}
use aether_rl.Tx.{Error, Result, ok, err, transaction}
use aether_rl.Table.{select}
use aether_rl.Coordinator.Schema.{
  Db, Group, Policy, SchedulerState, ProcessedGroup, ProcessedRollout, TrainingBatch,
}
use aether_rl.Coordinator.Rows.{group_key, processed_group_key}
use aether_rl.Coordinator.Stale.{active_policy_row}
use aether_rl.Coordinator.Batches.{
  is_free, next_training_batch_step, discard_processed_rollouts, record_training_batch,
}
use aether_rl.Processing.Selecting.{
  Pending, Sample, RolloutPayload, GroupPayload, payload_identity, Sizes, select_batch,
}

-- A row of the join, before the columns are chosen: the group's sequence and the rollout.
abbrev pub joined_row : ProcessedRollout → Option ProcessedGroup → Option Group → List (ℕ × Pending)
joined_row r none g = []
joined_row r (some p) none = []
joined_row r (some p) (some g) =
    (
      g.sequence,
      record {
        group_id = r.group_id;
        ordinal = r.ordinal;
        token_count = r.token_count;
        artifact_path = p.artifact_path;
        artifact_digest = p.artifact_digest;
        size_bytes = p.size_bytes;
      },
    )
    ∷ []

abbrev pub join_rows : Db → List ProcessedRollout → List (ℕ × Pending)
join_rows db [] = []
join_rows db (r ∷ rs) =
    joined_row r (select processed_group_key r.group_id db.processed_groups)
      (select group_key r.group_id db.groups)
    ++ join_rows db rs

-- `ORDER BY g.sequence, r.ordinal, r.group_id`
abbrev pub row_before : ℕ × Pending → ℕ × Pending → Bool
row_before (s, x) (t, y) =
    ltb s t
    || (s == t
        && (ltb x.ordinal y.ordinal || (x.ordinal == y.ordinal && leb x.group_id y.group_id)))

unfoldable pub pending_processed_rollouts : Db → List Pending
pending_processed_rollouts db =
    map (λ e. e.1) (order_by row_before (join_rows db (keep is_free db.rollouts)))

-- `_is_stale`
unfoldable pub is_stale : ℕ → Option ℕ → GroupPayload → Bool
is_stale active_version none p = false
is_stale active_version (some lag) p = ltb (p.policy_version + lag) active_version

-- `_assert_single_policy_identity`, of one of the two attributes.
abbrev pub is_single : List (Option ℕ) → Bool
is_single [] = false
is_single (none ∷ vs) = false
is_single (some v ∷ vs) = all (holds_some (λ w. w == v)) vs

unfoldable pub samples_are_single : List Sample → Bool
samples_are_single samples =
    is_single (map Sample.behavior_policy_version samples)
    && is_single (map Sample.behavior_policy_digest samples)

-- `list[index]`
abbrev pub item : {A : Type 0} → ℕ → List A → Option A
item n [] = none
item zero (x ∷ xs) = some x
item (suc n) (x ∷ xs) = item n xs

abbrev pub member_of : Pending → ℕ × ℕ
member_of r = (r.group_id, r.ordinal)

-- Why a call of the processor raises.
pub data Fault : Type 0 where
  raised : Error → Fault
  index_error assertion_error : Fault

-- How a round of the loop ends: the loop returns, goes on, having emitted a batch or not, or raises.
pub data Round : Type 0 where
  finished dropped emitted : Round
  failed : Fault → Round

abbrev pub settle : Round → Result {0} Unit × Db → Round × Db
settle next (ok u, db) = (next, db)
settle next (err e, db) = (failed (raised e), db)

-- What is known of a call of the loop: `artifact step samples` is the digest, the path and the size
-- of the encoded batch.
pub record Setting : Type 0 where
  pub sizes : Sizes
  pub payload_of : ℕ → GroupPayload
  pub artifact : ℕ → List Sample → ℕ × ℕ × ℕ

module _ (c : Setting) where
  abbrev pub samples_of : Option RolloutPayload → Option (List Sample)
  samples_of none = none
  samples_of (some p) = some p.samples

  abbrev pub append_samples : Option (List Sample) → Option (List Sample) → Option (List Sample)
  append_samples none later = none
  append_samples (some xs) none = none
  append_samples (some xs) (some ys) = some (xs ++ ys)

  -- `samples.extend(payload.rollouts[rollout.ordinal].samples)` over the selected rollouts.
  unfoldable pub gather : List Pending → Option (List Sample)
  gather [] = some []
  gather (r ∷ rs) =
      append_samples (samples_of (item r.ordinal (c.payload_of r.artifact_path).rollouts))
        (gather rs)

  -- `_assert_single_payload_policy_identity`; an identity's text is never `None`.
  unfoldable pub payloads_are_single : List Pending → Bool
  payloads_are_single selected =
      is_single (map (λ r. some (c.payload_of r.artifact_path).policy_version) selected)
      && is_single (map (λ r. some (payload_identity (c.payload_of r.artifact_path)).1) selected)

  unfoldable pub batch_of : ℕ → List Sample → TrainingBatch
  batch_of step samples =
      let a = c.artifact step samples in
      record {
        step = step;
        artifact_digest = a.0;
        artifact_path = a.1;
        size_bytes = a.2;
        sample_count = length samples;
      }

  abbrev pub record_batch : List Pending → List Sample → Db → Round × Db
  record_batch selected samples db =
      if payloads_are_single selected && samples_are_single samples
      then settle emitted (
          transaction
            (record_training_batch (batch_of (next_training_batch_step db) samples)
              (map member_of selected))
            db)
      else (failed assertion_error, db)

  abbrev pub emit_samples : List Pending → Option (List Sample) → Db → Round × Db
  emit_samples selected none db = (failed index_error, db)
  emit_samples selected (some []) db =
      settle dropped (transaction (discard_processed_rollouts (map member_of selected)) db)
  emit_samples selected (some (x ∷ xs)) db = record_batch selected (x ∷ xs) db

  unfoldable pub emit_selected : List Pending → Db → Round × Db
  unfolding gather payloads_are_single batch_of samples_are_single
  emit_selected [] db = (finished, db)
  emit_selected (r ∷ rs) db = emit_samples (r ∷ rs) (gather (r ∷ rs)) db

  abbrev pub stale_in : ℕ → Option ℕ → List Pending → List Pending
  stale_in version lag pending =
      keep (λ r. is_stale version lag (c.payload_of r.artifact_path)) pending

  abbrev pub without_stale : List Pending → List Pending → Db → Round × Db
  without_stale pending [] db = emit_selected (select_batch c.sizes c.payload_of pending) db
  without_stale pending (r ∷ rs) db =
      settle dropped (transaction (discard_processed_rollouts (map member_of (r ∷ rs))) db)

  -- `active_policy` and `max_policy_lag` raise where there is no run, or no settings.
  abbrev pub in_window : List Pending → Option Policy → Option SchedulerState → Db → Round × Db
  in_window pending none settings db = (failed (raised Error.invalid_state), db)
  in_window pending (some p) none db = (failed (raised Error.invalid_state), db)
  in_window pending (some p) (some s) db =
      without_stale pending (stale_in p.policy_version s.max_policy_lag pending) db

  abbrev pub with_pending : List Pending → Db → Round × Db
  with_pending [] db = (finished, db)
  with_pending (r ∷ rs) db = in_window (r ∷ rs) (active_policy_row db) db.scheduler db

  -- One round of `while True`.
  unfoldable pub emit_round : Db → Round × Db
  unfolding pending_processed_rollouts is_stale emit_selected
  emit_round db = with_pending (pending_processed_rollouts db) db

-- How the loop ends; `out_of_fuel` is none of the code's ends.
pub data LoopEnd : Type 0 where
  ended : ℕ → LoopEnd
  faulted : Fault → LoopEnd
  out_of_fuel : LoopEnd

abbrev pub next : (ℕ → Db → LoopEnd × Db) → ℕ → Round × Db → LoopEnd × Db
next again n (finished, db) = (ended n, db)
next again n (dropped, db) = again n db
next again n (emitted, db) = again (suc n) db
next again n (failed e, db) = (faulted e, db)

-- `_emit_ready_batches`, from a number of emitted batches, on fuel.
unfoldable pub emit : Setting → ℕ → ℕ → Db → LoopEnd × Db
unfolding emit_round
emit c zero n db = (out_of_fuel, db)
emit c (suc fuel) n db = next (emit c fuel) n (emit_round c db)

-- One unit of fuel for each rollout that is free, and one for the last round.
unfoldable pub emit_ready_batches : Setting → Db → LoopEnd × Db
unfolding emit
emit_ready_batches c db = emit c (suc (count is_free db.rollouts)) 0 db
