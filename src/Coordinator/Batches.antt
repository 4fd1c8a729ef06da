-- ===== src/Coordinator/Batches.antt =====
-- Processed groups and training batches: `record_processed_group`, `discard_processed_rollouts`,
-- `record_training_batch` and the queries around them, of coordinator/database.py.
use aether_rl.Prelude.{
  ℕ, ◌+◌, max, Bool, true, false, Option, none, some, List, [], ◌∷◌, ◌++◌, ◌&&◌, ◌||◌, not, ◌==◌,
  ltb, any, count, length, is_none, if◌then◌else◌,
}
use aether_rl.Tx.{
  value, invalid_state, conflict, integrity, Tx, ◌>>=◌, ◌>>◌, gets, require, guard, modify,
}
use aether_rl.Table.{select}
use aether_rl.Coordinator.Schema.{
  Db, GroupState, Assignment, AcceptedResult, ProcessingState, TrainingBatch, ProcessedGroup,
  ProcessedRollout,
}
use aether_rl.Coordinator.Rows.{group_key, batch_key, processed_group_key}

abbrev pub is_ready : GroupState → Bool
is_ready GroupState.ready = true
is_ready GroupState.collecting = false

-- A rollout that no batch holds and that was not discarded.
abbrev pub is_free : ProcessedRollout → Bool
is_free r = is_none r.batch_step && not r.discarded

abbrev pub is_member : ProcessedRollout → ℕ × ℕ → Bool
is_member r (group, ordinal) = r.group_id == group && r.ordinal == ordinal

-- `enumerate(token_counts)`
abbrev pub rollout_rows : ℕ → ℕ → List ℕ → List ProcessedRollout
rollout_rows group ordinal [] = []
rollout_rows group ordinal (t ∷ ts) =
    (record {
      group_id = group;
      ordinal = ordinal;
      token_count = t;
      batch_step = none;
      batch_ordinal = none;
      discarded = false;
    })
    ∷ rollout_rows group (ordinal + 1) ts

-- `assignment_id IN (SELECT assignment_id FROM assignments WHERE group_id = ?)`
abbrev pub in_group : ℕ → List Assignment → ℕ → Bool
in_group group t i = any (λ a. a.assignment_id == i && a.group_id == group) t

abbrev pub to_processed : ℕ → List Assignment → List AcceptedResult → List AcceptedResult
to_processed group t [] = []
to_processed group t (r ∷ rs) =
    (if in_group group t r.assignment_id
      then record r { processing_state = ProcessingState.processed }
      else r)
    ∷ to_processed group t rs

abbrev pub same_output : ProcessedGroup → ProcessedGroup → Bool
same_output x y =
    x.input_digest == y.input_digest
    && x.artifact_digest == y.artifact_digest
    && x.artifact_path == y.artifact_path
    && x.size_bytes == y.size_bytes
    && x.rollout_count == y.rollout_count

abbrev pub record_processed_by : ProcessedGroup → List ℕ → Option ProcessedGroup → Tx Db Unit
record_processed_by g tokens (some x) = guard (same_output x g) conflict
record_processed_by g tokens none = do
  row ← require invalid_state (λ db. select group_key g.group_id db.groups)
  guard (is_ready row.state) invalid_state
  taken ← gets (λ db.
      any (λ x. x.artifact_digest == g.artifact_digest || x.artifact_path == g.artifact_path)
        db.processed_groups)
  guard (not taken && ltb 0 g.size_bytes) integrity
  modify (λ db. record db {
    processed_groups = db.processed_groups ++ g ∷ [];
    rollouts = db.rollouts ++ rollout_rows g.group_id 0 tokens;
    results = to_processed g.group_id db.assignments db.results;
  })

-- `record_processed_group`; the row `g` has `len(token_counts)` as its count.
unfoldable pub record_processed_group : ProcessedGroup → List ℕ → Tx Db Unit
record_processed_group g tokens = do
  existing ← gets (λ db. select processed_group_key g.group_id db.processed_groups)
  record_processed_by (record g { rollout_count = length tokens }) tokens existing

-- `SELECT COALESCE(MAX(step), 0) + 1`
abbrev pub max_step : List TrainingBatch → ℕ
max_step [] = 0
max_step (b ∷ bs) = max b.step (max_step bs)

unfoldable pub next_training_batch_step : Db → ℕ
next_training_batch_step db = max_step db.batches + 1

-- `UPDATE processed_rollouts SET discarded = 1 WHERE group_id = ? AND ordinal = ? AND …`
abbrev pub discard : ℕ × ℕ → ProcessedRollout → ProcessedRollout
discard m r = if is_member r m && is_free r then record r { discarded = true } else r

abbrev pub discard_row : ℕ × ℕ → List ProcessedRollout → List ProcessedRollout
discard_row m [] = []
discard_row m (r ∷ rs) = discard m r ∷ discard_row m rs

-- The loop over the members, with the sum of the row counts.
unfoldable pub discard_members : List (ℕ × ℕ) → List ProcessedRollout → ℕ × List ProcessedRollout
discard_members [] rs = (0, rs)
discard_members (m ∷ ms) rs =
    let (n, rest) = discard_members ms (discard_row m rs) in
    (count (λ r. is_member r m && is_free r) rs + n, rest)

-- `discard_processed_rollouts`
unfoldable pub discard_processed_rollouts : List (ℕ × ℕ) → Tx Db Unit
unfolding discard_members
discard_processed_rollouts members = do
  guard (ltb 0 (length members)) value
  outcome ← gets (λ db. discard_members members db.rollouts)
  guard (outcome.0 == length members) conflict
  modify (λ db. record db { rollouts = outcome.1 })

-- `SET batch_step = ?, batch_ordinal = ? WHERE group_id = ? AND ordinal = ? AND batch_step IS NULL`
abbrev pub assign : ℕ → ℕ → ℕ × ℕ → ProcessedRollout → ProcessedRollout
assign step position m r =
    if is_member r m && is_none r.batch_step
    then record r { batch_step = some step; batch_ordinal = some position }
    else r

abbrev pub assign_row : ℕ → ℕ → ℕ × ℕ → List ProcessedRollout → List ProcessedRollout
assign_row step position m [] = []
assign_row step position m (r ∷ rs) = assign step position m r ∷ assign_row step position m rs

unfoldable pub assign_members : ℕ → ℕ → List (ℕ × ℕ) → List ProcessedRollout → List ProcessedRollout
assign_members step position [] rs = rs
assign_members step position (m ∷ ms) rs =
    assign_members step (position + 1) ms (assign_row step position m rs)

-- `(group_id, ordinal) IN (…)`
abbrev pub among : ProcessedRollout → List (ℕ × ℕ) → Bool
among r ms = any (is_member r) ms

unfoldable pub available : List (ℕ × ℕ) → List ProcessedRollout → ℕ
available ms rs = count (λ r. is_free r && among r ms) rs

abbrev pub same_batch : TrainingBatch → TrainingBatch → Bool
same_batch x y =
    x.artifact_digest == y.artifact_digest
    && x.artifact_path == y.artifact_path
    && x.size_bytes == y.size_bytes
    && x.sample_count == y.sample_count

abbrev pub record_batch_by : TrainingBatch → List (ℕ × ℕ) → Option TrainingBatch → Tx Db Unit
record_batch_by b members (some x) = guard (same_batch x b) conflict
record_batch_by b members none = do
  next ← gets next_training_batch_step
  guard (b.step == next) invalid_state
  free ← gets (λ db. available members db.rollouts)
  guard (free == length members) conflict
  taken ← gets (λ db.
      any (λ x. x.artifact_digest == b.artifact_digest || x.artifact_path == b.artifact_path)
        db.batches)
  guard (not taken && ltb 0 b.size_bytes) integrity
  modify (λ db. record db {
    batches = db.batches ++ b ∷ [];
    rollouts = assign_members b.step 0 members db.rollouts;
  })

-- `record_training_batch`
unfoldable pub record_training_batch : TrainingBatch → List (ℕ × ℕ) → Tx Db Unit
unfolding available assign_members
record_training_batch b members = do
  guard (ltb 0 (length members) && ltb 0 b.sample_count) value
  existing ← gets (λ db. select batch_key b.step db.batches)
  record_batch_by b members existing
