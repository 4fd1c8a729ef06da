-- ===== src/Coordinator/Registering.antt =====
-- `register_scheduler_source` and `create_group` of coordinator/database.py.
use aether_rl.Prelude.{
  ℕ, ◌+◌, min, Bool, true, false, Option, none, some, List, [], ◌∷◌, ◌++◌, ◌&&◌, not, ◌==◌, leb,
  all, map, length, order_by, if◌then◌else◌,
}
use aether_rl.Tx.{value, conflict, Tx, ◌>>=◌, ◌>>◌, gets, guard, modify, raise, for_each}
use aether_rl.Table.{select}
use aether_rl.Coordinator.Schema.{
  Db, PolicyManifest, RolloutAssignment, Group, GroupState, Kind, Policy, Source,
}
use aether_rl.Coordinator.Rows.{policy_key, source_key}
use aether_rl.Coordinator.Sources.{
  same_kind, allocate_group_sequence, insert_group, insert_assignment,
}

-- `EnvironmentSourceSpec` of environments.py.
pub record SourceSpec : Type 0 where
  pub source_id : ℕ
  pub kind : Kind
  pub environment_id : ℕ
  pub environment_revision : ℕ
  pub weight : ℕ
  pub tasks : List ℕ
  pub sampling : ℕ
  pub group_size : ℕ
  pub max_attempts : ℕ
  pub result_size_limit_bytes : ℕ
  pub assignment_timeout_seconds : Option ℕ
  pub enabled : Bool

abbrev pub same_numbers : List ℕ → List ℕ → Bool
same_numbers [] [] = true
same_numbers [] (y ∷ ys) = false
same_numbers (x ∷ xs) [] = false
same_numbers (x ∷ xs) (y ∷ ys) = x == y && same_numbers xs ys

abbrev pub same_option : Option ℕ → Option ℕ → Bool
same_option none none = true
same_option none (some y) = false
same_option (some x) none = false
same_option (some x) (some y) = x == y

abbrev pub same_bool : Bool → Bool → Bool
same_bool true b = b
same_bool false b = not b

-- `persisted == immutable`
abbrev pub same_source : Source → SourceSpec → Bool
same_source x s =
    same_kind x.kind s.kind
    && x.environment_id == s.environment_id
    && x.environment_revision == s.environment_revision
    && x.weight == s.weight
    && same_numbers x.tasks s.tasks
    && x.sampling_json == s.sampling
    && x.group_size == s.group_size
    && x.max_attempts == s.max_attempts
    && x.result_size_limit_bytes == s.result_size_limit_bytes
    && same_option x.assignment_timeout_seconds s.assignment_timeout_seconds
    && same_bool x.enabled s.enabled

-- `COALESCE((SELECT MIN(virtual_finish) FROM scheduler_sources WHERE enabled = 1), 0)`
abbrev pub least_finish : List Source → Option ℕ
least_finish [] = none
least_finish (x ∷ xs) =
    if x.enabled then lesser x.virtual_finish (least_finish xs) else least_finish xs
  where
    lesser : ℕ → Option ℕ → Option ℕ
    lesser n none = some n
    lesser n (some m) = some (min n m)

abbrev pub or_zero : Option ℕ → ℕ
or_zero none = 0
or_zero (some n) = n

abbrev pub source_row : SourceSpec → ℕ → Source
source_row s finish = record {
  source_id = s.source_id;
  kind = s.kind;
  environment_id = s.environment_id;
  environment_revision = s.environment_revision;
  weight = s.weight;
  virtual_finish = finish;
  cursor = 0;
  tasks = s.tasks;
  sampling_json = s.sampling;
  group_size = s.group_size;
  max_attempts = s.max_attempts;
  result_size_limit_bytes = s.result_size_limit_bytes;
  assignment_timeout_seconds = s.assignment_timeout_seconds;
  enabled = s.enabled;
}

abbrev pub register_source_by : SourceSpec → Option Source → Tx Db Unit
register_source_by s (some x) = guard (same_source x s) conflict
register_source_by s none = modify (λ db. record db {
  sources = db.sources ++ source_row s (or_zero (least_finish db.sources)) ∷ [];
})

-- `register_scheduler_source`
unfoldable pub register_scheduler_source : SourceSpec → Tx Db Unit
register_scheduler_source s = do
  existing ← gets (λ db. select source_key s.source_id db.sources)
  register_source_by s existing

-- `sorted(item.group_index for item in assignments) == list(range(group_size))`
abbrev pub counts_from : ℕ → List ℕ → Bool
counts_from n [] = true
counts_from n (x ∷ xs) = x == n && counts_from (n + 1) xs

-- The manifest of a policy, by its identifier and its digest.
abbrev pub same_inputs : (PolicyManifest → ℕ) → RolloutAssignment → RolloutAssignment → Bool
same_inputs digest_of x y =
    x.source_id == y.source_id
    && x.group_id == y.group_id
    && x.group_size == y.group_size
    && same_kind x.kind y.kind
    && x.environment_id == y.environment_id
    && x.environment_revision == y.environment_revision
    && x.task_data == y.task_data
    && x.sampling == y.sampling
    && x.policy.policy_id == y.policy.policy_id
    && digest_of x.policy == digest_of y.policy
    && x.created_at == y.created_at
    && same_option x.deadline_at y.deadline_at
    && x.result_size_limit_bytes == y.result_size_limit_bytes

abbrev pub are_distinct : List ℕ → Bool
are_distinct [] = true
are_distinct (x ∷ xs) = all (λ y. not (x == y)) xs && are_distinct xs

abbrev pub by_index : RolloutAssignment → RolloutAssignment → Bool
by_index x y = leb x.group_index y.group_index

abbrev pub is_policy_of : ℕ → Option Policy → Bool
is_policy_of digest none = false
is_policy_of digest (some p) = p.manifest_digest == digest

abbrev pub manual_group : RolloutAssignment → ℕ → Group
manual_group x sequence = record {
  group_id = x.group_id;
  policy_id = x.policy.policy_id;
  kind = x.kind;
  environment_id = x.environment_id;
  environment_revision = x.environment_revision;
  task_json = x.task_data;
  sampling_json = x.sampling;
  group_size = x.group_size;
  state = GroupState.collecting;
  created_at = x.created_at;
  creation_key = (0, x.group_id);
  sequence = sequence;
  source_id = none;
}

-- `policy_manifest_digest` of transport/artifacts.py is the function `digest_of`.
module _ (digest_of : PolicyManifest → ℕ) where
  abbrev pub create_checked : RolloutAssignment → List RolloutAssignment → ℕ → Tx Db Unit
  create_checked x items max_attempts = do
    policy ← gets (λ db. select policy_key x.policy.policy_id db.policies)
    guard (is_policy_of (digest_of x.policy) policy) conflict
    sequence ← allocate_group_sequence
    insert_group (manual_group x sequence)
    for_each (order_by by_index items) (insert_assignment (digest_of x.policy) max_attempts)

  -- `create_group`
  unfoldable pub create_group : List RolloutAssignment → ℕ → Tx Db Unit
  create_group [] max_attempts = raise value
  create_group (x ∷ xs) max_attempts = do
    guard (leb 1 max_attempts) value
    guard
        (length (x ∷ xs) == x.group_size
          && counts_from 0 (map (λ a. a.group_index) (order_by by_index (x ∷ xs))))
        value
    guard (all (λ y. same_inputs digest_of y x) (x ∷ xs)) value
    guard (are_distinct (map (λ a. a.assignment_id) (x ∷ xs))) value
    create_checked x (x ∷ xs) max_attempts
