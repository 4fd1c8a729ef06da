-- ===== src/Coordinator/Sources.antt =====
-- Rollout groups: `create_next_group` of coordinator/database.py, with the statements that it shares
-- with `create_group`. The policy's files are verified by `trainer.policy`, which is not part of the
-- model: `verified` says that the check passed.
use aether_rl.Prelude.{
  ℕ, zero, suc, ◌+◌, ◌%◌, Bool, true, false, Option, none, some, List, [], ◌∷◌, ◌++◌, ◌&&◌, ◌||◌,
  not, ◌==◌, ltb, leb, any, head?, keep, length, map, order_by, is_none, if◌then◌else◌,
}
use aether_rl.Tx.{
  value, invalid_state, conflict, integrity, artifact_corruption, Tx, ◌>>=◌, ◌>>◌, gets, require,
  guard, modify, pure, for_each,
}
use aether_rl.Table.{select, update}
use aether_rl.Coordinator.Schema.{
  Db, PolicyManifest, RolloutAssignment, Policy, Group, GroupState, Assignment, AssignmentState,
  Source, Kind, train, eval,
}
use aether_rl.Coordinator.Rows.{assignment_key, source_key}
use aether_rl.Coordinator.Stale.{active_policy_row}

abbrev pub same_kind : Kind → Kind → Bool
same_kind train train = true
same_kind train eval = false
same_kind eval train = false
same_kind eval eval = true

abbrev pub kind_allowed : Option Kind → Kind → Bool
kind_allowed none k = true
kind_allowed (some w) k = same_kind w k

-- `ORDER BY virtual_finish, source_id`
abbrev pub source_before : Source → Source → Bool
source_before x y =
    ltb x.virtual_finish y.virtual_finish
    || x.virtual_finish == y.virtual_finish && leb x.source_id y.source_id

-- The source that is served next.
unfoldable pub next_source : Option Kind → Db → Option Source
next_source kind db =
    head? (order_by source_before (keep (λ s. s.enabled && kind_allowed kind s.kind) db.sources))

-- `_allocate_group_sequence`
unfoldable pub allocate_group_sequence : Tx Db ℕ
allocate_group_sequence = do
  state ← require invalid_state (λ db. db.scheduler)
  modify (λ db. record db {
    scheduler = some (record state { next_group_sequence = state.next_group_sequence + 1 });
  })
  pure state.next_group_sequence

-- The row of `_insert_assignment`; `digest` is the policy manifest's.
abbrev pub assignment_row : ℕ → ℕ → RolloutAssignment → Assignment
assignment_row digest max_attempts a = record {
  assignment_id = a.assignment_id;
  group_id = a.group_id;
  group_index = a.group_index;
  assignment_json = a;
  policy_id = a.policy.policy_id;
  policy_manifest_digest = digest;
  state = AssignmentState.pending;
  max_attempts = max_attempts;
  attempt_count = 0;
  available_at = a.created_at;
  deadline_at = a.deadline_at;
  current_lease_id = none;
}

-- `_insert_assignment`, with the table's key and `UNIQUE (group_id, group_index)`.
unfoldable pub insert_assignment : ℕ → ℕ → RolloutAssignment → Tx Db Unit
insert_assignment digest max_attempts a = do
  taken ← gets (λ db. select assignment_key a.assignment_id db.assignments)
  guard (is_none taken) integrity
  again ←
      gets
        (λ db. any (λ x. x.group_id == a.group_id && x.group_index == a.group_index) db.assignments)
  guard (not again) integrity
  modify (λ db. record db {
    assignments = db.assignments ++ assignment_row digest max_attempts a ∷ [];
  })

-- `INSERT INTO rollout_groups`, with its key and unique indexes.
abbrev pub same_pair : ℕ × ℕ → ℕ × ℕ → Bool
same_pair (a, b) (c, d) = a == c && b == d

unfoldable pub insert_group : Group → Tx Db Unit
insert_group g = do
  taken ← gets (λ db.
      any
        (λ x.
          x.group_id == g.group_id
          || same_pair x.creation_key g.creation_key
          || x.sequence == g.sequence)
        db.groups)
  guard (not taken) integrity
  modify (λ db. record db { groups = db.groups ++ g ∷ [] })

abbrev pub nth : List ℕ → ℕ → Option ℕ
nth [] i = none
nth (x ∷ xs) zero = some x
nth (x ∷ xs) (suc i) = nth xs i

-- `now + timeout if timeout else None`
abbrev pub deadline_from : ℕ → Option ℕ → Option ℕ
deadline_from now none = none
deadline_from now (some t) = if t == 0 then none else some (now + t)

abbrev pub source_assignment : Source → PolicyManifest → ℕ → ℕ → ℕ → ℕ → ℕ → RolloutAssignment
source_assignment s policy task now group index id = record {
  assignment_id = id;
  source_id = s.source_id;
  group_id = group;
  group_index = index;
  group_size = s.group_size;
  kind = s.kind;
  environment_id = s.environment_id;
  environment_revision = s.environment_revision;
  task_data = task;
  sampling = s.sampling_json;
  policy = policy;
  created_at = now;
  deadline_at = deadline_from now s.assignment_timeout_seconds;
  result_size_limit_bytes = s.result_size_limit_bytes;
}

-- `for index in range(group_size)`, with identifiers from the factory, here a function of the index.
abbrev pub source_assignments :
    ℕ → ℕ → Source → PolicyManifest → ℕ → ℕ → ℕ → (ℕ → ℕ) → List RolloutAssignment
source_assignments zero index s policy task now group ids = []
source_assignments (suc n) index s policy task now group ids =
    source_assignment s policy task now group index (ids index)
    ∷ source_assignments n (index + 1) s policy task now group ids

-- `cursor = cursor + 1, virtual_finish = virtual_finish + group_size / weight`; `share` is the float
-- quotient.
abbrev pub to_served : (ℕ → ℕ → ℕ) → Source → Source
to_served share s = record s {
  cursor = s.cursor + 1;
  virtual_finish = s.virtual_finish + share s.group_size s.weight;
}

-- `creation_key`: 0 stands for `manual:` and a source for `source:…:occurrence:`.
abbrev pub occurrence_key : Source → ℕ × ℕ
occurrence_key s = (s.source_id + 1, s.cursor)

abbrev pub group_of_key : ℕ × ℕ → List Group → Option Group
group_of_key k [] = none
group_of_key k (g ∷ gs) = if same_pair g.creation_key k then some g else group_of_key k gs

pub record CreatedGroup : Type 0 where
  pub group_id : ℕ
  pub sequence : ℕ
  pub source_id : ℕ
  pub source_cursor : ℕ
  pub assignments : List RolloutAssignment

abbrev pub index_of_before : Assignment → Assignment → Bool
index_of_before x y = leb x.group_index y.group_index

-- The source of one call, its policy row and the identifiers that the call may use.
pub record Serving : Type 0 where
  pub source : Source
  pub policy : Policy
  pub task : ℕ
  pub now : ℕ
  pub group_id : ℕ
  pub ids : ℕ → ℕ

module _ (share : ℕ → ℕ → ℕ) where
  abbrev pub advance_source : ℕ → Db → Db
  advance_source k db = record db { sources = update source_key k (to_served share) db.sources }

  -- The occurrence has a group already: only the cursor moves.
  unfoldable pub adopt_group : Serving → Group → Tx Db CreatedGroup
  adopt_group c g = do
    rows ←
        gets (λ db. order_by index_of_before (keep (λ a. a.group_id == g.group_id) db.assignments))
    guard (length rows == c.source.group_size) conflict
    modify (advance_source c.source.source_id)
    pure (record {
      group_id = g.group_id;
      sequence = g.sequence;
      source_id = c.source.source_id;
      source_cursor = c.source.cursor;
      assignments = map (λ a. a.assignment_json) rows;
    })

  unfoldable pub open_group : Serving → Tx Db CreatedGroup
  unfolding allocate_group_sequence insert_group insert_assignment
  open_group c = do
    sequence ← allocate_group_sequence
    let items =
        source_assignments c.source.group_size 0 c.source c.policy.manifest_json c.task c.now
          c.group_id c.ids
    insert_group (record {
      group_id = c.group_id;
      policy_id = c.policy.policy_id;
      kind = c.source.kind;
      environment_id = c.source.environment_id;
      environment_revision = c.source.environment_revision;
      task_json = c.task;
      sampling_json = c.source.sampling_json;
      group_size = c.source.group_size;
      state = GroupState.collecting;
      created_at = c.now;
      creation_key = occurrence_key c.source;
      sequence = sequence;
      source_id = some c.source.source_id;
    })
    for_each items (insert_assignment c.policy.manifest_digest c.source.max_attempts)
    modify (advance_source c.source.source_id)
    pure (record {
      group_id = c.group_id;
      sequence = sequence;
      source_id = c.source.source_id;
      source_cursor = c.source.cursor;
      assignments = items;
    })

  abbrev pub serve_occurrence : Serving → Option Group → Tx Db CreatedGroup
  serve_occurrence c none = open_group c
  serve_occurrence c (some g) = adopt_group c g

  abbrev pub serve_source : Bool → ℕ → ℕ → (ℕ → ℕ) → Option Source → Tx Db (Option CreatedGroup)
  serve_source verified now group ids none = pure none
  serve_source verified now group ids (some s) = do
    policy ← require invalid_state active_policy_row
    guard verified artifact_corruption
    task ← require value (λ _. nth s.tasks (s.cursor % length s.tasks))
    let c =
        let v : Serving = record {
          source = s;
          policy = policy;
          task = task;
          now = now;
          group_id = group;
          ids = ids;
        } in
        v
    existing ← gets (λ db. group_of_key (occurrence_key s) db.groups)
    created ← serve_occurrence c existing
    pure (some created)

  -- `create_next_group`
  unfoldable pub create_next_group :
      Option Kind → Bool → ℕ → ℕ → (ℕ → ℕ) → Tx Db (Option CreatedGroup)
  unfolding adopt_group open_group
  create_next_group kind verified now group ids = do
    source ← gets (next_source kind)
    serve_source verified now group ids source
