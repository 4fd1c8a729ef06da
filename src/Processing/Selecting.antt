-- ===== src/Processing/Selecting.antt =====
-- `_select_policy_homogeneous_batch` of src/aether_rl/coordinator/results.py. A text is a number, the
-- empty one 0.
use aether_rl.Prelude.{
  ℕ, suc, ◌+◌, Bool, false, Option, none, some, List, [], ◌∷◌, ◌++◌, ◌&&◌, ◌||◌, not, ltb, leb,
  ◌==◌, any, keep, length, holds_some, if◌then◌else◌,
}
use aether_rl.Dict.{get?, or_default, alter, keys}

pub record Pending : Type 0 where
  pub group_id : ℕ
  pub ordinal : ℕ
  pub token_count : ℕ
  pub artifact_path : ℕ
  pub artifact_digest : ℕ
  pub size_bytes : ℕ

-- What is read of a `TrainingSample`.
pub record Sample : Type 0 where
  pub token_ids : List ℕ
  pub behavior_policy_version : Option ℕ
  pub behavior_policy_digest : Option ℕ

pub record RolloutPayload : Type 0 where
  pub samples : List Sample
  pub token_count : ℕ

pub record GroupPayload : Type 0 where
  pub policy_id : ℕ
  pub policy_version : ℕ
  pub policy_digest : ℕ
  pub adapter_digest : Option ℕ
  pub rollouts : List RolloutPayload

abbrev pub Identity : Type 0
Identity = ℕ × ℕ

unfoldable pub same_identity : Identity → Identity → Bool
same_identity i j = i.0 == j.0 && i.1 == j.1

-- `text or other`
abbrev pub text_or : Option ℕ → ℕ → ℕ
text_or none other = other
text_or (some text) other = if text == 0 then other else text

-- `_payload_policy_identity`
unfoldable pub payload_identity : GroupPayload → Identity
payload_identity p =
    (p.policy_version, text_or p.adapter_digest (text_or (some p.policy_digest) p.policy_id))

-- `batch_size` and `token_batch_size` of the processor.
pub record Sizes : Type 0 where
  pub batch_size : Option ℕ
  pub token_batch_size : Option ℕ

-- The checks of `__init__` on them.
abbrev pub size_is_valid : Option ℕ → Option ℕ → Bool
size_is_valid none none = false
size_is_valid none (some t) = not (ltb t 1)
size_is_valid (some n) none = not (ltb n 1)
size_is_valid (some n) (some t) = false

unfoldable pub sizes_are_valid : Sizes → Bool
sizes_are_valid z = size_is_valid z.batch_size z.token_batch_size

-- The end of the two loops: a size that is configured is reached.
unfoldable pub reached : Sizes → ℕ → ℕ → Bool
reached z rollouts tokens =
    holds_some (λ n. leb n rollouts) z.batch_size
    || holds_some (λ t. leb t tokens) z.token_batch_size

-- The condition of `ready`.
abbrev pub is_enough_by : Option ℕ → ℕ → ℕ → ℕ → Bool
is_enough_by none least rollouts tokens = leb least tokens
is_enough_by (some n) least rollouts tokens = leb n rollouts

unfoldable pub is_enough : Sizes → ℕ → ℕ → Bool
is_enough z rollouts tokens =
    is_enough_by z.batch_size (or_default 0 z.token_batch_size) rollouts tokens

pub record Parts : Type 0 where
  pub partitions : List (Identity × List Pending)
  pub tokens : List (Identity × ℕ)
  pub first_index : List (Identity × ℕ)

abbrev pub no_parts : Parts
no_parts = record { partitions = []; tokens = []; first_index = [] }

-- `min(ready, key=…)`: the first of the least.
unfoldable pub least : (Identity → ℕ) → Identity → List Identity → Identity
least key best [] = best
least key best (i ∷ is) = least key (if ltb (key i) (key best) then i else best) is

abbrev pub rollouts_in : Parts → Identity → List Pending
rollouts_in d i = or_default [] (get? same_identity i d.partitions)

abbrev pub tokens_in : Parts → Identity → ℕ
tokens_in d i = or_default 0 (get? same_identity i d.tokens)

abbrev pub first_in : Parts → Identity → ℕ
first_in d i = or_default 0 (get? same_identity i d.first_index)

-- `payload_of` is the dictionary `payloads`, of the artifacts that were read.
module _ (payload_of : ℕ → GroupPayload) where
  unfoldable pub identity_of : Pending → Identity
  unfolding payload_identity
  identity_of r = payload_identity (payload_of r.artifact_path)

  abbrev pub add_part : ℕ → Pending → Parts → Parts
  add_part index r d =
      let i = identity_of r in
      record {
        partitions = alter same_identity i [] (λ rs. rs ++ r ∷ []) d.partitions;
        tokens = alter same_identity i 0 (λ t. t + r.token_count) d.tokens;
        first_index = alter same_identity i index (λ k. k) d.first_index;
      }

  -- `for index, rollout in enumerate(pending)`
  unfoldable pub collect : ℕ → Parts → List Pending → Parts
  unfolding identity_of
  collect index d [] = d
  collect index d (r ∷ rs) = collect (suc index) (add_part index r d) rs

module _ (z : Sizes) where
  -- The comprehension goes over the items; an item is a key and what the dictionary has there.
  unfoldable pub ready : Parts → List Identity
  unfolding is_enough
  ready d = keep (λ i. is_enough z (length (rollouts_in d i)) (tokens_in d i)) (keys d.partitions)

  -- The last loop.
  unfoldable pub take_enough : ℕ → ℕ → List Pending → List Pending
  unfolding reached
  take_enough rollouts tokens [] = []
  take_enough rollouts tokens (r ∷ rs) =
      let later = take_enough (suc rollouts) (tokens + r.token_count) rs in
      if reached z (suc rollouts) (tokens + r.token_count) then r ∷ [] else r ∷ later

  abbrev pub select_from : Parts → List Identity → List Pending
  select_from d [] = []
  select_from d (i ∷ is) = take_enough 0 0 (rollouts_in d (least (first_in d) i is))

module _ (z : Sizes) (payload_of : ℕ → GroupPayload) where
  -- The first loop: whether the batch that ends with the rollout that reaches a size, without regard
  -- to the policies, mixes them; `seen` is `prefix_identities`.
  unfoldable pub mixes : ℕ → ℕ → List Identity → List Pending → Bool
  unfolding reached identity_of
  mixes rollouts tokens seen [] = false
  mixes rollouts tokens seen (r ∷ rs) =
      let i = identity_of payload_of r in
      let now = if any (same_identity i) seen then seen else i ∷ seen in
      let later = mixes (suc rollouts) (tokens + r.token_count) now rs in
      if reached z (suc rollouts) (tokens + r.token_count) then ltb 1 (length now) else later

  -- `_select_policy_homogeneous_batch`
  unfoldable pub select_batch : List Pending → List Pending
  unfolding collect ready least take_enough
  select_batch pending =
      let d = collect payload_of 0 no_parts pending in select_from z d (ready z d)
