-- ===== src/Orchestrator/Trajectories.antt =====
-- src/aether_rl/orchestrator/trajectories.py. A `vf.Branch` is what the code reads of it; an
-- image's tensors and their encoding stay abstract.
use aether_rl.Prelude.{
  ℕ, ◌-◌, Bool, false, Option, none, some, List, [], ◌∷◌, ◌++◌, ◌&&◌, not, ltb, ◌==◌, any, map,
  length, take, replicate, if◌then◌else◌,
}

-- `ident` is `id(node)`.
pub record Node : Type 0 where
  pub ident : ℕ
  pub sampled : Bool
  pub mask : List Bool

-- `F` are the floats, `M` the images of a branch, `R` one token's row of routed experts.
pub record TraceBranch (F M R : Type 0) : Type 0 where
  pub nodes : List Node
  pub token_ids : List ℕ
  pub logprobs : List F
  pub multi_modal_data : Option M
  pub routed_experts : Option (List R)

pub record TrainingSample (F K R : Type 0) : Type 0 where
  pub token_ids : List ℕ
  pub mask : List Bool
  pub logprobs : List F
  pub temperatures : List F
  pub env_name : ℕ
  pub mm_kwargs : Option K
  pub mm_token_type_ids : Option (List ℕ)
  pub routed_experts : Option (List R)

abbrev pub is_true : Bool → Bool
is_true b = b

-- `node.sampled and any(node.mask)`
abbrev pub is_trainable : Node → Bool
is_trainable n = n.sampled && any is_true n.mask

abbrev pub is_in : ℕ → List ℕ → Bool
is_in k ks = any (λ j. j == k) ks

-- What the loop over the nodes appends to the mask, and what it leaves in `trained_nodes`.
unfoldable pub emitted : List ℕ → Node → List Bool
emitted trained n =
    if is_trainable n && is_in n.ident trained then replicate (length n.mask) false else n.mask

unfoldable pub trained_after : List ℕ → Node → List ℕ
trained_after trained n =
    if is_trainable n && not (is_in n.ident trained) then n.ident ∷ trained else trained

unfoldable pub mask_nodes : List ℕ → List Node → List ℕ × List Bool
unfolding emitted trained_after
mask_nodes trained [] = (trained, [])
mask_nodes trained (n ∷ ns) =
    let rest = mask_nodes (trained_after trained n) ns in (rest.0, emitted trained n ++ rest.1)

module _ {F M R : Type 0} where
  -- The loop of `iter_trainable_branches`, from a value of `trained_nodes`.
  unfoldable pub iter_from :
      List ℕ → List (TraceBranch F M R) → List (TraceBranch F M R × List Bool)
  unfolding mask_nodes
  iter_from trained [] = []
  iter_from trained (b ∷ bs) =
      let walked = mask_nodes trained b.nodes in
      let rest = iter_from walked.0 bs in
      if any is_true walked.1 then (b, walked.1) ∷ rest else rest

  unfoldable pub iter_trainable_branches :
      List (TraceBranch F M R) → List (TraceBranch F M R × List Bool)
  unfolding iter_from
  iter_trainable_branches branches = iter_from [] branches

-- The realignment of `_encode_routed_experts`; `zero_row` is a row of zeros.
unfoldable pub realign : {R : Type 0} → R → ℕ → List R → List R
realign zero_row num_tokens rows =
    if ltb num_tokens (length rows)
    then take num_tokens rows
    else if ltb (length rows) num_tokens
    then rows ++ replicate (num_tokens - length rows) zero_row
    else rows

unfoldable pub encode_routed_experts : {R : Type 0} → R → Option (List R) → ℕ → Option (List R)
unfolding realign
encode_routed_experts zero_row none num_tokens = none
encode_routed_experts zero_row (some rows) num_tokens = some (realign zero_row num_tokens rows)

-- `mapping.get(t, 0)`
abbrev pub get_or_zero : List (ℕ × ℕ) → ℕ → ℕ
get_or_zero [] t = 0
get_or_zero ((k, v) ∷ rest) t = if k == t then v else get_or_zero rest t

abbrev pub type_ids : {M : Type 0} → List (ℕ × ℕ) → List ℕ → Option M → Option (List ℕ)
type_ids mapping token_ids none = none
type_ids mapping token_ids (some m) = some (map (get_or_zero mapping) token_ids)

-- `encode_mm_kwargs` encodes a branch's images.
abbrev pub encoded_kwargs : {M K : Type 0} → (M → Option K) → Option M → Option K
encoded_kwargs encode_mm_kwargs none = none
encoded_kwargs encode_mm_kwargs (some m) = encode_mm_kwargs m

module _ {F M K R : Type 0} (encode_mm_kwargs : M → Option K) (zero_row : R) where
  unfoldable pub sample_of : ℕ → List (ℕ × ℕ) → TraceBranch F M R × List Bool → TrainingSample F K R
  unfolding encode_routed_experts
  sample_of env mapping (b, m) = record {
    token_ids = b.token_ids;
    mask = m;
    logprobs = b.logprobs;
    temperatures = [];
    env_name = env;
    mm_kwargs = encoded_kwargs encode_mm_kwargs b.multi_modal_data;
    mm_token_type_ids = type_ids mapping b.token_ids b.multi_modal_data;
    routed_experts = encode_routed_experts zero_row b.routed_experts (length b.token_ids);
  }

  unfoldable pub trace_to_samples :
      ℕ → List (ℕ × ℕ) → List (TraceBranch F M R) → List (TrainingSample F K R)
  unfolding iter_trainable_branches sample_of
  trace_to_samples env mapping branches =
      map (sample_of env mapping) (iter_trainable_branches branches)
