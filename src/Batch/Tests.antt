-- ===== src/Batch/Tests.antt =====
-- The packing and the padding at concrete samples.
use mathlib.Core.List.{Perm}
use aether_rl.Prelude.{
  ◌≤◌, ◌⊎◌, ℕ, ◌<◌, ◌%◌, ◌≡◌, refl, arith, true, none, some, List, [], ◌∷◌, ◌++◌, All, length,
  replicate, sum,
}
use aether_rl.Batch.Data.{MicroBatch}
use aether_rl.Batch.Packing.{expand, heaviest, pack_bins}
use aether_rl.Batch.Bins.{Bin}
use aether_rl.Batch.Termination.{expand-ends}
use aether_rl.Batch.Padding.{pad_group}
use aether_rl.Batch.Conservation.{flat, pack_bins-perm}
use aether_rl.Batch.Capacity.{IsFilled, pack_bins-IsFilled}
use aether_rl.Batch.Materialize.{materialize_bin}
use aether_rl.Batch.Materializing.{IsText, materialize_bin-returns}
use aether_rl.Batch.Alignment.{IsAligned, IsDummy, pad_group-divides}

abbrev sample : ℕ → MicroBatch
sample n = record {
  input_ids = replicate n 3;
  advantages = replicate n 2;
  loss_mask = replicate n true;
  position_ids = replicate n 0;
  inference_logprobs = replicate n 4;
  sequence_lengths = n ∷ [];
  ref_logprobs = none;
  temperatures = replicate n 1;
  lora_num_tokens = none;
  routed_experts = none;
  mm_token_type_ids = none;
  env_names = replicate n 6;
  mm_kwargs = none;
  rl_weights = none;
  ce_weights = some (replicate n 1);
  ref_kl_weights = none;
  seq_lens = n ∷ [];
}

abbrev samples : List (ℕ × MicroBatch)
samples = (0, sample 2) ∷ (0, sample 5) ∷ (1, sample 3) ∷ []

pack_bins-perm_example : Perm (flat (pack_bins sum samples 6 2)) samples
pack_bins-perm_example = pack_bins-perm sum samples 6 2

pack_bins-IsFilled_example : All (IsFilled 6) (pack_bins sum samples 6 2)
pack_bins-IsFilled_example =
    pack_bins-IsFilled sum samples 6 2 (omega arith, (omega arith, (omega arith, tt)))

sample-IsAligned : IsAligned (sample 3)
sample-IsAligned = record {
  loss_mask = refl;
  advantages = refl;
  inference_logprobs = refl;
  position_ids = refl;
  temperatures = refl;
  env_names = refl;
  ref_logprobs = tt;
  rl_weights = tt;
  ce_weights = refl;
  ref_kl_weights = tt;
  mm_token_type_ids = tt;
  sequence_lengths = refl;
  seq_lens = refl;
}

pad_group-divides_example :
    (dummies : List MicroBatch) × (pad_group 4 (sample 3 ∷ []) ≡ sample 3 ∷ [] ++ dummies)
    × All IsDummy dummies
    × (length dummies < 4)
    × (length (pad_group 4 (sample 3 ∷ [])) % 4 ≡ 0)
pad_group-divides_example = pad_group-divides 4 (sample 3 ∷ []) (omega arith)

abbrev one_bin : List Bin
one_bin = (record { samples = samples; length_ = 10 }) ∷ []

expand-ends_example :
    (2 ≤ length (expand sum 2 2 one_bin)) ⊎ (heaviest sum 0 (expand sum 2 2 one_bin) none ≡ none)
expand-ends_example = expand-ends sum 2 one_bin

-- The second sample has no `ce_weights`: it gets zeros.
abbrev unweighted : MicroBatch
unweighted = record (sample 2) { ce_weights = none }

unweighted-IsAligned : IsAligned unweighted
unweighted-IsAligned = record {
  loss_mask = refl;
  advantages = refl;
  inference_logprobs = refl;
  position_ids = refl;
  temperatures = refl;
  env_names = refl;
  ref_logprobs = tt;
  rl_weights = tt;
  ce_weights = tt;
  ref_kl_weights = tt;
  mm_token_type_ids = tt;
  sequence_lengths = refl;
  seq_lens = refl;
}

abbrev two_samples : Bin
two_samples = record { samples = (0, sample 3) ∷ (1, unweighted) ∷ []; length_ = 5 }

two_samples-IsAligned : All (λ p. IsAligned p.1) two_samples.samples
two_samples-IsAligned = (sample-IsAligned, (unweighted-IsAligned, tt))

two_samples-IsText : All (IsText 2) two_samples.samples
two_samples-IsText = (
  record { lora = omega arith; experts = refl; kwargs = refl },
  (record { lora = omega arith; experts = refl; kwargs = refl }, tt),
)

materialize_bin-returns_example : (c : MicroBatch) × (materialize_bin 2 two_samples ≡ some c)
materialize_bin-returns_example =
    materialize_bin-returns 2 two_samples two_samples-IsAligned two_samples-IsText

abbrev materialized : MicroBatch
materialized = record {
  input_ids = 3 ∷ 3 ∷ 3 ∷ 3 ∷ 3 ∷ [];
  advantages = 2 ∷ 2 ∷ 2 ∷ 2 ∷ 2 ∷ [];
  loss_mask = true ∷ true ∷ true ∷ true ∷ true ∷ [];
  position_ids = 0 ∷ 0 ∷ 0 ∷ 0 ∷ 0 ∷ [];
  inference_logprobs = 4 ∷ 4 ∷ 4 ∷ 4 ∷ 4 ∷ [];
  sequence_lengths = 3 ∷ 2 ∷ [];
  ref_logprobs = none;
  temperatures = 1 ∷ 1 ∷ 1 ∷ 1 ∷ 1 ∷ [];
  lora_num_tokens = some (3 ∷ 2 ∷ []);
  routed_experts = none;
  mm_token_type_ids = none;
  env_names = 6 ∷ 6 ∷ 6 ∷ 6 ∷ 6 ∷ [];
  mm_kwargs = none;
  rl_weights = none;
  ce_weights = some (1 ∷ 1 ∷ 1 ∷ 0 ∷ 0 ∷ []);
  ref_kl_weights = none;
  seq_lens = 3 ∷ 2 ∷ [];
}
