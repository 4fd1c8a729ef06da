-- ===== src/Batch/Data.antt =====
-- `MicroBatch`, `RoutedExperts` and `EncodedTensor` of transport/types.py, as trainer/batch.py uses
-- them. Tokens, names and floats are numbers that are copied; 0.0 is 0, 1.0 is 1 and `""` is 0.
use aether_rl.Prelude.{ℕ, Bool, Option, List}

pub record RoutedExperts : Type 0 where
  pub data_ : List ℕ
  pub shape : List ℕ
  pub dtype : ℕ

pub record EncodedTensor : Type 0 where
  pub dtype : ℕ
  pub shape : List ℕ
  pub data_ : List ℕ

pub record MicroBatch : Type 0 where
  pub input_ids : List ℕ
  pub advantages : List ℕ
  pub loss_mask : List Bool
  pub position_ids : List ℕ
  pub inference_logprobs : List ℕ
  pub sequence_lengths : List ℕ
  pub ref_logprobs : Option (List ℕ)
  pub temperatures : List ℕ
  pub lora_num_tokens : Option (List ℕ)
  pub routed_experts : Option RoutedExperts
  pub mm_token_type_ids : Option (List ℕ)
  pub env_names : List ℕ
  pub mm_kwargs : Option (List (ℕ × EncodedTensor))
  pub rl_weights : Option (List ℕ)
  pub ce_weights : Option (List ℕ)
  pub ref_kl_weights : Option (List ℕ)
  pub seq_lens : List ℕ
