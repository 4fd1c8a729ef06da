-- ===== src/Batch/Padding.antt =====
-- `pad_micro_batch`, `_make_dummy_batch` and `_pad_group_for_distribution` of trainer/batch.py.
use mathlib.Core.Option
use aether_rl.Prelude.{
  ℕ, zero, suc, ◌+◌, ◌-◌, ◌*◌, ◌%◌, false, Option, none, some, List, [], ◌∷◌, ◌++◌, ◌&&◌, ◌==◌, ltb,
  not, length, replicate, if◌then◌else◌,
}
use aether_rl.Tx.{Result, ok, err, value}
use aether_rl.Batch.Data.{MicroBatch, RoutedExperts}

-- `values[-1] += n`; the code's lists have a last element.
abbrev pub add_last : ℕ → List ℕ → List ℕ
add_last n [] = []
add_last n (x ∷ []) = (x + n) ∷ []
add_last n (x ∷ y ∷ ys) = x ∷ add_last n (y ∷ ys)

abbrev pub add_first : ℕ → List ℕ → List ℕ
add_first n [] = []
add_first n (x ∷ xs) = (x + n) ∷ xs

-- `list(range(n))` from `start`
abbrev pub range_from : ℕ → ℕ → List ℕ
range_from start zero = []
range_from start (suc n) = start ∷ range_from (start + 1) n

abbrev pub fill : ℕ → ℕ → Option (List ℕ) → Option (List ℕ)
fill n x none = none
fill n x (some xs) = some (xs ++ replicate n x)

abbrev pub padding_of : ℕ → ℕ → ℕ
padding_of multiple n = (multiple - n % multiple) % multiple

-- `_routed_experts_row_size` in bytes; `itemsize` is numpy's, of the dtype.
module _ (itemsize : ℕ → ℕ) where
  abbrev pub row_size : RoutedExperts → ℕ
  row_size r = row_of r.shape
    where
      row_of : List ℕ → ℕ
      row_of (a ∷ b ∷ c ∷ []) = b * c * itemsize r.dtype
      row_of (a ∷ b ∷ c ∷ d ∷ rest) = b * c * itemsize r.dtype
      row_of (a ∷ b ∷ []) = 0
      row_of (a ∷ []) = 0
      row_of [] = 0

  -- `_pad_routed_experts`
  abbrev pub pad_routed : ℕ → Option RoutedExperts → Option RoutedExperts
  pad_routed n none = none
  pad_routed n (some r) =
      some
        (record r { data_ = r.data_ ++ replicate (n * row_size r) 0; shape = add_first n r.shape })

  abbrev pub padded : ℕ → MicroBatch → MicroBatch
  padded n b = record {
    input_ids = b.input_ids ++ replicate n 1;
    advantages = b.advantages ++ replicate n 0;
    loss_mask = b.loss_mask ++ replicate n false;
    position_ids = b.position_ids ++ range_from 0 n;
    inference_logprobs = b.inference_logprobs ++ replicate n 0;
    sequence_lengths = add_last n b.sequence_lengths;
    ref_logprobs = fill n 0 b.ref_logprobs;
    temperatures = b.temperatures ++ replicate n 1;
    lora_num_tokens = Option.map (add_last n) b.lora_num_tokens;
    routed_experts = pad_routed n b.routed_experts;
    mm_token_type_ids = fill n 0 b.mm_token_type_ids;
    env_names = b.env_names ++ replicate n 0;
    mm_kwargs = b.mm_kwargs;
    rl_weights = fill n 0 b.rl_weights;
    ce_weights = fill n 0 b.ce_weights;
    ref_kl_weights = fill n 0 b.ref_kl_weights;
    seq_lens = add_last n b.seq_lens;
  }

  -- `pad_micro_batch`, of a positive multiple
  unfoldable pub pad_micro_batch : MicroBatch → ℕ → Result MicroBatch
  pad_micro_batch b multiple =
      let n = padding_of multiple (length b.input_ids) in
      if not (length b.env_names == length b.input_ids)
      then err value
      else if ltb 1 multiple && ltb 0 n
      then ok (padded n b)
      else ok b

-- `_make_dummy_batch`
abbrev pub make_dummy : MicroBatch → MicroBatch
make_dummy b = record b {
  advantages = replicate (length b.input_ids) 0;
  loss_mask = replicate (length b.input_ids) false;
  rl_weights = none;
  ce_weights = none;
  ref_kl_weights = none;
}

-- `_pad_group_for_distribution`; `-n % w` in Python is between 0 and `w - 1`.
unfoldable pub pad_group : ℕ → List MicroBatch → List MicroBatch
pad_group workers [] = []
pad_group workers (b ∷ bs) =
    b ∷ bs ++ replicate ((workers - length (b ∷ bs) % workers) % workers) (make_dummy b)
