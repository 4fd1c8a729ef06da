-- ===== src/Batch/Bins.antt =====
-- `_MicroBatchBin` of trainer/batch.py.
use aether_rl.Prelude.{
  ℕ, ◌+◌, Bool, true, false, Option, none, some, List, [], ◌∷◌, ◌++◌, ◌&&◌, not, ◌==◌, ltb, leb,
  all, sum, map, length, order_by, is_none, is_some, if◌then◌else◌,
}
use aether_rl.Batch.Data.{MicroBatch, EncodedTensor, RoutedExperts}

abbrev pub tokens : MicroBatch → ℕ
tokens s = length s.input_ids

-- A bin is never empty where the code reads `samples[0]`; an empty one has no first sample here.
pub record Bin : Type 0 where
  pub samples : List (ℕ × MicroBatch)
  pub length_ : ℕ

unfoldable pub from_sample : ℕ → MicroBatch → Bin
from_sample lora s = record { samples = (lora, s) ∷ []; length_ = tokens s }

abbrev pub is_multimodal : MicroBatch → Bool
is_multimodal s = is_some s.mm_kwargs

abbrev pub first_multimodal : List (ℕ × MicroBatch) → Option MicroBatch
first_multimodal [] = none
first_multimodal ((lora, s) ∷ rest) = if is_multimodal s then some s else first_multimodal rest

abbrev pub same_shape : List ℕ → List ℕ → Bool
same_shape [] [] = true
same_shape [] (y ∷ ys) = false
same_shape (x ∷ xs) [] = false
same_shape (x ∷ xs) (y ∷ ys) = x == y && same_shape xs ys

-- The test on one tensor: the dtypes, and the shapes after the first dimension, which both have.
abbrev pub same_rows : List ℕ → List ℕ → Bool
same_rows [] ys = false
same_rows (x ∷ xs) [] = false
same_rows (x ∷ xs) (y ∷ ys) = same_shape xs ys

abbrev pub tensor_of : ℕ → List (ℕ × EncodedTensor) → Option EncodedTensor
tensor_of k [] = none
tensor_of k ((j, t) ∷ rest) = if j == k then some t else tensor_of k rest

abbrev pub joins : EncodedTensor → Option EncodedTensor → Bool
joins t none = false
joins t (some u) = t.dtype == u.dtype && same_rows t.shape u.shape

-- `set(dst) == set(src) and all(…)`
abbrev pub fits_dst : List (ℕ × EncodedTensor) → ℕ × EncodedTensor → Bool
fits_dst src (k, t) = joins t (tensor_of k src)

abbrev pub has_key : List (ℕ × EncodedTensor) → ℕ × EncodedTensor → Bool
has_key dst (k, t) = is_some (tensor_of k dst)

abbrev pub compatible_kwargs :
    Option (List (ℕ × EncodedTensor)) → Option (List (ℕ × EncodedTensor)) → Bool
compatible_kwargs none src = true
compatible_kwargs (some dst) none = true
compatible_kwargs (some dst) (some src) = all (has_key dst) src && all (fits_dst src) dst

abbrev pub kwargs_of : Option MicroBatch → Option (List (ℕ × EncodedTensor))
kwargs_of none = none
kwargs_of (some s) = s.mm_kwargs

-- The test of the modality, once the lengths fit; `existing` is `first_multimodal_sample`.
abbrev pub modality_fits : Option MicroBatch → ℕ → ℕ → MicroBatch → Bool
modality_fits existing first_lora lora s =
    if is_none existing && not (is_multimodal s)
    then true
    else if not (first_lora == lora)
    then false
    else compatible_kwargs (kwargs_of existing) s.mm_kwargs

abbrev pub both_or_neither : Option RoutedExperts → Option RoutedExperts → Bool
both_or_neither none none = true
both_or_neither none (some y) = false
both_or_neither (some x) none = false
both_or_neither (some x) (some y) = true

abbrev pub joins_first : List (ℕ × MicroBatch) → MicroBatch → ℕ → Bool
joins_first [] s lora = false
joins_first ((l, x) ∷ rest) s lora =
    both_or_neither x.routed_experts s.routed_experts
    && modality_fits (first_multimodal ((l, x) ∷ rest)) l lora s

-- `can_add`
unfoldable pub can_add : Bin → MicroBatch → ℕ → ℕ → Bool
can_add b s max_seq_len lora =
    not (ltb max_seq_len (b.length_ + tokens s)) && joins_first b.samples s lora

-- `add`
unfoldable pub add : Bin → ℕ → MicroBatch → Bin
add b lora s = record { samples = b.samples ++ (lora, s) ∷ []; length_ = b.length_ + tokens s }

abbrev pub sample_tokens : ℕ × MicroBatch → ℕ
sample_tokens (lora, s) = tokens s

-- `bin_cost` is a function of `trainer/utils.py`'s caller, on the lengths of the samples of a bin.
module _ (bin_cost : List ℕ → ℕ) where
  abbrev pub cost : ℕ × MicroBatch → ℕ
  cost p = bin_cost (sample_tokens p ∷ [])

  unfoldable pub workload : Bin → ℕ
  workload b = bin_cost (map sample_tokens b.samples)

  -- `key=lambda pair: -bin_cost(…)`
  abbrev pub heavier : ℕ × MicroBatch → ℕ × MicroBatch → Bool
  heavier p q = leb (cost q) (cost p)

  -- The loop of `split_by_workload`, with the workloads of the two sides.
  unfoldable pub deal :
      List (ℕ × MicroBatch)
      → List (ℕ × MicroBatch)
      → List (ℕ × MicroBatch)
      → ℕ
      → ℕ
      → List (ℕ × MicroBatch) × List (ℕ × MicroBatch)
  deal [] left right lw rw' = (left, right)
  deal (p ∷ ps) left right lw rw' =
      let to_left = deal ps (left ++ p ∷ []) right (lw + cost p) rw' in
      let to_right = deal ps left (right ++ p ∷ []) lw (rw' + cost p) in
      if leb lw rw' then to_left else to_right

  abbrev pub bin_of : List (ℕ × MicroBatch) → Bin
  bin_of ps = record { samples = ps; length_ = sum (map sample_tokens ps) }

  -- `split_by_workload`
  unfoldable pub split_by_workload : Bin → Bin × Bin
  unfolding deal
  split_by_workload b =
      let sides = deal (order_by heavier b.samples) [] [] 0 0 in (bin_of sides.0, bin_of sides.1)
