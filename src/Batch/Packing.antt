-- ===== src/Batch/Packing.antt =====
-- `packed_samples_into_micro_bs` of trainer/batch.py up to the bins, and `_expand_bins_by_splitting`.
use aether_rl.Prelude.{
  ℕ, zero, suc, ◌+◌, ◌-◌, ◌*◌, ◌/◌, max, Bool, Option, none, some, List, [], ◌∷◌, ◌++◌, ◌&&◌, ◌||◌,
  ◌==◌, ltb, leb, is_none, length, order_by, if◌then◌else◌,
}
use aether_rl.Batch.Data.{MicroBatch}
use aether_rl.Batch.Bins.{
  Bin, from_sample, can_add, add, tokens, first_multimodal, workload, split_by_workload,
}

-- `key=lambda x: (x[0], -len(x[1].input_ids))`
abbrev pub packs_before : ℕ × MicroBatch → ℕ × MicroBatch → Bool
packs_before (l, x) (m, y) = ltb l m || l == m && leb (tokens y) (tokens x)

-- The first bin that can take the sample takes it; otherwise it opens one.
unfoldable pub put : ℕ → ℕ × MicroBatch → List Bin → List Bin
put max_seq_len (lora, s) [] = from_sample lora s ∷ []
put max_seq_len (lora, s) (b ∷ bs) =
    let later = put max_seq_len (lora, s) bs in
    if can_add b s max_seq_len lora then add b lora s ∷ bs else b ∷ later

unfoldable pub put_all : ℕ → List (ℕ × MicroBatch) → List Bin → List Bin
unfolding put
put_all max_seq_len [] bins = bins
put_all max_seq_len (p ∷ ps) bins = put_all max_seq_len ps (put max_seq_len p bins)

abbrev pub is_splittable : Bin → Bool
is_splittable b = ltb 1 (length b.samples) && is_none (first_multimodal b.samples)

abbrev pub pick : ℕ → ℕ → Option (ℕ × ℕ) → Option (ℕ × ℕ)
pick w i none = some (w, i)
pick w i (some (v, j)) = if leb v w then some (w, i) else some (v, j)

module _ (bin_cost : List ℕ → ℕ) where
  -- `max(candidates)` on pairs of workload and index: the heaviest, the last among equals.
  abbrev pub heaviest : ℕ → List Bin → Option (ℕ × ℕ) → Option (ℕ × ℕ)
  heaviest i [] best = best
  heaviest i (b ∷ bs) best =
      heaviest (i + 1) bs (if is_splittable b then pick (workload bin_cost b) i best else best)

  -- `bins[idx] = left`, with `right` to append.
  abbrev pub split_at : ℕ → List Bin → List Bin
  split_at i [] = []
  split_at zero (b ∷ bs) =
      let (left, right) = split_by_workload bin_cost b in left ∷ bs ++ right ∷ []
  split_at (suc i) (b ∷ bs) = b ∷ split_at i bs

  abbrev pub split_best : List Bin → Option (ℕ × ℕ) → Option (List Bin)
  split_best bins none = none
  split_best bins (some (w, i)) = some (split_at i bins)

  abbrev pub continue_with : (List Bin → List Bin) → List Bin → Option (List Bin) → List Bin
  continue_with again bins none = bins
  continue_with again bins (some split) = again split

  -- `_expand_bins_by_splitting`: each round appends a bin, so `target_count` rounds are enough.
  unfoldable pub expand : ℕ → ℕ → List Bin → List Bin
  expand zero target bins = bins
  expand (suc fuel) target bins =
      let again = expand fuel target in
      if ltb (length bins) target
      then continue_with again bins (split_best bins (heaviest 0 bins none))
      else bins

  -- The target of `packed_samples_into_micro_bs`.
  abbrev pub target_count : ℕ → ℕ → ℕ
  target_count workers n = max ((n + workers - 1) / workers * workers) workers

  unfoldable pub pack_bins : List (ℕ × MicroBatch) → ℕ → ℕ → List Bin
  unfolding put_all expand
  pack_bins samples max_seq_len workers =
      let bins = put_all max_seq_len (order_by packs_before samples) [] in
      let target = target_count workers (length bins) in
      if ltb 1 workers then expand target target bins else bins
