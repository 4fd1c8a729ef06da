-- ===== src/Batch/Capacity.antt =====
-- The lengths of the bins of `packed_samples_into_micro_bs`.
use aether_rl.Prelude.{
  ℕ, zero, suc, ◌+◌, ◌≤◌, ◌≡◌, refl, Bool, Bool-cases, inl, inr, Option, none, some, List, [], ◌∷◌,
  ◌++◌, map, arith, ltb, leb, All, All-append, All-order_by, sum, length, order_by, place,
}
use aether_rl.Batch.Data.{MicroBatch}
use aether_rl.Batch.Bins.{
  Bin, tokens, from_sample, can_add, add, sample_tokens, heavier, cost, deal, split_by_workload,
}
use aether_rl.Batch.Packing.{
  packs_before, put, put_all, split_at, split_best, heaviest, continue_with, expand, target_count,
  pack_bins,
}

abbrev pub total : List (ℕ × MicroBatch) → ℕ
total ps = sum (map sample_tokens ps)

abbrev pub IsFilled : ℕ → Bin → Type 0
IsFilled m b = (b.length_ ≡ total b.samples) × (b.length_ ≤ m)

total-append : (ps qs : List (ℕ × MicroBatch)) → total (ps ++ qs) ≡ total ps + total qs
total-append [] qs = omega arith
total-append (p ∷ ps) qs = omega (arith, total-append ps qs)

module _ (before : ℕ × MicroBatch → ℕ × MicroBatch → Bool) where
  total-place :
      (p : ℕ × MicroBatch) (ps : List (ℕ × MicroBatch))
      → total (place before p ps) ≡ sample_tokens p + total ps
  total-place p [] = refl
  total-place p (q ∷ ps) = elim (Bool-cases (before p q)) [
    | inl y ↦ rw y refl
    | inr n ↦ rw n (omega (arith, total-place p ps))
  ]

  total-order_by : (ps : List (ℕ × MicroBatch)) → total (order_by before ps) ≡ total ps
  total-order_by [] = refl
  total-order_by (p ∷ ps) = omega (arith, total-place p (order_by before ps), total-order_by ps)

module _ (m : ℕ) where
  abbrev pub IsShort : ℕ × MicroBatch → Type 0
  IsShort p = sample_tokens p ≤ m

  put-IsFilled :
      (lora : ℕ) (s : MicroBatch) (bins : List Bin)
      → tokens s ≤ m
      → All (IsFilled m) bins
      → All (IsFilled m) (put m (lora, s) bins)
  unfolding put from_sample add can_add
  put-IsFilled lora s [] h f = ((omega arith, h), tt)
  put-IsFilled lora s (b ∷ bs) h f = elim (Bool-cases (can_add b s m lora)) [
    | inl y ↦
        rw y ((omega (arith, total-append b.samples ((lora, s) ∷ []), f.0.0), (ground arith)), f.1)
    | inr n ↦ rw n (f.0, put-IsFilled lora s bs h f.1)
  ]

  put_all-IsFilled :
      (ps : List (ℕ × MicroBatch)) (bins : List Bin)
      → All IsShort ps
      → All (IsFilled m) bins
      → All (IsFilled m) (put_all m ps bins)
  unfolding put_all
  put_all-IsFilled [] bins h f = f
  put_all-IsFilled ((l, s) ∷ ps) bins h f =
      put_all-IsFilled ps (put m (l, s) bins) h.1 (put-IsFilled l s bins h.0 f)

  module _ (bin_cost : List ℕ → ℕ) where
    deal-total :
        (ps left right : List (ℕ × MicroBatch)) (lw rw' : ℕ)
        → total (deal bin_cost ps left right lw rw').0
            + total (deal bin_cost ps left right lw rw').1
          ≡ total left + total right + total ps
    unfolding deal
    deal-total [] left right lw rw' = omega arith
    deal-total (p ∷ ps) left right lw rw' = elim (Bool-cases (leb lw rw')) [
      | inl y ↦ rw y (
          omega (
            arith,
            deal-total ps (left ++ p ∷ []) right (lw + cost bin_cost p) rw',
            total-append left (p ∷ []),
          ))
      | inr n ↦ rw n (
          omega (
            arith,
            deal-total ps left (right ++ p ∷ []) lw (rw' + cost bin_cost p),
            total-append right (p ∷ []),
          ))
    ]

    split-total :
        (b : Bin)
        → (split_by_workload bin_cost b).0.length_ + (split_by_workload bin_cost b).1.length_
          ≡ total b.samples
    unfolding split_by_workload
    split-total b = omega (
      arith,
      deal-total (order_by (heavier bin_cost) b.samples) [] [] 0 0,
      total-order_by (heavier bin_cost) b.samples,
    )

    split-IsFilled :
        (b : Bin)
        → IsFilled m b
        → IsFilled m (split_by_workload bin_cost b).0 × IsFilled m (split_by_workload bin_cost b).1
    unfolding split_by_workload
    split-IsFilled b f =
        let t = split-total b in ((refl, omega (arith, f.0, f.1)), (refl, omega (arith, f.0, f.1)))

    split_at-IsFilled :
        (i : ℕ) (bins : List Bin)
        → All (IsFilled m) bins
        → All (IsFilled m) (split_at bin_cost i bins)
    split_at-IsFilled i [] f = tt
    split_at-IsFilled zero (b ∷ bs) f =
        let (l, r) = split-IsFilled b f.0 in (l, All-append (IsFilled m) bs _ f.1 (r, tt))
    split_at-IsFilled (suc i) (b ∷ bs) f = (f.0, split_at-IsFilled i bs f.1)

    choice-IsFilled :
        (again : List Bin → List Bin) (bins : List Bin) (o : Option (ℕ × ℕ))
        → ((bs : List Bin) → All (IsFilled m) bs → All (IsFilled m) (again bs))
        → All (IsFilled m) bins
        → All (IsFilled m) (continue_with bin_cost again bins (split_best bin_cost bins o))
    choice-IsFilled again bins none k f = f
    choice-IsFilled again bins (some (w, i)) k f =
        k (split_at bin_cost i bins) (split_at-IsFilled i bins f)

    expand-IsFilled :
        (fuel target : ℕ) (bins : List Bin)
        → All (IsFilled m) bins
        → All (IsFilled m) (expand bin_cost fuel target bins)
    unfolding expand
    expand-IsFilled zero target bins f = f
    expand-IsFilled (suc fuel) target bins f = elim (Bool-cases (ltb (length bins) target)) [
      | inl y ↦ rw y (
          choice-IsFilled (expand bin_cost fuel target) bins (heaviest bin_cost 0 bins none)
            (expand-IsFilled fuel target) f)
      | inr n ↦ rw n f
    ]

-- Where no sample is longer than the sequence length, no bin is, after the packing and the splits, and
-- the length of each bin is the sum of its samples' lengths.
pub pack_bins-IsFilled :
    (bin_cost : List ℕ → ℕ) (samples : List (ℕ × MicroBatch)) (max_seq_len workers : ℕ)
    → All (IsShort max_seq_len) samples
    → All (IsFilled max_seq_len) (pack_bins bin_cost samples max_seq_len workers)
unfolding pack_bins
pack_bins-IsFilled bin_cost samples max_seq_len workers h =
    let bins = put_all max_seq_len (order_by packs_before samples) [] in
    let target = target_count bin_cost workers (length bins) in
    let packed =
      put_all-IsFilled max_seq_len (order_by packs_before samples) []
        (All-order_by packs_before (IsShort max_seq_len) samples h) tt in
    elim (Bool-cases (ltb 1 workers)) [
      | inl y ↦ rw y (expand-IsFilled max_seq_len bin_cost target target bins packed)
      | inr n ↦ rw n packed
    ]
