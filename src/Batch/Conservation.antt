-- ===== src/Batch/Conservation.antt =====
-- The samples in the bins of `packed_samples_into_micro_bs`.
use mathlib.Core.List.Perm
use mathlib.Core.List.{Perm, append_assoc, append-nil}
use aether_rl.Prelude.{
  ℕ, zero, suc, ◌+◌, ◌≡◌, ◌∙◌, refl, sym, ap, Bool-cases, inl, inr, Option, none, some, List, [],
  ◌∷◌, ◌++◌, ltb, leb, perm_of_eq, perm_middle, perm_comm, perm_last, length, order_by,
  order_by-perm,
}
use aether_rl.Batch.Data.{MicroBatch}
use aether_rl.Batch.Bins.{Bin, from_sample, can_add, add, heavier, cost, deal, split_by_workload}
use aether_rl.Batch.Packing.{
  packs_before, put, put_all, split_at, split_best, heaviest, continue_with, expand, target_count,
  pack_bins,
}

abbrev pub flat : List Bin → List (ℕ × MicroBatch)
flat [] = []
flat (b ∷ bs) = b.samples ++ flat bs

flat-append : (xs ys : List Bin) → flat (xs ++ ys) ≡ flat xs ++ flat ys
flat-append [] ys = refl
flat-append (b ∷ bs) ys =
    ap (λ z. b.samples ++ z) (flat-append bs ys) ∙ sym (append_assoc b.samples (flat bs) (flat ys))

module _ (m lora : ℕ) (s : MicroBatch) where
  put-perm : (bins : List Bin) → Perm (flat (put m (lora, s) bins)) ((lora, s) ∷ flat bins)
  unfolding put from_sample add
  put-perm [] = Perm.refl ((lora, s) ∷ [])
  put-perm (b ∷ bs) = elim (Bool-cases (can_add b s m lora)) [
    | inl y ↦ rw y (
        rw (append_assoc b.samples ((lora, s) ∷ []) (flat bs))
          (perm_middle (lora, s) b.samples (flat bs)))
    | inr n ↦ rw n (
        Perm.trans (Perm.append_left b.samples (put-perm bs))
          (perm_middle (lora, s) b.samples (flat bs)))
  ]

put_all-perm :
    (m : ℕ) (ps : List (ℕ × MicroBatch)) (bins : List Bin)
    → Perm (flat (put_all m ps bins)) (ps ++ flat bins)
unfolding put_all
put_all-perm m [] bins = Perm.refl (flat bins)
put_all-perm m ((l, s) ∷ ps) bins =
    Perm.trans (put_all-perm m ps (put m (l, s) bins))
      (Perm.trans (Perm.append_left ps (put-perm m l s bins)) (perm_middle (l, s) ps (flat bins)))

module _ (bin_cost : List ℕ → ℕ) where
  deal-perm :
      (ps left right : List (ℕ × MicroBatch)) (lw rw' : ℕ)
      → Perm
          ((deal bin_cost ps left right lw rw').0 ++ (deal bin_cost ps left right lw rw').1)
          (left ++ right ++ ps)
  unfolding deal
  deal-perm [] left right lw rw' = perm_of_eq _ _ (sym (append-nil (left ++ right)))
  deal-perm (p ∷ ps) left right lw rw' = elim (Bool-cases (leb lw rw')) [
    | inl y ↦ rw y (
        Perm.trans (deal-perm ps (left ++ p ∷ []) right (lw + cost bin_cost p) rw')
          (perm_last p left right ps))
    | inr n ↦ rw n (
        Perm.trans (deal-perm ps left (right ++ p ∷ []) lw (rw' + cost bin_cost p)) (
          perm_of_eq _ _ (
            ap (λ z. z ++ ps) (sym (append_assoc left right (p ∷ [])))
            ∙ append_assoc (left ++ right) (p ∷ []) ps)))
  ]

  split-perm :
      (b : Bin)
      → Perm
          ((split_by_workload bin_cost b).0.samples ++ (split_by_workload bin_cost b).1.samples)
          b.samples
  unfolding split_by_workload
  split-perm b =
      Perm.trans (deal-perm (order_by (heavier bin_cost) b.samples) [] [] 0 0)
        (order_by-perm (heavier bin_cost) b.samples)

  split_at-perm : (i : ℕ) (bins : List Bin) → Perm (flat (split_at bin_cost i bins)) (flat bins)
  split_at-perm i [] = Perm.refl []
  split_at-perm zero (b ∷ bs) =
      let (l, r) = split_by_workload bin_cost b in
      rw (flat-append bs (r ∷ []), append-nil r.samples)
        (Perm.trans (Perm.append_left l.samples (perm_comm (flat bs) r.samples)) (
          Perm.trans (perm_of_eq _ _ (sym (append_assoc l.samples r.samples (flat bs))))
            (Perm.append_right (flat bs) (split-perm b))))
  split_at-perm (suc i) (b ∷ bs) = Perm.append_left b.samples (split_at-perm i bs)

  choice-perm :
      (again : List Bin → List Bin) (bins : List Bin) (o : Option (ℕ × ℕ))
      → ((bs : List Bin) → Perm (flat (again bs)) (flat bs))
      → Perm (flat (continue_with bin_cost again bins (split_best bin_cost bins o))) (flat bins)
  choice-perm again bins none k = Perm.refl (flat bins)
  choice-perm again bins (some (w, i)) k =
      Perm.trans (k (split_at bin_cost i bins)) (split_at-perm i bins)

  expand-perm :
      (fuel target : ℕ) (bins : List Bin)
      → Perm (flat (expand bin_cost fuel target bins)) (flat bins)
  unfolding expand
  expand-perm zero target bins = Perm.refl (flat bins)
  expand-perm (suc fuel) target bins = elim (Bool-cases (ltb (length bins) target)) [
    | inl y ↦ rw y (
        choice-perm (expand bin_cost fuel target) bins (heaviest bin_cost 0 bins none)
          (expand-perm fuel target))
    | inr n ↦ rw n (Perm.refl (flat bins))
  ]

-- Every sample is in one bin, as often as it was given, whatever the bins were split into.
pub pack_bins-perm :
    (bin_cost : List ℕ → ℕ) (samples : List (ℕ × MicroBatch)) (max_seq_len workers : ℕ)
    → Perm (flat (pack_bins bin_cost samples max_seq_len workers)) samples
unfolding pack_bins
pack_bins-perm bin_cost samples max_seq_len workers =
    let bins = put_all max_seq_len (order_by packs_before samples) [] in
    let target = target_count bin_cost workers (length bins) in
    let packed = Perm.trans (put_all-perm max_seq_len (order_by packs_before samples) []) (
      Perm.trans (perm_of_eq _ _ (append-nil (order_by packs_before samples)))
        (order_by-perm packs_before samples)) in
    elim (Bool-cases (ltb 1 workers)) [
      | inl y ↦ rw y (Perm.trans (expand-perm bin_cost target target bins) packed)
      | inr n ↦ rw n packed
    ]
