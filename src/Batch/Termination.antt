-- ===== src/Batch/Termination.antt =====
-- The rounds of `_expand_bins_by_splitting`.
use aether_rl.Prelude.{
  ℕ, zero, suc, ◌+◌, ◌≤◌, ◌<◌, ◌≡◌, ◌∙◌, ◌⊎◌, refl, ap, Bool, true, false, Bool-cases, inl, inr,
  Option, none, some, List, [], ◌∷◌, arith, ltb, leb, length, length-append, if◌then◌else◌,
}
use aether_rl.Batch.Bins.{Bin, workload}
use aether_rl.Batch.Packing.{
  is_splittable, pick, heaviest, split_at, split_best, continue_with, expand,
}

-- A candidate's index is below a number.
abbrev IsBelow : ℕ → Option (ℕ × ℕ) → Type 0
IsBelow n none = Unit
IsBelow n (some (w, i)) = i < n

IsBelow-mono : (m n : ℕ) (o : Option (ℕ × ℕ)) → m ≤ n → IsBelow m o → IsBelow n o
IsBelow-mono m n none le h = tt
IsBelow-mono m n (some (w, i)) le h = omega (arith, le, h)

IsBelow-pick : (w i : ℕ) (o : Option (ℕ × ℕ)) → IsBelow i o → IsBelow (i + 1) (pick w i o)
IsBelow-pick w i none h = omega arith
IsBelow-pick w i (some (v, j)) h = elim (Bool-cases (leb v w)) [
  | inl y ↦ rw y (omega arith)
  | inr n ↦ rw n (omega (arith, h))
]

module _ (bin_cost : List ℕ → ℕ) where
  IsBelow-better :
      (c : Bool) (w i : ℕ) (o : Option (ℕ × ℕ))
      → IsBelow i o
      → IsBelow (i + 1) (if c then pick w i o else o)
  IsBelow-better true w i o h = IsBelow-pick w i o h
  IsBelow-better false w i o h = IsBelow-mono i (i + 1) o (omega arith) h

  IsBelow-heaviest :
      (i : ℕ) (bins : List Bin) (o : Option (ℕ × ℕ))
      → IsBelow i o
      → IsBelow (i + length bins) (heaviest bin_cost i bins o)
  IsBelow-heaviest i [] o h = IsBelow-mono i (i + 0) o (omega arith) h
  IsBelow-heaviest i (b ∷ bs) o h =
      let best = if is_splittable b then pick (workload bin_cost b) i o else o in
      IsBelow-mono (i + 1 + length bs) (i + length (b ∷ bs)) (heaviest bin_cost (i + 1) bs best)
        (omega arith)
        (IsBelow-heaviest (i + 1) bs best
          (IsBelow-better (is_splittable b) (workload bin_cost b) i o h))

  length-split_at :
      (i : ℕ) (bins : List Bin)
      → i < length bins
      → length (split_at bin_cost i bins) ≡ suc (length bins)
  length-split_at i [] h = absurd (omega (arith, h))
  length-split_at zero (b ∷ bs) h = ap suc (length-append bs _ ∙ omega arith)
  length-split_at (suc i) (b ∷ bs) h = ap suc (length-split_at i bs (omega (arith, h)))

  -- There are as many bins as asked for, or none can be split.
  abbrev pub IsExpanded : ℕ → List Bin → Type 0
  IsExpanded target bins = (target ≤ length bins) ⊎ (heaviest bin_cost 0 bins none ≡ none)

  choice-IsExpanded :
      (again : List Bin → List Bin) (fuel target : ℕ) (bins : List Bin) (o : Option (ℕ × ℕ))
      → heaviest bin_cost 0 bins none ≡ o
      → IsBelow (length bins) o
      → target ≤ suc fuel + length bins
      → ((bs : List Bin) → target ≤ fuel + length bs → IsExpanded target (again bs))
      → IsExpanded target (continue_with bin_cost again bins (split_best bin_cost bins o))
  choice-IsExpanded again fuel target bins none e b h k = inr e
  choice-IsExpanded again fuel target bins (some (w, i)) e b h k =
      k (split_at bin_cost i bins) (omega (arith, h, length-split_at i bins b))

  expand-IsExpanded :
      (fuel target : ℕ) (bins : List Bin)
      → target ≤ fuel + length bins
      → IsExpanded target (expand bin_cost fuel target bins)
  unfolding expand
  expand-IsExpanded zero target bins h = inl (omega (arith, h))
  expand-IsExpanded (suc fuel) target bins h = elim (Bool-cases (ltb (length bins) target)) [
    | inl y ↦ rw y (
        choice-IsExpanded (expand bin_cost fuel target) fuel target bins
          (heaviest bin_cost 0 bins none) refl
          (IsBelow-mono (0 + length bins) (length bins) _ (omega arith)
            (IsBelow-heaviest 0 bins none tt))
          h (expand-IsExpanded fuel target))
    | inr n ↦ rw n (inl (ground arith))
  ]

-- With the target as its fuel, the loop of `_expand_bins_by_splitting` ends for the reason that the
-- code has: there are as many bins as the target, or no bin can be split.
pub expand-ends :
    (bin_cost : List ℕ → ℕ) (target : ℕ) (bins : List Bin)
    → (target ≤ length (expand bin_cost target target bins))
      ⊎ (heaviest bin_cost 0 (expand bin_cost target target bins) none ≡ none)
expand-ends bin_cost target bins = expand-IsExpanded bin_cost target target bins (omega arith)
