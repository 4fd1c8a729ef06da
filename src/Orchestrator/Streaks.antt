-- ===== src/Orchestrator/Streaks.antt =====
-- What `RepetitionFilter.check` looks for, and what `apply_filters` decides.
use aether_rl.Prelude.{
  ℕ, zero, suc, ◌+◌, ◌≤◌, ◌≡◌, ◌∙◌, refl, Bool, true, false, Bool-cases, inl, inr, List, [], ◌∷◌,
  ◌&&◌, ◌||◌, arith, any,
}
use aether_rl.Orchestrator.Filters.{Rollout, Repetition, zip2, streak, check_repetition}

module _ {F : Type 0} (confident : F → Bool) where
  -- The first `n` sampled tokens of the stream are there and are all confident.
  abbrev pub starts_run : ℕ → List F → Bool
  starts_run zero ls = true
  starts_run (suc n) [] = false
  starts_run (suc n) (l ∷ ls) = confident l && starts_run n ls

  -- `n` confident tokens follow each other somewhere in the stream.
  unfoldable pub has_run : ℕ → List F → Bool
  has_run n [] = starts_run n []
  has_run n (l ∷ ls) = starts_run n (l ∷ ls) || has_run n ls

  starts_run_mono :
      (m n : ℕ) (ls : List F) → m ≤ n → starts_run n ls ≡ true → starts_run m ls ≡ true
  starts_run_mono zero n ls le h = refl
  starts_run_mono (suc m) zero ls le h = absurd (omega (arith, le))
  starts_run_mono (suc m) (suc n) [] le h = h
  starts_run_mono (suc m) (suc n) (l ∷ ls) le h = elim (Bool-cases (confident l)) [
    | inl y ↦ rw y (starts_run_mono m n ls (omega (arith, le)) (ground (arith, h)))
    | inr n' ↦ absurd (ground (arith, h))
  ]

  has_run-first : (n : ℕ) (ls : List F) → starts_run n ls || has_run n ls ≡ has_run n ls
  unfolding has_run
  has_run-first n [] = ground arith
  has_run-first n (l ∷ ls) = ground arith

-- The sampled tokens of a stream.
abbrev pub sampled_of : {F : Type 0} → List (F × Bool) → List F
sampled_of [] = []
sampled_of ((l, true) ∷ rest) = l ∷ sampled_of rest
sampled_of ((l, false) ∷ rest) = sampled_of rest

module _ {F : Type 0} (lt : F → F → Bool) (v : ℕ) (threshold : F) where
  streak-has_run :
      (c d : ℕ) (xs : List (F × Bool))
      → v ≡ c + d
      → streak lt (suc v) threshold c xs
        ≡ starts_run (lt threshold) (suc d) (sampled_of xs)
          || has_run (lt threshold) (suc v) (sampled_of xs)
  unfolding streak has_run
  streak-has_run c d [] e = refl
  streak-has_run c d ((l, false) ∷ rest) e = streak-has_run c d rest e
  streak-has_run c zero ((l, true) ∷ rest) e = elim (Bool-cases (lt threshold l)) [
    | inl y ↦ rw y (ground (arith, e))
    | inr n ↦ rw n (
        ground (
          arith,
          streak-has_run 0 v rest (omega arith),
          has_run-first (lt threshold) (suc v) (sampled_of rest),
        ))
  ]
  streak-has_run c (suc d) ((l, true) ∷ rest) e = elim (Bool-cases (lt threshold l)) [
    | inl y ↦ rw y (
        ground (
          arith,
          e,
          streak-has_run (suc c) d rest (omega (arith, e)),
          starts_run_mono (lt threshold) (suc d) v (sampled_of rest) (omega (arith, e)),
        ))
    | inr n ↦ rw n (
        ground (
          arith,
          streak-has_run 0 v rest (omega arith),
          has_run-first (lt threshold) (suc v) (sampled_of rest),
        ))
  ]

any-cong :
    {A : Type 0} (p q : A → Bool) → ((x : A) → p x ≡ q x) → (xs : List A) → any p xs ≡ any q xs
any-cong p q h [] = refl
any-cong p q h (x ∷ xs) = rw (h x, any-cong p q h xs) refl

streak_start :
    {F : Type 0} (lt : F → F → Bool) (w : ℕ) (threshold : F) (xs : List (F × Bool))
    → 1 ≤ w
    → streak lt w threshold 0 xs ≡ has_run (lt threshold) w (sampled_of xs)
streak_start lt zero threshold xs pos = absurd (omega (arith, pos))
streak_start lt (suc v) threshold xs pos =
    streak-has_run lt v threshold 0 v xs (omega arith)
    ∙ has_run-first (lt threshold) (suc v) (sampled_of xs)

-- With a window of at least one token, as the configuration requires, a rollout is flagged exactly
-- when, in one of its branches, `window` sampled tokens that follow each other among the sampled
-- ones all have a log probability above the threshold.
pub check_repetition-has_run :
    {F : Type 0} (lt : F → F → Bool) (f : Repetition F) (r : Rollout F)
    → 1 ≤ f.window
    → check_repetition lt f r
      ≡ any
          (λ b.
            has_run (lt f.logprob_threshold) f.window (sampled_of (zip2 b.logprobs b.sampled_mask)))
          r.branches
unfolding check_repetition
check_repetition-has_run lt f r pos =
    any-cong _ _
      (λ b. streak_start lt f.window f.logprob_threshold (zip2 b.logprobs b.sampled_mask) pos)
      r.branches
