-- ===== src/Orchestrator/Verdicts.antt =====
-- The decision of `apply_filters` on each rollout.
use aether_rl.Prelude.{
  ◌≡◌, ◌∙◌, ◌⊎◌, refl, sym, subst, All-mono, ap, Bool, true, false, Bool-cases, inl, inr, List, [],
  ◌∷◌, ◌++◌, All, map, if◌then◌else◌,
}
use aether_rl.Orchestrator.Filters.{
  Rollout, RolloutFilter, check, check_gibberish, check_repetition, first_match, apply_filters,
  reset, flag, enforces, name_of, set_result, all_false,
}

abbrev pub All2 : {A B : Type 0} → (A → B → Type 0) → List A → List B → Type 0
All2 P [] [] = Unit
All2 P [] (y ∷ ys) = ⊥
All2 P (x ∷ xs) [] = ⊥
All2 P (x ∷ xs) (y ∷ ys) = P x y × All2 P xs ys

All2-map :
    {A B C : Type 0} (P : A → C → Type 0) (f : A → B) (g : B → C)
    → ((x : A) → P x (g (f x)))
    → (xs : List A) → All2 P xs (map g (map f xs))
All2-map P f g h [] = tt
All2-map P f g h (x ∷ xs) = (h x, All2-map P f g h xs)

module _ {F : Type 0} (lt : F → F → Bool) (is_zero : F → Bool) where
  -- No filter detects the rollout.
  abbrev pub Passes : List (RolloutFilter F) → Rollout F → Type 0
  Passes fs r = All (λ f. check lt is_zero f r ≡ false) fs

  -- `f` is the first of the filters that detects the rollout.
  pub record IsFirst (fs : List (RolloutFilter F)) (r : Rollout F) (f : RolloutFilter F)
      : Type 0 where
    pub before : List (RolloutFilter F)
    pub after : List (RolloutFilter F)
    pub split : fs ≡ before ++ f ∷ after
    pub passed : Passes before r
    pub detected : check lt is_zero f r ≡ true

  -- What became of a rollout: what its training data come from is kept, and its flags are those of
  -- the first filter that detects it.
  pub record Decided (fs : List (RolloutFilter F)) (r r' : Rollout F) : Type 0 where
    pub branches : r'.branches ≡ r.branches
    pub advantages : r'.advantages ≡ r.advantages
    pub verdict :
        (Passes fs r × (r'.is_filtered ≡ false) × (r'.filter_results ≡ all_false fs []))
        ⊎ (f : RolloutFilter F) × IsFirst fs r f
          × (r'.is_filtered ≡ enforces f)
          × (r'.filter_results ≡ set_result (name_of f) true (all_false fs []))

  first_match-verdict :
      (fs : List (RolloutFilter F)) (r : Rollout F)
      → (Passes fs r × (first_match lt is_zero fs r ≡ r))
        ⊎ ((f : RolloutFilter F) × IsFirst fs r f × (first_match lt is_zero fs r ≡ flag f r))
  unfolding first_match
  first_match-verdict [] r = inl (tt, refl)
  first_match-verdict (f ∷ fs) r = elim (Bool-cases (check lt is_zero f r)) [
    | inl y ↦
        rw y (
          inr
            (f, record { before = []; after = fs; split = refl; passed = tt; detected = y }, refl))
    | inr n ↦ rw n (elim (first_match-verdict fs r) [
      | inl (p, e) ↦ inl ((refl, p), e)
      | inr (g, i, e) ↦ inr (
        g,
        record {
          before = f ∷ i.before;
          after = i.after;
          split = ap (λ xs. f ∷ xs) i.split;
          passed = (n, i.passed);
          detected = i.detected;
        },
        e,
      )
    ])
  ]

  check-reset :
      (fs : List (RolloutFilter F)) (f : RolloutFilter F) (r : Rollout F)
      → check lt is_zero f (reset fs r) ≡ check lt is_zero f r
  unfolding check check_gibberish check_repetition
  check-reset fs (RolloutFilter.gibberish f) r = refl
  check-reset fs (RolloutFilter.repetition f) r = refl
  check-reset fs (RolloutFilter.zero_advantage f) r = refl

  Passes-reset :
      (gs fs : List (RolloutFilter F)) (r : Rollout F) → Passes fs (reset gs r) → Passes fs r
  Passes-reset gs fs r = All-mono _ _ (λ f e. sym (check-reset gs f r) ∙ e) fs

  Decided-of :
      (fs : List (RolloutFilter F)) (r : Rollout F)
      → Decided fs r (first_match lt is_zero fs (reset fs r))
  Decided-of fs r = elim (first_match-verdict fs (reset fs r)) [
    | inl (p, e) ↦ record {
      branches = ap Rollout.branches e;
      advantages = ap Rollout.advantages e;
      verdict = inl (Passes-reset fs fs r p, ap Rollout.is_filtered e, ap Rollout.filter_results e);
    }
    | inr (f, i, e) ↦ record {
      branches = ap Rollout.branches e;
      advantages = ap Rollout.advantages e;
      verdict = inr (
        f,
        record {
          before = i.before;
          after = i.after;
          split = i.split;
          passed = Passes-reset fs i.before r i.passed;
          detected = sym (check-reset fs f r) ∙ i.detected;
        },
        ap Rollout.is_filtered e ∙ filtered (enforces f),
        ap Rollout.filter_results e,
      );
    }
  ]
    where
      filtered : (b : Bool) → (if b then true else false) ≡ b
      filtered true = refl
      filtered false = refl

-- Each rollout keeps its branches and its advantages. When no filter detects it, it is not filtered
-- and every filter's result is false. Otherwise one filter detects it while those before that
-- one do not: the rollout is filtered exactly when that filter enforces, and that filter's result
-- is the only one that is set.
pub apply_filters-Decided :
    {F : Type 0} (lt : F → F → Bool) (is_zero : F → Bool) (fs : List (RolloutFilter F))
    (rs : List (Rollout F))
    → All2 (Decided lt is_zero fs) rs (apply_filters lt is_zero fs rs)
unfolding apply_filters first_match
apply_filters-Decided lt is_zero [] rs =
    subst (All2 (Decided lt is_zero []) rs) (map-id _)
      (All2-map (Decided lt is_zero []) (reset []) (λ r. r) (Decided-of lt is_zero []) rs)
  where
    map-id : {A : Type 0} (xs : List A) → map (λ x. x) xs ≡ xs
    map-id [] = refl
    map-id (x ∷ xs) = ap (λ ys. x ∷ ys) (map-id xs)
apply_filters-Decided lt is_zero (f ∷ fs) rs =
    All2-map (Decided lt is_zero (f ∷ fs)) (reset (f ∷ fs)) (first_match lt is_zero (f ∷ fs))
      (Decided-of lt is_zero (f ∷ fs)) rs
