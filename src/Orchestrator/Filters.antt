-- ===== src/Orchestrator/Filters.antt =====
-- src/aether_rl/orchestrator/filters.py. A float is a value of a type `F` with the comparison that
-- the code makes; a filter's name is a number, as the names of the configurations are.
use aether_rl.Prelude.{
  ℕ, suc, Bool, true, false, Option, none, some, List, [], ◌∷◌, ◌&&◌, ltb, leb, ◌==◌, any, all, map,
  if◌then◌else◌,
}

-- The streams of a branch.
pub record Branch (F : Type 0) : Type 0 where
  pub token_ids : List ℕ
  pub logprobs : List F
  pub sampled_mask : List Bool

pub record Rollout (F : Type 0) : Type 0 where
  pub branches : List (Branch F)
  pub advantages : Option (List F)
  pub filter_results : List (ℕ × Bool)
  pub is_filtered : Bool

pub record Gibberish (F : Type 0) : Type 0 where
  pub name : ℕ
  pub token_id_threshold : ℕ
  pub logprob_threshold : F
  pub enforce : Bool

pub record Repetition (F : Type 0) : Type 0 where
  pub name : ℕ
  pub window : ℕ
  pub logprob_threshold : F
  pub enforce : Bool

pub record ZeroAdvantage : Type 0 where
  pub name : ℕ
  pub enforce : Bool

pub data RolloutFilter (F : Type 0) : Type 0 where
  gibberish : Gibberish F → RolloutFilter F
  repetition : Repetition F → RolloutFilter F
  zero_advantage : ZeroAdvantage → RolloutFilter F

module _ {F : Type 0} where
  abbrev pub name_of : RolloutFilter F → ℕ
  name_of (gibberish f) = f.name
  name_of (repetition f) = f.name
  name_of (zero_advantage f) = f.name

  abbrev pub enforces : RolloutFilter F → Bool
  enforces (gibberish f) = f.enforce
  enforces (repetition f) = f.enforce
  enforces (zero_advantage f) = f.enforce

  -- `zip(branch.token_ids, branch.logprobs, branch.sampled_mask)`: the shortest stream ends it.
  abbrev pub zip3 : List ℕ → List F → List Bool → List (ℕ × F × Bool)
  zip3 [] ls ss = []
  zip3 (t ∷ ts) [] ss = []
  zip3 (t ∷ ts) (l ∷ ls) [] = []
  zip3 (t ∷ ts) (l ∷ ls) (s ∷ ss) = (t, l, s) ∷ zip3 ts ls ss

  -- `zip(branch.logprobs, branch.sampled_mask)`
  abbrev pub zip2 : List F → List Bool → List (F × Bool)
  zip2 [] ss = []
  zip2 (l ∷ ls) [] = []
  zip2 (l ∷ ls) (s ∷ ss) = (l, s) ∷ zip2 ls ss

-- `lt x y` is the comparison `x < y` of floats.
module _ {F : Type 0} (lt : F → F → Bool) where
  -- The test of `GibberishFilter.check` on one token.
  abbrev pub is_rare : ℕ → F → ℕ × F × Bool → Bool
  is_rare id_threshold threshold (token_id, logprob, sampled) =
      if sampled then ltb id_threshold token_id && lt logprob threshold else false

  -- `GibberishFilter.check`
  unfoldable pub check_gibberish : Gibberish F → Rollout F → Bool
  check_gibberish f r =
      any
        (λ b.
          any (is_rare f.token_id_threshold f.logprob_threshold)
            (zip3 b.token_ids b.logprobs b.sampled_mask))
        r.branches

  -- The loop of `RepetitionFilter.check` over one branch, from a value of `consecutive`.
  unfoldable pub streak : ℕ → F → ℕ → List (F × Bool) → Bool
  streak window threshold consecutive [] = false
  streak window threshold consecutive ((logprob, false) ∷ rest) =
      streak window threshold consecutive rest
  streak window threshold consecutive ((logprob, true) ∷ rest) =
      let now = if lt threshold logprob then suc consecutive else 0 in
      let later = streak window threshold now rest in if leb window now then true else later

  -- `RepetitionFilter.check`
  unfoldable pub check_repetition : Repetition F → Rollout F → Bool
  unfolding streak
  check_repetition f r =
      any (λ b. streak f.window f.logprob_threshold 0 (zip2 b.logprobs b.sampled_mask)) r.branches

-- `filter_results[name] = value`
abbrev pub set_result : ℕ → Bool → List (ℕ × Bool) → List (ℕ × Bool)
set_result name value [] = (name, value) ∷ []
set_result name value ((n, v) ∷ rest) =
    let more = set_result name value rest in if n == name then (n, value) ∷ rest else (n, v) ∷ more

module _ {F : Type 0} where
  -- `{f.name: False for f in filters}`, in the order of the dictionary.
  abbrev pub all_false : List (RolloutFilter F) → List (ℕ × Bool) → List (ℕ × Bool)
  all_false [] results = results
  all_false (f ∷ fs) results = all_false fs (set_result (name_of f) false results)

  abbrev pub reset : List (RolloutFilter F) → Rollout F → Rollout F
  reset filters r = record r { filter_results = all_false filters []; is_filtered = false }

  -- What a detection does to the rollout.
  abbrev pub flag : RolloutFilter F → Rollout F → Rollout F
  flag f r = record r {
    filter_results = set_result (name_of f) true r.filter_results;
    is_filtered = if enforces f then true else r.is_filtered;
  }

-- `is_zero` is the comparison of a float with `0.0`.
module _ {F : Type 0} (lt : F → F → Bool) (is_zero : F → Bool) where
  -- `ZeroAdvantageFilter.check`
  abbrev pub all_zero : Option (List F) → Bool
  all_zero none = false
  all_zero (some advantages) = all is_zero advantages

  unfoldable pub check : RolloutFilter F → Rollout F → Bool
  unfolding check_gibberish check_repetition
  check (gibberish f) r = check_gibberish lt f r
  check (repetition f) r = check_repetition lt f r
  check (zero_advantage f) r = all_zero r.advantages

  -- The inner loop of `apply_filters`, which the first detection ends.
  unfoldable pub first_match : List (RolloutFilter F) → Rollout F → Rollout F
  unfolding check
  first_match [] r = r
  first_match (f ∷ fs) r = let rest = first_match fs r in if check f r then flag f r else rest

  unfoldable pub apply_filters : List (RolloutFilter F) → List (Rollout F) → List (Rollout F)
  unfolding first_match
  apply_filters [] rollouts = map (reset []) rollouts
  apply_filters (f ∷ fs) rollouts = map (first_match (f ∷ fs)) (map (reset (f ∷ fs)) rollouts)

-- `FilterConfig`: one constructor for each value of `type`.
pub data FilterConfig (F : Type 0) : Type 0 where
  gibberish_config : (token_id_threshold : ℕ) (logprob_offset : F) (enforce : Bool) → FilterConfig F
  repetition_config : (window : ℕ) (prob_threshold : F) (enforce : Bool) → FilterConfig F
  zero_advantage_config : (enforce : Bool) → FilterConfig F

-- `rare_below` is `-math.log(vocab_size) - offset`, and `log` is `math.log`. The names are those
-- of the three types, in the order of the constructors.
module _ {F : Type 0} (rare_below : ℕ → F → F) (log : F → F) where
  unfoldable pub setup_filter : FilterConfig F → ℕ → RolloutFilter F
  setup_filter (gibberish_config threshold offset e) vocab_size = gibberish record {
    name = 0;
    token_id_threshold = threshold;
    logprob_threshold = rare_below vocab_size offset;
    enforce = e;
  }
  setup_filter (repetition_config w threshold e) vocab_size =
      repetition record { name = 1; window = w; logprob_threshold = log threshold; enforce = e }
  setup_filter (zero_advantage_config e) vocab_size =
      zero_advantage record { name = 2; enforce = e }

  unfoldable pub setup_filters : List (FilterConfig F) → ℕ → List (RolloutFilter F)
  unfolding setup_filter
  setup_filters configs vocab_size = map (λ c. setup_filter c vocab_size) configs
