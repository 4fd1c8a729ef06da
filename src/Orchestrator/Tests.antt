-- ===== src/Orchestrator/Tests.antt =====
-- The filters and the samples of a trace on small rollouts, whose floats are numbers.
use aether_rl.Prelude.{
  ℕ, ◌+◌, ◌≡◌, refl, true, false, none, some, List, [], ◌∷◌, arith, ltb, ◌==◌, any, All, sum, keep,
  map,
}
use aether_rl.Orchestrator.Filters.{
  Branch, Rollout, Repetition, RolloutFilter, zip2, check_repetition, streak, apply_filters,
  first_match, check, FilterConfig, setup_filters, setup_filter,
}
use aether_rl.Orchestrator.Trajectories.{
  Node, TraceBranch, is_trainable, iter_trainable_branches, iter_from, mask_nodes, emitted,
  trained_after, trace_to_samples,
}
use aether_rl.Orchestrator.Streaks.{has_run, sampled_of, check_repetition-has_run}
use aether_rl.Orchestrator.Verdicts.{All2, Decided, apply_filters-Decided}
use aether_rl.Orchestrator.Masks.{trains, masked}
use aether_rl.Orchestrator.Credit.{
  all_nodes, trained_tokens, tokens_of, distinct, iter_trainable_branches-once,
}
use aether_rl.Orchestrator.Shapes.{IsSample, trace_to_samples-IsSample}

-- A prompt token, then four sampled tokens, the last three of them confident.
abbrev looping : Branch ℕ
looping = record {
  token_ids = 1 ∷ 2 ∷ 3 ∷ 4 ∷ 5 ∷ [];
  logprobs = 0 ∷ 2 ∷ 9 ∷ 9 ∷ 9 ∷ [];
  sampled_mask = false ∷ true ∷ true ∷ true ∷ true ∷ [];
}

abbrev looped : Rollout ℕ
looped = record {
  branches = looping ∷ [];
  advantages = some (0 ∷ 0 ∷ []);
  filter_results = [];
  is_filtered = false;
}

abbrev three : Repetition ℕ
three = record { name = 1; window = 3; logprob_threshold = 5; enforce = true }

check_repetition-has_run_example :
    check_repetition ltb three looped
    ≡ any (λ b. has_run (ltb 5) 3 (sampled_of (zip2 b.logprobs b.sampled_mask))) looped.branches
check_repetition-has_run_example = check_repetition-has_run ltb three looped (omega arith)

test_check_repetition : check_repetition ltb three looped ≡ true
unfolding check_repetition streak
test_check_repetition = refl

-- The filter of the repetition watches, and that of the advantages enforces.
abbrev watching : List (RolloutFilter ℕ)
watching =
    RolloutFilter.repetition record { name = 1; window = 3; logprob_threshold = 5; enforce = false }
    ∷ RolloutFilter.zero_advantage record { name = 2; enforce = true }
    ∷ []

apply_filters-Decided_example :
    All2
      (Decided ltb (λ a. a == 0) watching)
      (looped ∷ [])
      (apply_filters ltb (λ a. a == 0) watching (looped ∷ []))
apply_filters-Decided_example = apply_filters-Decided ltb (λ a. a == 0) watching (looped ∷ [])

-- The first detection ends the loop, so the filter that enforces is not asked.
test_apply_filters :
    map Rollout.is_filtered (apply_filters ltb (λ a. a == 0) watching (looped ∷ [])) ≡ false ∷ []
unfolding apply_filters first_match check check_repetition streak
test_apply_filters = refl

abbrev configs : List (FilterConfig ℕ)
configs = FilterConfig.repetition_config 3 4 true ∷ FilterConfig.zero_advantage_config false ∷ []

test_setup_filters :
    setup_filters (λ v o. v) (λ p. p + 1) configs 100
    ≡ RolloutFilter.repetition three
      ∷ RolloutFilter.zero_advantage record { name = 2; enforce = false }
      ∷ []
unfolding setup_filters setup_filter
test_setup_filters = refl

abbrev prompt : Node
prompt = record { ident = 1; sampled = false; mask = false ∷ false ∷ [] }

abbrev shared : Node
shared = record { ident = 2; sampled = true; mask = false ∷ true ∷ true ∷ [] }

abbrev fork : Node
fork = record { ident = 3; sampled = true; mask = true ∷ [] }

-- Two branches that share a sampled node, and a third one that is the first one's start.
abbrev trace : List (TraceBranch ℕ ℕ ℕ)
trace =
    record {
      nodes = prompt ∷ shared ∷ [];
      token_ids = 1 ∷ 2 ∷ 3 ∷ 4 ∷ 5 ∷ [];
      logprobs = 0 ∷ 0 ∷ 0 ∷ 6 ∷ 7 ∷ [];
      multi_modal_data = none;
      routed_experts = some (8 ∷ []);
    }
    ∷ record {
      nodes = prompt ∷ shared ∷ fork ∷ [];
      token_ids = 1 ∷ 2 ∷ 3 ∷ 4 ∷ 5 ∷ 6 ∷ [];
      logprobs = 0 ∷ 0 ∷ 0 ∷ 6 ∷ 7 ∷ 8 ∷ [];
      multi_modal_data = some 1;
      routed_experts = none;
    }
    ∷ record {
      nodes = prompt ∷ [];
      token_ids = 1 ∷ 2 ∷ [];
      logprobs = 0 ∷ 0 ∷ [];
      multi_modal_data = none;
      routed_experts = none;
    }
    ∷ []

iter_trainable_branches-once_example :
    (iter_trainable_branches trace ≡ keep trains (masked [] trace))
    × (trained_tokens (iter_trainable_branches trace)
        ≡ sum (map tokens_of (distinct (keep is_trainable (all_nodes trace)))))
iter_trainable_branches-once_example =
    iter_trainable_branches-once trace
      (none_of, (some_of, (none_of, (some_of, (some_of, (none_of, tt))))))
  where
    none_of : false ≡ false → ◌≡◌ {A = ℕ} 0 0
    none_of e = refl

    some_of : {n : ℕ} → true ≡ false → n ≡ 0
    some_of e = absurd (ground (arith, e))

test_iter_trainable_branches :
    map (λ p. p.1) (iter_trainable_branches trace)
    ≡ (false ∷ false ∷ false ∷ true ∷ true ∷ [])
      ∷ (false ∷ false ∷ false ∷ false ∷ false ∷ true ∷ [])
      ∷ []
unfolding iter_trainable_branches iter_from mask_nodes emitted trained_after
test_iter_trainable_branches = refl

trace_to_samples-IsSample_example :
    All IsSample (trace_to_samples (λ m. some m) 0 7 ((4, 1) ∷ []) trace)
trace_to_samples-IsSample_example =
    trace_to_samples-IsSample (λ m. some m) 0 7 ((4, 1) ∷ []) trace
      (
        record { token_ids = refl; logprobs = refl },
        (
          record { token_ids = refl; logprobs = refl },
          (record { token_ids = refl; logprobs = refl }, tt),
        ),
      )
