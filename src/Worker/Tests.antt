-- ===== src/Worker/Tests.antt =====
-- A cache of three policies.
use aether_rl.Prelude.{ℕ, ◌≡◌, ◌≤◌, refl, true, some, List, [], ◌∷◌, arith, ◌==◌, IsUnique}
use aether_rl.Dict.{get?}
use aether_rl.Worker.Cache.{
  CachedPolicy, Manifest, AdapterCache, World, path_of, total_bytes, is_kept, without, remove_entry,
  retain, enforce_retention, vacate, make_space, ensure_locked, ensure, got, fails, CacheError,
  pinned, released_references, unpinned, mark_unloaded, opened,
}
use aether_rl.Worker.Retention.{
  IsRetained, enforce_retention-IsRetained, Vacated, make_space-Vacated, opened-fits,
}
use aether_rl.Worker.Ensuring.{IsEnsured, ensure-IsEnsured, released_references-pinned}

abbrev policy : ℕ → ℕ → CachedPolicy
policy id size = record { path = id; policy_id = id; size_bytes = size }

abbrev three : List CachedPolicy
three = policy 1 40 ∷ policy 2 30 ∷ policy 3 20 ∷ []

-- The first policy is loaded, the second one was used before the third one.
abbrev full : AdapterCache
full = record {
  max_bytes = 70;
  cached = three;
  present = 1 ∷ 2 ∷ 3 ∷ [];
  incoming = [];
  references = [];
  loaded = 1 ∷ [];
  last_used = (1, 5) ∷ (2, 6) ∷ (3, 7) ∷ [];
}

distinct_paths : IsUnique path_of three
distinct_paths = (
  ((λ e. absurd (ground (arith, e))), ((λ e. absurd (ground (arith, e))), tt)),
  (((λ e. absurd (ground (arith, e))), tt), (tt, tt)),
)

enforce_retention-IsRetained_example : IsRetained (is_kept full) three 70 (enforce_retention full)
enforce_retention-IsRetained_example = enforce_retention-IsRetained full distinct_paths

-- The least recently used of the two that may go is gone.
test_enforce_retention : (enforce_retention full).cached ≡ policy 1 40 ∷ policy 3 20 ∷ []
unfolding enforce_retention retain is_kept remove_entry without
test_enforce_retention = refl

make_space-Vacated_example : Vacated (is_kept full) three 25 full (make_space 25 full)
make_space-Vacated_example = make_space-Vacated 25 full distinct_paths

-- Two policies go for 25 bytes; 40 bytes are too many.
test_make_space :
    (make_space 25 full ≡ got tt (record full { cached = policy 1 40 ∷ []; present = 1 ∷ [] }))
    × (make_space 40 full
        ≡ fails CacheError.no_capacity
            (record full { cached = policy 1 40 ∷ []; present = 1 ∷ [] }))
unfolding make_space vacate is_kept remove_entry without
test_make_space = (refl, refl)

opened-fits_example : total_bytes (opened 50 three []).cached ≤ 50
opened-fits_example = opened-fits 50 three [] distinct_paths

abbrev wanted : Manifest
wanted = record { policy_id = 4; path = 4; adapter_size = some 25 }

abbrev world : World
world = record { verifies = true; partial = 5 ∷ []; fetched = true; now = 9 }

abbrev ensured : AdapterCache
ensured = record {
  max_bytes = 70;
  cached = policy 1 40 ∷ policy 4 25 ∷ [];
  present = 4 ∷ 1 ∷ [];
  incoming = [];
  references = [];
  loaded = 1 ∷ [];
  last_used = (1, 5) ∷ (2, 6) ∷ (3, 7) ∷ (4, 9) ∷ [];
}

ensure_run : ensure world wanted full ≡ got (some (policy 4 25)) ensured
unfolding ensure ensure_locked make_space vacate is_kept remove_entry without
ensure_run = refl

ensure-IsEnsured_example : IsEnsured wanted 25 full (some (policy 4 25)) ensured
ensure-IsEnsured_example =
    ensure-IsEnsured world wanted 25 full ensured (some (policy 4 25)) distinct_paths refl refl
      ensure_run

-- The pin of a policy that another call has pinned.
abbrev shared_cache : AdapterCache
shared_cache = record full { references = (2, 1) ∷ (3, 2) ∷ [] }

released_references-pinned_example :
    get? ◌==◌ 2 (released_references 2 (pinned 2 8 shared_cache))
    ≡ get? ◌==◌ 2 shared_cache.references
released_references-pinned_example =
    released_references-pinned 2 8 2 shared_cache (λ e. absurd (ground (arith, e)))

-- A policy that was unloaded and whose pin is released may go.
test_unpinned :
    (unpinned 2 8 (mark_unloaded 1 (pinned 2 7 full))).cached ≡ policy 2 30 ∷ policy 3 20 ∷ []
unfolding unpinned mark_unloaded pinned released_references enforce_retention retain is_kept
    remove_entry without
test_unpinned = refl
