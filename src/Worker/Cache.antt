-- ===== src/Worker/Cache.antt =====
-- `AdapterCache` of src/aether_rl/worker/policy_cache.py. A path stands for a policy's directory; what
-- the download of a policy does is an argument. The locks make each call one step.
use aether_rl.Prelude.{
  ℕ, ◌+◌, ◌-◌, Bool, Option, none, some, List, [], ◌∷◌, ◌++◌, ◌&&◌, ◌||◌, not, ltb, leb, ◌==◌, any,
  keep, sum, map, order_by, if◌then◌else◌,
}
use aether_rl.Table.{select}
use aether_rl.Dict.{get?, or_default, set, alter, pop}

pub record CachedPolicy : Type 0 where
  pub path : ℕ
  pub policy_id : ℕ
  pub size_bytes : ℕ

-- What is read of a `PolicyManifest`: its identifier, the directory of its content, and the size of
-- its adapter, where it has one.
pub record Manifest : Type 0 where
  pub policy_id : ℕ
  pub path : ℕ
  pub adapter_size : Option ℕ

-- `cached` is `_cached`, `present` are the directories, `incoming` are the sizes of the partial files.
pub record AdapterCache : Type 0 where
  pub max_bytes : ℕ
  pub cached : List CachedPolicy
  pub present : List ℕ
  pub incoming : List ℕ
  pub references : List (ℕ × ℕ)
  pub loaded : List ℕ
  pub last_used : List (ℕ × ℕ)

-- An `AdapterCacheError`, an `AdapterCacheCorruptionError`, or an error of the download.
pub data CacheError : Type 0 where
  too_large no_capacity corrupt fetch : CacheError

pub data Ensured (A : Type 0) : Type 0 where
  got : A → AdapterCache → Ensured A
  fails : CacheError → AdapterCache → Ensured A

abbrev pub path_of : CachedPolicy → ℕ
path_of e = e.path

abbrev pub contains : ℕ → List ℕ → Bool
contains k ks = any (λ j. j == k) ks

abbrev pub total_bytes : List CachedPolicy → ℕ
total_bytes es = sum (map CachedPolicy.size_bytes es)

-- `policy_id in self._loaded or self._references.get(policy_id, 0)`
unfoldable pub is_kept : AdapterCache → CachedPolicy → Bool
is_kept c e =
    contains e.policy_id c.loaded || ltb 0 (or_default 0 (get? ◌==◌ e.policy_id c.references))

abbrev pub used_at : AdapterCache → CachedPolicy → ℕ
used_at c e = or_default 0 (get? ◌==◌ e.policy_id c.last_used)

-- `(last_used, path.name)`; a directory has the name of its policy.
abbrev pub used_before : AdapterCache → CachedPolicy → CachedPolicy → Bool
used_before c x y =
    ltb (used_at c x) (used_at c y) || (used_at c x == used_at c y && leb x.policy_id y.policy_id)

unfoldable pub without : ℕ → List CachedPolicy → List CachedPolicy
without p es = keep (λ e. not (e.path == p)) es

-- `_remove_entry`
unfoldable pub remove_entry : ℕ → AdapterCache → AdapterCache
unfolding without
remove_entry p c = record c {
  cached = without p c.cached;
  present = keep (λ q. not (q == p)) c.present;
}

-- The loop of `enforce_retention`.
unfoldable pub retain : List CachedPolicy → ℕ → AdapterCache → AdapterCache
unfolding is_kept remove_entry
retain [] total c = c
retain (e ∷ es) total c =
    let skip = retain es total c in
    let drop = retain es (total - e.size_bytes) (remove_entry e.path c) in
    if is_kept c e
    then skip
    else if leb (total - e.size_bytes) c.max_bytes
    then remove_entry e.path c
    else drop

unfoldable pub enforce_retention : AdapterCache → AdapterCache
unfolding retain
enforce_retention c =
    if leb (total_bytes c.cached) c.max_bytes
    then c
    else retain (order_by (used_before c) c.cached) (total_bytes c.cached) c

-- The loop of `_make_space`, and the test after it.
unfoldable pub vacate : ℕ → List CachedPolicy → ℕ → AdapterCache → Ensured Unit
unfolding is_kept remove_entry
vacate required [] total c =
    if ltb c.max_bytes (total + required) then fails no_capacity c else got tt c
vacate required (e ∷ es) total c =
    let skip = vacate required es total c in
    let drop = vacate required es (total - e.size_bytes) (remove_entry e.path c) in
    if leb (total + required) c.max_bytes then got tt c else if is_kept c e then skip else drop

unfoldable pub make_space : ℕ → AdapterCache → Ensured Unit
unfolding vacate
make_space required c =
    vacate required (order_by (used_before c) c.cached) (total_bytes c.cached + sum c.incoming) c

abbrev pub touch : ℕ → ℕ → AdapterCache → AdapterCache
touch policy now c = record c { last_used = set ◌==◌ policy now c.last_used }

-- `self._cached[final_path] = cached`
abbrev pub store : CachedPolicy → AdapterCache → AdapterCache
store e c = record c { cached = without e.path c.cached ++ e ∷ [] }

abbrev pub entry_of : Manifest → ℕ → CachedPolicy
entry_of m size = record { path = m.path; policy_id = m.policy_id; size_bytes = size }

-- What a call of `_ensure_locked` meets outside: whether `_verify` finds the directory whole, the
-- sizes of the partial files of this policy that `_prune_partial_files` leaves, whether the policy
-- was downloaded and verified, and the clock.
pub record World : Type 0 where
  pub verifies : Bool
  pub partial : List ℕ
  pub fetched : Bool
  pub now : ℕ

abbrev pub found : World → Manifest → ℕ → AdapterCache → Option CachedPolicy → Ensured CachedPolicy
found w m size c (some e) = got e (touch m.policy_id w.now c)
found w m size c none =
    if w.verifies
    then got (entry_of m size) (touch m.policy_id w.now (store (entry_of m size) c))
    else fails corrupt c

-- The download, once there is space: it leaves no partial file and publishes the directory.
abbrev pub publish : World → Manifest → ℕ → AdapterCache → Ensured CachedPolicy
publish w m size c =
    let there = record c { incoming = []; present = m.path ∷ c.present } in
    if not w.fetched
    then fails fetch c
    else if w.verifies
    then got (entry_of m size) (touch m.policy_id w.now (store (entry_of m size) there))
    else fails corrupt there

abbrev pub with_space : World → Manifest → ℕ → Ensured Unit → Ensured CachedPolicy
with_space w m size (fails x c) = fails x c
with_space w m size (got u c) = publish w m size c

-- `_ensure_locked`
unfoldable pub ensure_locked : World → Manifest → ℕ → AdapterCache → Ensured CachedPolicy
unfolding make_space
ensure_locked w m size c =
    if contains m.path c.present
    then found w m size c (select path_of m.path c.cached)
    else with_space w m size (make_space (size - sum w.partial) (record c { incoming = w.partial }))

abbrev pub some_policy : Ensured CachedPolicy → Ensured (Option CachedPolicy)
some_policy (got e c) = got (some e) c
some_policy (fails x c) = fails x c

abbrev pub ensure_sized : World → Manifest → AdapterCache → Option ℕ → Ensured (Option CachedPolicy)
ensure_sized w m c none = got none c
ensure_sized w m c (some size) =
    if ltb c.max_bytes size then fails too_large c else some_policy (ensure_locked w m size c)

-- `ensure`
unfoldable pub ensure : World → Manifest → AdapterCache → Ensured (Option CachedPolicy)
unfolding ensure_locked
ensure w m c = ensure_sized w m c m.adapter_size

-- `pin`, after `ensure`, up to its `yield`.
unfoldable pub pinned : ℕ → ℕ → AdapterCache → AdapterCache
pinned policy now c =
    touch policy now (record c { references = alter ◌==◌ policy 0 (λ n. n + 1) c.references })

abbrev pub fewer : ℕ → ℕ → List (ℕ × ℕ) → List (ℕ × ℕ)
fewer policy remaining refs =
    if remaining == 0 then pop ◌==◌ policy refs else set ◌==◌ policy remaining refs

-- The `finally` of `pin`. A pinned policy has a reference.
unfoldable pub released_references : ℕ → AdapterCache → List (ℕ × ℕ)
released_references policy c =
    fewer policy (or_default 0 (get? ◌==◌ policy c.references) - 1) c.references

unfoldable pub unpinned : ℕ → ℕ → AdapterCache → AdapterCache
unfolding released_references enforce_retention
unpinned policy now c =
    enforce_retention (touch policy now (record c { references = released_references policy c }))

unfoldable pub mark_loaded : ℕ → ℕ → AdapterCache → AdapterCache
mark_loaded policy now c =
    touch policy now
      (record c { loaded = if contains policy c.loaded then c.loaded else policy ∷ c.loaded })

unfoldable pub mark_unloaded : ℕ → AdapterCache → AdapterCache
mark_unloaded policy c = record c { loaded = keep (λ p. not (p == policy)) c.loaded }

-- `__init__`: what the scan of the directories found; partial files of a policy may be left.
unfoldable pub opened : ℕ → List CachedPolicy → List ℕ → AdapterCache
unfolding enforce_retention
opened max_bytes entries incoming = enforce_retention record {
  max_bytes = max_bytes;
  cached = entries;
  present = map CachedPolicy.path entries;
  incoming = incoming;
  references = [];
  loaded = [];
  last_used = [];
}
