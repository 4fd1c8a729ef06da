-- ===== src/Worker/Ensuring.antt =====
-- `ensure` and `pin`.
use aether_rl.Prelude.{
  ℕ, ◌+◌, ◌-◌, ◌≤◌, ◌≡◌, ◌≢◌, ◌∙◌, inl, inr, refl, sym, ap, Bool, true, false, Bool-cases, Option,
  none, some, List, [], ◌∷◌, ◌++◌, arith, ltb, ◌==◌, ==→eq, ==-refl, not, IsUnique, sum,
  if◌then◌else◌,
}
use aether_rl.Table.{select}
use aether_rl.Dict.{==-IsEquality, get?, or_default, alter, get?-alter, get?-pop}
use aether_rl.Worker.Cache.{
  CachedPolicy, Manifest, AdapterCache, World, path_of, total_bytes, is_kept, without, contains,
  entry_of, store, touch, publish, found, with_space, make_space, ensure_locked, some_policy,
  ensure, Ensured, got, fails, CacheError, pinned, fewer, released_references,
}
use aether_rl.Worker.Retention.{Vacated, make_space-Vacated}

-- A successful download of a policy: it is in the cache, which is within its limit, as are the policies
-- that were loaded or referenced.
pub record IsEnsured (m : Manifest) (size : ℕ) (c : AdapterCache) (o : Option CachedPolicy)
    (d : AdapterCache) : Type 0 where
  pub answer : o ≡ some (entry_of m size)
  pub there : select path_of m.path d.cached ≡ some (entry_of m size)
  pub fits : total_bytes d.cached ≤ c.max_bytes

total-append :
    (es : List CachedPolicy) (e : CachedPolicy)
    → total_bytes (es ++ e ∷ []) ≡ total_bytes es + e.size_bytes
total-append [] e = omega arith
total-append (x ∷ es) e = omega (arith, total-append es e)

total-without-le : (p : ℕ) (es : List CachedPolicy) → total_bytes (without p es) ≤ total_bytes es
unfolding without
total-without-le p [] = omega arith
total-without-le p (e ∷ es) = elim (Bool-cases (e.path == p)) [
  | inl y ↦ rw y (omega (arith, total-without-le p es))
  | inr n ↦ rw n (omega (arith, total-without-le p es))
]

select-stored :
    (e : CachedPolicy) (es : List CachedPolicy)
    → select path_of e.path (without e.path es ++ e ∷ []) ≡ some e
unfolding without select
select-stored e [] = rw (==-refl e.path) refl
select-stored e (x ∷ es) = elim (Bool-cases (x.path == e.path)) [
  | inl y ↦ rw y (select-stored e es)
  | inr n ↦ rw n (rw n (select-stored e es))
]

abbrev answer_of : Option CachedPolicy → Ensured (Option CachedPolicy) → Option CachedPolicy
answer_of o (got x c) = x
answer_of o (fails e c) = o

abbrev cache_of : Ensured (Option CachedPolicy) → AdapterCache
cache_of (got x c) = c
cache_of (fails e c) = c

module _ (w : World) (m : Manifest) (size : ℕ) (c : AdapterCache) (o : Option CachedPolicy)
    (d : AdapterCache) where
  publish-IsEnsured :
      (k : AdapterCache)
      → total_bytes k.cached + sum w.partial + (size - sum w.partial) ≤ c.max_bytes
      → some_policy (publish w m size k) ≡ got o d
      → IsEnsured m size c o d
  publish-IsEnsured k room = go w.fetched w.verifies
    where
      go :
          (f v : Bool)
          → some_policy (
              if not f
              then fails CacheError.fetch k
              else if v
              then got (entry_of m size) (
                  touch m.policy_id w.now (
                    store
                      (entry_of m size)
                      (record k { incoming = []; present = m.path ∷ k.present })))
              else fails CacheError.corrupt
                  (record k { incoming = []; present = m.path ∷ k.present }))
            ≡ got o d
          → IsEnsured m size c o d
      go false v run = absurd (ground (arith, run))
      go true false run = absurd (ground (arith, run))
      go true true run =
          let q : d.cached ≡ without m.path k.cached ++ entry_of m size ∷ [] =
            ap (λ r. (cache_of r).cached) (sym run) in
          record {
            answer = sym (ap (answer_of o) run);
            there = rw q (select-stored (entry_of m size) k.cached);
            fits = rw q (
                omega (
                  arith,
                  total-append (without m.path k.cached) (entry_of m size),
                  total-without-le m.path k.cached,
                  room,
                ));
          }

  space-IsEnsured :
      (r : Ensured Unit)
      → Vacated (is_kept c) c.cached (size - sum w.partial) (record c { incoming = w.partial }) r
      → some_policy (with_space w m size r) ≡ got o d
      → IsEnsured m size c o d
  space-IsEnsured (fails x k) v run = absurd (ground (arith, run))
  space-IsEnsured (got u k) v run = publish-IsEnsured k v.2 run

-- When `ensure` returns for a policy with an adapter whose directory is not there yet, the policy is
-- in the cache with its size, and the cache is within its limit. It takes a cache whose paths are
-- distinct.
pub ensure-IsEnsured :
    (w : World) (m : Manifest) (size : ℕ) (c d : AdapterCache) (o : Option CachedPolicy)
    → IsUnique path_of c.cached
    → m.adapter_size ≡ some size
    → contains m.path c.present ≡ false
    → ensure w m c ≡ got o d
    → IsEnsured m size c o d
unfolding ensure ensure_locked
ensure-IsEnsured w m size c d o u a n run = sized (ltb c.max_bytes size) (rw a at run)
  where
    located :
        (b : Bool)
        → b ≡ false
        → some_policy (
            if b
            then found w m size c (select path_of m.path c.cached)
            else with_space w m size
                (make_space (size - sum w.partial) (record c { incoming = w.partial })))
          ≡ got o d
        → IsEnsured m size c o d
    located true q run = absurd (ground (arith, q))
    located false q run =
        space-IsEnsured w m size c o d _
          (make_space-Vacated (size - sum w.partial) (record c { incoming = w.partial }) u) run

    sized :
        (b : Bool)
        → (if b then fails CacheError.too_large c else some_policy (ensure_locked w m size c))
          ≡ got o d
        → IsEnsured m size c o d
    sized true run = absurd (ground (arith, run))
    sized false run = located (contains m.path c.present) n run

module _ (policy j : ℕ) (refs : List (ℕ × ℕ)) where
  abbrev once_more : List (ℕ × ℕ)
  once_more = alter ◌==◌ policy 0 (λ n. n + 1) refs

  -- Another policy's references.
  others :
      (n : ℕ) → (policy == j) ≡ false → get? ◌==◌ j (fewer policy n once_more) ≡ get? ◌==◌ j refs
  others n e = elim (Bool-cases (n == 0)) [
    | inl y ↦ rw y (get?-pop ◌==◌ ==-IsEquality j policy once_more ∙ rw e (before e))
    | inr m ↦ rw m (get?-alter ◌==◌ ==-IsEquality j policy n (λ _. n) once_more ∙ rw e (before e))
  ]
    where
      before : (policy == j) ≡ false → get? ◌==◌ j once_more ≡ get? ◌==◌ j refs
      before e = get?-alter ◌==◌ ==-IsEquality j policy 0 (λ n. n + 1) refs ∙ rw e refl

own :
    (policy : ℕ) (refs : List (ℕ × ℕ)) (o : Option ℕ)
    → get? ◌==◌ policy refs ≡ o
    → o ≢ some 0
    → get? ◌==◌ policy (fewer policy (or_default 0 o) (once_more policy policy refs)) ≡ o
own policy refs none q pos =
    get?-pop ◌==◌ ==-IsEquality policy policy (once_more policy policy refs)
    ∙ rw (==-refl policy) refl
own policy refs (some n) q pos = elim (Bool-cases (n == 0)) [
  | inl y ↦ absurd (pos (ap some (==→eq n 0 y)))
  | inr m ↦ rw m (
      get?-alter ◌==◌ ==-IsEquality policy policy n (λ _. n) (once_more policy policy refs)
      ∙ rw (==-refl policy) refl)
]

-- A pin of a policy and its release leave the number of references of every policy as it was, where
-- the policy has no recorded count of zero.
pub released_references-pinned :
    (policy now j : ℕ) (c : AdapterCache)
    → get? ◌==◌ policy c.references ≢ some 0
    → get? ◌==◌ j (released_references policy (pinned policy now c)) ≡ get? ◌==◌ j c.references
unfolding released_references pinned
released_references-pinned policy now j c pos =
    ap (λ n. get? ◌==◌ j (fewer policy n (once_more policy j c.references))) counted
    ∙ elim (Bool-cases (policy == j)) [
      | inl y ↦
          rw (sym (==→eq policy j y))
            (own policy c.references (get? ◌==◌ policy c.references) refl pos)
      | inr n ↦ others policy j c.references (or_default 0 (get? ◌==◌ policy c.references)) n
    ]
  where
    counted :
        or_default 0 (get? ◌==◌ policy (alter ◌==◌ policy 0 (λ n. n + 1) c.references)) - 1
        ≡ or_default 0 (get? ◌==◌ policy c.references)
    counted =
        rw (get?-alter ◌==◌ ==-IsEquality policy policy 0 (λ n. n + 1) c.references, ==-refl policy)
          (omega arith)
