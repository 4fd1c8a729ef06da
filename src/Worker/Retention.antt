-- ===== src/Worker/Retention.antt =====
-- `enforce_retention` and `_make_space`: what stays in the cache, and its size.
use aether_rl.Prelude.{
  ℕ, ◌+◌, ◌-◌, ◌≤◌, ◌≡◌, ◌∙◌, ◌⊎◌, inl, inr, refl, sym, Bool, true, false, Bool-cases, some, List,
  [], ◌∷◌, arith, ltb, ltb→lt, leb, leb→le, ◌<◌, All, All-mono, IsUnique, sum, order_by,
  All-order_by, All-of-order_by, IsUnique-order_by,
}
use aether_rl.Table.{select, select_rows}
use aether_rl.Worker.Cache.{
  CachedPolicy, AdapterCache, path_of, total_bytes, is_kept, used_before, without, remove_entry,
  retain, enforce_retention, vacate, make_space, Ensured, got, fails, opened,
}
use aether_rl.Worker.Sweep.{Sweep, Sweep-skip, Sweep-drop, Sweep-start, drop-total, drop-kept}

-- What must stay is still there.
abbrev pub Keeps : (CachedPolicy → Bool) → List CachedPolicy → List CachedPolicy → Type 0
Keeps K from d = All (λ e. K e ≡ true → select path_of e.path d ≡ some e) from

module _ (K : CachedPolicy → Bool) (from : List CachedPolicy) (x : CachedPolicy)
    (d es : List CachedPolicy) (h : Sweep K d (x ∷ es)) where
  Keeps-drop : K x ≡ false → Keeps K from d → Keeps K from (without x.path d)
  Keeps-drop n k = All-mono _ _ (λ e f t. drop-kept K x d es h e n t (f t)) from k

-- The cache after a sweep: no directory that must stay was removed, and the cache is small enough or
-- has nothing else.
pub record IsRetained (K : CachedPolicy → Bool) (from : List CachedPolicy) (limit : ℕ)
    (c : AdapterCache) : Type 0 where
  pub unique : IsUnique path_of c.cached
  pub kept : Keeps K from c.cached
  pub fits : (total_bytes c.cached ≤ limit) ⊎ All (λ e. K e ≡ true) c.cached

is_kept-remove :
    (p : ℕ) (c : AdapterCache) (e : CachedPolicy) → is_kept (remove_entry p c) e ≡ is_kept c e
unfolding is_kept remove_entry
is_kept-remove p c e = refl

All-kept :
    (K : CachedPolicy → Bool) (d : List CachedPolicy) → Sweep K d [] → All (λ e. K e ≡ true) d
unfolding select
All-kept K d h =
    All-mono _ _ (λ e s. elim s [ inl k ↦ k | inr q ↦ absurd (ground (arith, q)) ]) d h.left

module _ (K : CachedPolicy → Bool) (from : List CachedPolicy) where
  retain-IsRetained :
      (es : List CachedPolicy) (total : ℕ) (c : AdapterCache)
      → ((e : CachedPolicy) → is_kept c e ≡ K e)
      → total ≡ total_bytes c.cached
      → Sweep K c.cached es
      → Keeps K from c.cached
      → IsRetained K from c.max_bytes (retain es total c)
  unfolding retain remove_entry
  retain-IsRetained [] total c same t h k = record {
    unique = h.unique;
    kept = k;
    fits = inr (All-kept K c.cached h);
  }
  retain-IsRetained (e ∷ es) total c same t h k = elim (Bool-cases (is_kept c e)) [
    | inl y ↦
        rw y
          (retain-IsRetained es total c same t (Sweep-skip K e c.cached es h (sym (same e) ∙ y)) k)
    | inr n ↦
        let s = Sweep-drop K e c.cached es h in
        let q : K e ≡ false = sym (same e) ∙ n in
        let r = Keeps-drop K from e c.cached es h q k in
        let left : total - e.size_bytes ≡ total_bytes (without e.path c.cached) =
          omega (arith, t, drop-total K e c.cached es h) in
        elim (Bool-cases (leb (total - e.size_bytes) c.max_bytes)) [
          | inl y ↦
              rw (n, y)
                record {
                  unique = s.unique;
                  kept = r;
                  fits = inl (omega (arith, left, leb→le (total - e.size_bytes) c.max_bytes y));
                }
          | inr m ↦
              rw (n, m)
                (retain-IsRetained es (total - e.size_bytes) (remove_entry e.path c)
                  (λ z. is_kept-remove e.path c z ∙ same z) left s r)
        ]
  ]

-- What `_make_space` answers, for the cache that it began with: there is space, or what is left must
-- stay and leaves too little.
abbrev pub Vacated :
    (CachedPolicy → Bool) → List CachedPolicy → ℕ → AdapterCache → Ensured Unit → Type 0
Vacated K from required c (got u d) =
    IsUnique path_of d.cached
    × Keeps K from d.cached
    × (total_bytes d.cached + sum c.incoming + required ≤ c.max_bytes)
Vacated K from required c (fails x d) =
    Keeps K from d.cached
    × All (λ e. K e ≡ true) d.cached
    × (c.max_bytes < total_bytes d.cached + sum c.incoming + required)

module _ (K : CachedPolicy → Bool) (from : List CachedPolicy) (required : ℕ) where
  vacate-Vacated :
      (es : List CachedPolicy) (total : ℕ) (c : AdapterCache)
      → ((e : CachedPolicy) → is_kept c e ≡ K e)
      → total ≡ total_bytes c.cached + sum c.incoming
      → Sweep K c.cached es
      → Keeps K from c.cached
      → Vacated K from required c (vacate required es total c)
  unfolding vacate remove_entry
  vacate-Vacated [] total c same t h k = elim (Bool-cases (ltb c.max_bytes (total + required))) [
    | inl y ↦
        rw y (k, All-kept K c.cached h, omega (arith, t, ltb→lt c.max_bytes (total + required) y))
    | inr n ↦ rw n (h.unique, k, ground (arith, t, n))
  ]
  vacate-Vacated (e ∷ es) total c same t h k =
      elim (Bool-cases (leb (total + required) c.max_bytes)) [
        | inl y ↦ rw y (h.unique, k, omega (arith, t, leb→le (total + required) c.max_bytes y))
        | inr m ↦ elim (Bool-cases (is_kept c e)) [
          | inl y ↦
              rw (m, y)
                (vacate-Vacated es total c same t (Sweep-skip K e c.cached es h (sym (same e) ∙ y))
                  k)
          | inr n ↦
              rw (m, n)
                (vacate-Vacated es (total - e.size_bytes) (remove_entry e.path c)
                  (λ z. is_kept-remove e.path c z ∙ same z)
                  (omega (arith, t, drop-total K e c.cached es h)) (Sweep-drop K e c.cached es h)
                  (Keeps-drop K from e c.cached es h (sym (same e) ∙ n) k))
        ]
      ]

-- Both sweeps begin with all the policies, in the order of their use.
Sweep-sorted :
    (c : AdapterCache)
    → IsUnique path_of c.cached
    → Sweep (is_kept c) c.cached (order_by (used_before c) c.cached)
Sweep-sorted c u =
    let v = IsUnique-order_by (used_before c) path_of c.cached u in
    Sweep-start (is_kept c) c.cached (order_by (used_before c) c.cached) u v
      (All-order_by (used_before c) _ c.cached (select_rows path_of c.cached u))
      (All-of-order_by (used_before c) _ c.cached
        (select_rows path_of (order_by (used_before c) c.cached) v))

Keeps-start : (c : AdapterCache) → IsUnique path_of c.cached → Keeps (is_kept c) c.cached c.cached
Keeps-start c u = All-mono _ _ (λ e s k. s) c.cached (select_rows path_of c.cached u)

-- `enforce_retention` removes no policy that is loaded or referenced, and afterwards the cache is
-- within its limit or holds nothing else. It takes a cache whose paths are distinct.
pub enforce_retention-IsRetained :
    (c : AdapterCache)
    → IsUnique path_of c.cached
    → IsRetained (is_kept c) c.cached c.max_bytes (enforce_retention c)
unfolding enforce_retention
enforce_retention-IsRetained c u = elim (Bool-cases (leb (total_bytes c.cached) c.max_bytes)) [
  | inl y ↦ rw y record {
    unique = u;
    kept = Keeps-start c u;
    fits = inl (leb→le (total_bytes c.cached) c.max_bytes y);
  }
  | inr n ↦ rw n (
      retain-IsRetained (is_kept c) c.cached (order_by (used_before c) c.cached)
        (total_bytes c.cached) c (λ e. refl) refl (Sweep-sorted c u) (Keeps-start c u))
]

-- `_make_space` removes no policy that is loaded or referenced. If it returns, the cache, the partial
-- files and the bytes required fit the limit; it raises only when they would not even without every
-- policy that may be removed. It takes a cache whose paths are distinct.
pub make_space-Vacated :
    (required : ℕ) (c : AdapterCache)
    → IsUnique path_of c.cached
    → Vacated (is_kept c) c.cached required c (make_space required c)
unfolding make_space
make_space-Vacated required c u =
    vacate-Vacated (is_kept c) c.cached required (order_by (used_before c) c.cached)
      (total_bytes c.cached + sum c.incoming) c (λ e. refl) refl (Sweep-sorted c u)
      (Keeps-start c u)

-- Where nothing must stay, the limit is met.
unkept-fits :
    (c : AdapterCache)
    → IsUnique path_of c.cached
    → ((e : CachedPolicy) → is_kept c e ≡ false)
    → total_bytes (enforce_retention c).cached ≤ c.max_bytes
unkept-fits c u f = elim (enforce_retention-IsRetained c u).fits [
  | inl fits ↦ fits
  | inr kept ↦ omega (arith, empty (enforce_retention c).cached kept)
]
  where
    empty : (d : List CachedPolicy) → All (λ e. is_kept c e ≡ true) d → total_bytes d ≡ 0
    empty [] a = refl
    empty (e ∷ d) a = absurd (ground (arith, a.0, f e))

-- A cache that was just opened, from directories with distinct paths, is within its limit.
pub opened-fits :
    (limit : ℕ) (entries : List CachedPolicy) (incoming : List ℕ)
    → IsUnique path_of entries
    → total_bytes (opened limit entries incoming).cached ≤ limit
unfolding opened is_kept
opened-fits limit entries incoming u = unkept-fits _ u (λ e. refl)
