-- ===== src/Worker/Sweep.antt =====
-- What holds while the cache goes over its policies and removes some of them.
use aether_rl.Prelude.{
  ℕ, ◌+◌, ◌≡◌, ◌≢◌, ◌∙◌, ◌⊎◌, inl, inr, refl, sym, ap, subst, Bool, true, false, Bool-cases, some,
  List, [], ◌∷◌, arith, ◌==◌, ==→eq, not, All, All-mono, All-keep_where, IsUnique, IsUnique-keep,
}
use aether_rl.Table.{select}
use aether_rl.Worker.Cache.{CachedPolicy, path_of, total_bytes, without}

select-without :
    (k p : ℕ) (d : List CachedPolicy) → p ≢ k → select path_of k (without p d) ≡ select path_of k d
unfolding select without
select-without k p [] n = refl
select-without k p (e ∷ d) n = elim (Bool-cases (e.path == p)) [
  | inl y ↦ rw y (ground (arith, y, n, select-without k p d n))
  | inr m ↦ rw m (ground (arith, select-without k p d n))
]

without_none : (p : ℕ) (d : List CachedPolicy) → All (λ e. p ≢ path_of e) d → without p d ≡ d
unfolding without
without_none p [] h = refl
without_none p (e ∷ d) h = ground (arith, h.0, without_none p d h.1)

-- What a removal frees.
total-without :
    (e : CachedPolicy) (d : List CachedPolicy)
    → IsUnique path_of d
    → select path_of e.path d ≡ some e
    → total_bytes (without e.path d) + e.size_bytes ≡ total_bytes d
unfolding select without
total-without e [] u h = absurd (ground (arith, h))
total-without e (x ∷ d) u h = elim (Bool-cases (x.path == e.path)) [
  | inl y ↦
      (let p = ==→eq x.path e.path y in
        let q : x ≡ e = ground (arith, y, h) in
        let z = without_none e.path d (subst (λ k. All (λ r. k ≢ path_of r) d) p u.0) in
        rw y (omega (arith, ap total_bytes z, ap CachedPolicy.size_bytes q)))
  | inr n ↦ rw n (omega (arith, total-without e d u.1 (rw n at h)))
]

-- `K` are the policies that must stay, `d` those in the cache, and `es` those that are still to come.
pub record Sweep (K : CachedPolicy → Bool) (d es : List CachedPolicy) : Type 0 where
  pub unique : IsUnique path_of d
  pub unique_rest : IsUnique path_of es
  pub there : All (λ e. select path_of e.path d ≡ some e) es
  pub left : All (λ e. (K e ≡ true) ⊎ (select path_of e.path es ≡ some e)) d

module _ (K : CachedPolicy → Bool) (x : CachedPolicy) (d es : List CachedPolicy)
    (h : Sweep K d (x ∷ es)) where
  after_first :
      (e : CachedPolicy)
      → (K e ≡ true) ⊎ (select path_of e.path (x ∷ es) ≡ some e)
      → (x ≡ e) ⊎ ((K e ≡ true) ⊎ (select path_of e.path es ≡ some e))
  unfolding select
  after_first e (inl k) = inr (inl k)
  after_first e (inr s) = elim (Bool-cases (x.path == e.path)) [
    | inl y ↦ inl (ground (arith, y, s))
    | inr n ↦ inr (inr (rw n at s))
  ]

  pub Sweep-skip : K x ≡ true → Sweep K d es
  Sweep-skip k = record {
    unique = h.unique;
    unique_rest = h.unique_rest.1;
    there = h.there.1;
    left =
        All-mono _ _ (λ e s. elim (after_first e s) [ inl q ↦ inl (ap K (sym q) ∙ k) | inr r ↦ r ])
          d h.left;
  }

  pub Sweep-drop : Sweep K (without x.path d) es
  unfolding without
  Sweep-drop = record {
    unique = IsUnique-keep path_of (λ e. not (e.path == x.path)) d h.unique;
    unique_rest = h.unique_rest.1;
    there = both es h.unique_rest.0 h.there.1;
    left =
        All-mono _ _
          (λ e s. elim (after_first e s.0) [
            | inl q ↦ absurd (ground (arith, s.1, ap path_of q))
            | inr r ↦ r
          ])
          _ (All-keep_where _ (λ e. not (e.path == x.path)) d h.left);
  }
    where
      both :
          (rs : List CachedPolicy)
          → All (λ e. path_of x ≢ path_of e) rs
          → All (λ e. select path_of e.path d ≡ some e) rs
          → All (λ e. select path_of e.path (without x.path d) ≡ some e) rs
      both [] a b = tt
      both (r ∷ rs) a b = (select-without r.path x.path d a.0 ∙ b.0, both rs a.1 b.1)

  pub drop-total : total_bytes (without x.path d) + x.size_bytes ≡ total_bytes d
  drop-total = total-without x d h.unique h.there.0

  -- What must stay is not removed.
  pub drop-kept :
      (e : CachedPolicy)
      → K x ≡ false
      → K e ≡ true
      → select path_of e.path d ≡ some e
      → select path_of e.path (without x.path d) ≡ some e
  drop-kept e n k s = elim (Bool-cases (x.path == e.path)) [
    | inl y ↦ absurd (
        let p = ==→eq x.path e.path y in
        let t = sym h.there.0 ∙ ap (λ k. select path_of k d) p ∙ s in
        let q : x ≡ e = ground (arith, t) in ground (arith, sym n ∙ ap K q ∙ k))
    | inr m ↦ select-without e.path x.path d (λ q. absurd (ground (arith, m, q))) ∙ s
  ]

pub Sweep-start :
    (K : CachedPolicy → Bool) (d es : List CachedPolicy)
    → IsUnique path_of d
    → IsUnique path_of es
    → All (λ e. select path_of e.path d ≡ some e) es
    → All (λ e. select path_of e.path es ≡ some e) d
    → Sweep K d es
Sweep-start K d es u v a b = record {
  unique = u;
  unique_rest = v;
  there = a;
  left = All-mono _ _ (λ e s. inr s) d b;
}
