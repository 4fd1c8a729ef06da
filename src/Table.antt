-- ===== src/Table.antt =====
-- A table with a primary key, as a list of rows in the order of insertion: the shape of the
-- `SELECT … WHERE key = ?`, `UPDATE … WHERE key = ?` and `INSERT` statements of database.py.
use mathlib.Core.Option
use aether_rl.Prelude.{
  ℕ, ◌≡◌, ◌≢◌, ◌∙◌, ◌⊎◌, inl, inr, refl, sym, subst, Option-cases, ℕ_discrete, All, ap, IsUnique,
  ==-refl, Bool-cases, Option, none, some, List, [], ◌∷◌, ◌++◌, arith, ◌==◌, if◌then◌else◌,
}

module _ {R : Type 0} (key : R → ℕ) where
  unfoldable pub select : ℕ → List R → Option R
  select k [] = none
  select k (r ∷ t) = if key r == k then some r else select k t

  unfoldable pub update : ℕ → (R → R) → List R → List R
  update k f [] = []
  update k f (r ∷ t) = (if key r == k then f r else r) ∷ update k f t

  pub select-update :
      (j k : ℕ) (f : R → R) (t : List R)
      → ((r : R) → key (f r) ≡ key r)
      → select j (update k f t) ≡ (if k == j then Option.map f (select j t) else select j t)
  unfolding select update
  select-update j k f [] h = ground arith
  select-update j k f (r ∷ t) h = ground (arith, h r, select-update j k f t h)

  pub select-append :
      (k : ℕ) (t : List R) (r : R)
      → select k (t ++ r ∷ []) ≡ Option.or_else (select k t) (if key r == k then some r else none)
  unfolding select Option.or_else
  select-append k [] r = refl
  select-append k (x ∷ t) r = ground (arith, select-append k t r)

  pub select-key : (k : ℕ) (t : List R) (r : R) → select k t ≡ some r → key r ≡ k
  unfolding select
  select-key k [] r h = ground arith
  select-key k (x ∷ t) r h = ground (arith, select-key k t r)

module _ {R : Type 0} (key : R → ℕ) (f : R → R) (h : (r : R) → key (f r) ≡ key r) where
  pub select-update_ne :
      (j k : ℕ) (t : List R) → k ≢ j → select key j (update key k f t) ≡ select key j t
  select-update_ne j k t n = ground (arith, select-update key j k f t h)

  pub select-update_self :
      (k : ℕ) (t : List R) (r : R)
      → select key k t ≡ some r
      → select key k (update key k f t) ≡ some (f r)
  select-update_self k t r e = ground (arith, select-update key k k f t h)

  -- Where a row of an updated table comes from.
  abbrev pub Origin : ℕ → ℕ → List R → R → Type 0
  Origin j k t x =
      ((k ≢ j) × (select key j t ≡ some x))
      ⊎ ((y : R) × (k ≡ j) × (select key j t ≡ some y) × (x ≡ f y))

  pub select-update-Origin :
      (j k : ℕ) (t : List R) (x : R) → select key j (update key k f t) ≡ some x → Origin j k t x
  select-update-Origin j k t x e = elim (ℕ_discrete k j) [
    | no n ↦ inl (n, sym (select-update_ne j k t n) ∙ e)
    | yes p ↦ elim (Option-cases (select key j t)) [
      | inl u ↦ absurd (ground (arith, select-update key j k f t h))
      | inr (y, u) ↦ inr (y, p, u, ground (arith, select-update key j k f t h))
    ]
  ]

  pub All-update_key :
      (n k : ℕ) (t : List R) → All (λ r. n ≢ key r) t → All (λ r. n ≢ key r) (update key k f t)
  unfolding update
  All-update_key n k [] a = tt
  All-update_key n k (r ∷ t) a = (ground (arith, h r, a.0), All-update_key n k t a.1)

  pub IsUnique-update : (k : ℕ) (t : List R) → IsUnique key t → IsUnique key (update key k f t)
  unfolding update
  IsUnique-update k [] u = tt
  IsUnique-update k (r ∷ t) u = (
    elim (Bool-cases (key r == k)) [
      | inl p ↦ rw (p, h r) (All-update_key (key r) k t u.0)
      | inr p ↦ rw p (All-update_key (key r) k t u.0)
    ],
    IsUnique-update k t u.1,
  )

module _ {R : Type 0} (key : R → ℕ) where
  pub select-none : (k : ℕ) (t : List R) → select key k t ≡ none → All (λ r. key r ≢ k) t
  unfolding select
  select-none k [] e = tt
  select-none k (r ∷ t) e = (ground arith, select-none k t (ground arith))

  -- In a table with a primary key, the key of a row selects it.
  pub select_rows : (t : List R) → IsUnique key t → All (λ r. select key (key r) t ≡ some r) t
  unfolding select
  select_rows [] u = tt
  select_rows (x ∷ t) u = (rw (==-refl (key x)), later t (select_rows t u.1) u.0)
    where
      later :
          (rs : List R)
          → All (λ r. select key (key r) t ≡ some r) rs
          → All (λ r. key x ≢ key r) rs
          → All (λ r. select key (key r) (x ∷ t) ≡ some r) rs
      later [] a b = tt
      later (r ∷ rs) a b = (ground (arith, a.0, b.0), later rs a.1 b.1)

  pub select_self :
      (k : ℕ) (t : List R) (r : R) → select key k t ≡ some r → select key (key r) t ≡ some r
  select_self k t r e = ap (λ z. select key z t) (select-key key k t r e) ∙ e

  -- What holds of every row holds of a selected one.
  pub All-select :
      (P : R → Type 0) (k : ℕ) (t : List R) (r : R) → All P t → select key k t ≡ some r → P r
  unfolding select
  All-select P k [] r h e = absurd (ground arith)
  All-select P k (x ∷ t) r h e = elim (Bool-cases (key x == k)) [
    | inl y ↦ let p : x ≡ r = ground arith in subst P p h.0
    | inr n ↦ All-select P k t r h.1 (ground arith)
  ]
