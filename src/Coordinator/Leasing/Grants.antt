-- ===== src/Coordinator/Leasing/Grants.antt =====
-- Writes of `assignments` and `lease_attempts`: a new lease for a free assignment, a new assignment.
use mathlib.Core.Option
use aether_rl.Prelude.{
  ℕ, ◌≡◌, ◌≢◌, inl, inr, true, false, none, some, List, [], ◌∷◌, ◌++◌, arith, ap, ◌∙◌, Option-cases,
}
use aether_rl.Coordinator.Leasing.{Holds, IsHeld, Leased}
use aether_rl.Table.{
  select, update, select-update_ne, select-update-Origin, select-update_self, select-append,
}
use aether_rl.Coordinator.Schema.{Assignment, Lease, is_leased, is_active}
use aether_rl.Coordinator.Rows.{assignment_key, lease_key}

module _ {t : List Assignment} {ls : List Lease} (k i : ℕ) (l : Lease) (c : Assignment)
    (f : Assignment → Assignment) (fk : (a : Assignment) → (f a).assignment_id ≡ a.assignment_id)
    (fs : (a : Assignment) → is_leased (f a).state ≡ true)
    (fc : (a : Assignment) → (f a).current_lease_id ≡ some k) (h : Leased t ls)
    (new : select lease_key k ls ≡ none) (lk : l.lease_id ≡ k) (la : is_active l.state ≡ true)
    (li : l.assignment_id ≡ i) (found : select assignment_key i t ≡ some c)
    (free : is_leased c.state ≡ false) where
  apart :
      (n : ℕ) (a : Assignment)
      → is_leased a.state ≡ true
      → select assignment_key n t ≡ some a
      → i ≢ n
  apart n a al ea q = ground (arith, ap (λ z. select assignment_key z t) q)

  kept :
      (j : ℕ) (x : Lease)
      → select lease_key j ls ≡ some x
      → select lease_key j (ls ++ l ∷ []) ≡ some x
  unfolding Option.or_else
  kept j x e = ground (arith, select-append lease_key j ls l)

  grant-Holds :
      (j : ℕ) (x : Lease)
      → select lease_key j (ls ++ l ∷ []) ≡ some x
      → is_active x.state ≡ true
      → Holds (update assignment_key i f t) j x
  unfolding Option.or_else
  grant-Holds j x e xa = elim (Option-cases (select lease_key j ls)) [
    | inl u ↦
        let p : (j ≡ k) × (x ≡ l) = ground (arith, select-append lease_key j ls l) in
        (
          f c,
          ap (λ z. select assignment_key z (update assignment_key i f t))
                (ap (λ (z : Lease). z.assignment_id) p.1 ∙ li)
              ∙ select-update_self assignment_key f fk i t c found,
          fs c,
          ground (arith, fc c),
        )
    | inr (y, ey) ↦
        let p : y ≡ x = ground (arith, kept j y ey) in
        let (a, ea, al, ac) = h.holds j x (ground arith) xa in
        (
          a,
          select-update_ne assignment_key f fk x.assignment_id i t (apart x.assignment_id a al ea)
              ∙ ea,
          al,
          ac,
        )
  ]

  grant-IsHeld :
      (n : ℕ) (b : Assignment)
      → select assignment_key n (update assignment_key i f t) ≡ some b
      → is_leased b.state ≡ true
      → IsHeld (ls ++ l ∷ []) n b
  unfolding Option.or_else
  grant-IsHeld n b e bl = elim (select-update-Origin assignment_key f fk n i t b e) [
    | inl (ne, eb) ↦
        let (j, x, cur, ex, xa, xo) = h.held n b eb bl in (j, x, cur, kept j x ex, xa, xo)
    | inr (y, p, _, q) ↦ (
      k,
      l,
      ap (λ (z : Assignment). z.current_lease_id) q ∙ fc y,
      ground (arith, select-append lease_key k ls l),
      la,
      li ∙ p,
    )
  ]

  pub Leased-grant : Leased (update assignment_key i f t) (ls ++ l ∷ [])
  Leased-grant = record { holds = grant-Holds; held = grant-IsHeld }

module _ {t : List Assignment} {ls : List Lease} (c : Assignment) (h : Leased t ls)
    (free : is_leased c.state ≡ false) where
  insert-Holds :
      (j : ℕ) (x : Lease)
      → select lease_key j ls ≡ some x
      → is_active x.state ≡ true
      → Holds (t ++ c ∷ []) j x
  unfolding Option.or_else
  insert-Holds j x e xa =
      let (a, ea, al, ac) = h.holds j x e xa in
      (a, ground (arith, select-append assignment_key x.assignment_id t c), al, ac)

  insert-IsHeld :
      (n : ℕ) (b : Assignment)
      → select assignment_key n (t ++ c ∷ []) ≡ some b
      → is_leased b.state ≡ true
      → IsHeld ls n b
  unfolding Option.or_else
  insert-IsHeld n b e bl = h.held n b (ground (arith, select-append assignment_key n t c)) bl

  pub Leased-insert : Leased (t ++ c ∷ []) ls
  Leased-insert = record { holds = insert-Holds; held = insert-IsHeld }
