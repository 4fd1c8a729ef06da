-- ===== src/Coordinator/Leasing/Tables.antt =====
-- The other writes of `assignments` and `lease_attempts`.

use aether_rl.Prelude.{ℕ, ◌≡◌, ◌≢◌, inl, inr, true, false, some, List, arith, ap, ◌∙◌, ℕ_discrete}
use aether_rl.Coordinator.Leasing.{Holds, IsHeld, Leased}
use aether_rl.Table.{select, update, select-update_ne, select-update-Origin, select-update_self}
use aether_rl.Coordinator.Schema.{Assignment, Lease, is_leased, is_active}
use aether_rl.Coordinator.Rows.{assignment_key, lease_key}

-- An assignment gives up its lease: the lease ends and the assignment is no longer leased.
module _ {t : List Assignment} {ls : List Lease} (k i : ℕ) (l : Lease) (f : Assignment → Assignment)
    (g : Lease → Lease) (fk : (a : Assignment) → (f a).assignment_id ≡ a.assignment_id)
    (fs : (a : Assignment) → is_leased (f a).state ≡ false)
    (gk : (x : Lease) → (g x).lease_id ≡ x.lease_id)
    (gs : (x : Lease) → is_active (g x).state ≡ false) (h : Leased t ls)
    (found : select lease_key k ls ≡ some l) (act : is_active l.state ≡ true)
    (own : l.assignment_id ≡ i) where
  leave-ne :
      (n : ℕ) (a : Assignment)
      → a.current_lease_id ≡ some n
      → k ≢ n
      → select assignment_key i t ≡ some a
      → ⊥
  leave-ne n a e ne s =
      let (b, eb, bl, bc) = h.holds k l found act in
      ground (arith, ap (λ z. select assignment_key z t) own)

  leave-Holds :
      (j : ℕ) (x : Lease)
      → select lease_key j (update lease_key k g ls) ≡ some x
      → is_active x.state ≡ true
      → Holds (update assignment_key i f t) j x
  leave-Holds j x e xa = elim (select-update-Origin lease_key g gk j k ls x e) [
    | inl (ne, ex) ↦
        let (a, ea, al, ac) = h.holds j x ex xa in
        (
          a,
          select-update_ne assignment_key f fk x.assignment_id i t
                (λ q. leave-ne j a ac ne (rw q ea))
              ∙ ea,
          al,
          ac,
        )
    | inr (y, _, _, p) ↦ absurd (ground (arith, gs y))
  ]

  leave-IsHeld :
      (n : ℕ) (b : Assignment)
      → select assignment_key n (update assignment_key i f t) ≡ some b
      → is_leased b.state ≡ true
      → IsHeld (update lease_key k g ls) n b
  leave-IsHeld n b e bl = elim (select-update-Origin assignment_key f fk n i t b e) [
    | inl (ne, eb) ↦
        let (j, x, cur, ex, xa, xo) = h.held n b eb bl in
        (j, x, cur, select-update_ne lease_key g gk j k ls (λ p. ne (ground arith)) ∙ ex, xa, xo)
    | inr (c, _, _, p) ↦ absurd (ground (arith, fs c))
  ]

  pub Leased-leave : Leased (update assignment_key i f t) (update lease_key k g ls)
  Leased-leave = record { holds = leave-Holds; held = leave-IsHeld }

-- An assignment without a lease changes, and stays without one.
module _ {t : List Assignment} {ls : List Lease} (i : ℕ) (c : Assignment)
    (f : Assignment → Assignment) (fk : (a : Assignment) → (f a).assignment_id ≡ a.assignment_id)
    (fs : (a : Assignment) → is_leased (f a).state ≡ false) (h : Leased t ls)
    (found : select assignment_key i t ≡ some c) (free : is_leased c.state ≡ false) where
  close-Holds :
      (j : ℕ) (x : Lease)
      → select lease_key j ls ≡ some x
      → is_active x.state ≡ true
      → Holds (update assignment_key i f t) j x
  close-Holds j x e xa =
      let (a, ea, al, ac) = h.holds j x e xa in
      (
        a,
        select-update_ne assignment_key f fk x.assignment_id i t
              (λ q. apart a al (ap (λ z. select assignment_key z t) q ∙ ea))
            ∙ ea,
        al,
        ac,
      )
    where
      apart : (a : Assignment) → is_leased a.state ≡ true → select assignment_key i t ≡ some a → ⊥
      apart a al ea = ground arith

  close-IsHeld :
      (n : ℕ) (b : Assignment)
      → select assignment_key n (update assignment_key i f t) ≡ some b
      → is_leased b.state ≡ true
      → IsHeld ls n b
  close-IsHeld n b e bl = elim (select-update-Origin assignment_key f fk n i t b e) [
    | inl (ne, eb) ↦ h.held n b eb bl
    | inr (y, _, _, p) ↦ absurd (ground (arith, fs y))
  ]

  pub Leased-close : Leased (update assignment_key i f t) ls
  Leased-close = record { holds = close-Holds; held = close-IsHeld }

-- A lease changes in a column that neither table's promise reads.
module _ {t : List Assignment} {ls : List Lease} (k : ℕ) (g : Lease → Lease)
    (gk : (x : Lease) → (g x).lease_id ≡ x.lease_id)
    (ga : (x : Lease) → (g x).assignment_id ≡ x.assignment_id)
    (gs : (x : Lease) → (g x).state ≡ x.state) (h : Leased t ls) where
  touch-Holds :
      (j : ℕ) (x : Lease)
      → select lease_key j (update lease_key k g ls) ≡ some x
      → is_active x.state ≡ true
      → Holds t j x
  touch-Holds j x e xa = elim (select-update-Origin lease_key g gk j k ls x e) [
    | inl (ne, ex) ↦ h.holds j x ex xa
    | inr (y, _, ey, p) ↦
        let (a, ea, al, ac) = h.holds j y ey (ground (arith, gs y)) in
        (
          a,
          ap (λ z. select assignment_key z t) (ap (λ (z : Lease). z.assignment_id) p ∙ ga y) ∙ ea,
          al,
          ac,
        )
  ]

  touch-IsHeld :
      (n : ℕ) (b : Assignment)
      → select assignment_key n t ≡ some b
      → is_leased b.state ≡ true
      → IsHeld (update lease_key k g ls) n b
  touch-IsHeld n b e bl =
      let (j, x, cur, ex, xa, xo) = h.held n b e bl in
      elim (ℕ_discrete k j) [
        | yes p ↦ (
          j,
          g x,
          cur,
          ap (λ z. select lease_key j (update lease_key z g ls)) p
              ∙ select-update_self lease_key g gk j ls x ex,
          ground (arith, gs x),
          ga x ∙ xo,
        )
        | no ne ↦ (j, x, cur, select-update_ne lease_key g gk j k ls ne ∙ ex, xa, xo)
      ]

  pub Leased-touch : Leased t (update lease_key k g ls)
  Leased-touch = record { holds = touch-Holds; held = touch-IsHeld }
