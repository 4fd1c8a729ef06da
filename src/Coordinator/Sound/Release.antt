-- ===== src/Coordinator/Sound/Release.antt =====
-- `release_unoffered_lease` on sound tables.
use aether_rl.Prelude.{
  ℕ, ◌≡◌, refl, inl, inr, ap, Bool, true, false, Bool-cases, Option, none, some, Option-cases, List,
  [], ◌∷◌, arith, ◌==◌, any, holds_some, ==-refl,
}
use aether_rl.Tx.{ok, err, integrity, ◌>>=◌, ◌>>◌, gets, require, guard}
use aether_rl.Tx.Rules.{Ensures, Ensures-pure, Ensures-raise}
use aether_rl.Table.{select}
use aether_rl.Coordinator.Schema.{Db, Assignment, Lease, is_active}
use aether_rl.Coordinator.Rows.{assignment_key, lease_key}
use aether_rl.Coordinator.Renewal.{delete_lease, release_current, release_unoffered_lease}
use aether_rl.Coordinator.Sound.{IsSound}
use aether_rl.Coordinator.Sound.Moves.{holder}

-- A row that a query finds is among the rows.
any-select :
    (p : Assignment → Bool) (i : ℕ) (t : List Assignment) (a : Assignment)
    → select assignment_key i t ≡ some a
    → p a ≡ true
    → any p t ≡ true
unfolding select
any-select p i [] a e h = ground arith
any-select p i (x ∷ t) a e h = elim (Bool-cases (x.assignment_id == i)) [
  | inl y ↦ let q : x ≡ a = ground arith in ground (arith, ap p q)
  | inr y ↦ ground (arith, any-select p i t a)
]

module _ (k now : ℕ) (s : Db) where
  delete-refused :
      (i : ℕ) (a : Assignment)
      → select assignment_key i s.assignments ≡ some a
      → a.current_lease_id ≡ some k
      → delete_lease k s ≡ err integrity
  unfolding delete_lease ◌>>=◌ ◌>>◌ gets guard
  delete-refused i a e c =
      rw
        (any-select (λ a. holds_some (λ c. c == k) a.current_lease_id) i s.assignments a e
          (rw (c, ==-refl k)))
        refl

  abbrev is_held : Option Lease → Bool
  is_held none = false
  is_held (some l) = is_active l.state

  -- A lease that is missing or that has ended is left alone.
  pub released :
      (o : Option Lease)
      → select lease_key k s.leases ≡ o
      → is_held o ≡ false
      → release_unoffered_lease k now s ≡ ok (tt, s)
  unfolding release_unoffered_lease ◌>>=◌ gets
  released none e old = rw e refl
  released (some l) e old = rw (e, old) refl

  -- An active lease: the foreign key of its assignment refuses the DELETE.
  pub release-refused :
      (l : Lease)
      → IsSound s
      → select lease_key k s.leases ≡ some l
      → is_active l.state ≡ true
      → release_unoffered_lease k now s ≡ err integrity
  unfolding release_unoffered_lease release_current ◌>>=◌ ◌>>◌ gets require
  release-refused l h found act =
      let (a, ea, al, ac) = holder k l.assignment_id l h found act refl in
      rw (found, act, ea, ac, ==-refl k, delete-refused l.assignment_id a ea ac) refl

  -- The tables are as they were, whatever the lease.
  pub release-IsSound : IsSound s → Ensures (release_unoffered_lease k now s) (λ _ t. IsSound t)
  release-IsSound h = elim (Option-cases (select lease_key k s.leases)) [
    | inl e ↦ rw (released none e refl) (Ensures-pure (λ _ t. IsSound t) tt s h)
    | inr (l, e) ↦ elim (Bool-cases (is_active l.state)) [
      | inl act ↦ rw (release-refused l h e act) (Ensures-raise (λ _ t. IsSound t) integrity)
      | inr old ↦ rw (released (some l) e old) (Ensures-pure (λ _ t. IsSound t) tt s h)
    ]
  ]
