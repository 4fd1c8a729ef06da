-- ===== src/Coordinator/Leasing.antt =====
-- What the tables `assignments` and `lease_attempts` of the coordinator promise each other.
pub mod Tables
pub mod Grants
use aether_rl.Prelude.{ℕ, ◌≡◌, true, false, Option, none, some, List}
use aether_rl.Table.{select}
use aether_rl.Coordinator.Schema.{Assignment, Lease, is_leased, is_active}
use aether_rl.Coordinator.Rows.{assignment_key, lease_key}

-- The assignment of an active lease is leased, and by that lease.
abbrev pub Holds : List Assignment → ℕ → Lease → Type 0
Holds t k l =
    (a : Assignment) × (select assignment_key l.assignment_id t ≡ some a)
    × (is_leased a.state ≡ true)
    × (a.current_lease_id ≡ some k)

-- A leased assignment names a lease of its own that is active.
abbrev pub IsHeld : List Lease → ℕ → Assignment → Type 0
IsHeld ls i a =
    (k : ℕ) × (l : Lease) × (a.current_lease_id ≡ some k)
    × (select lease_key k ls ≡ some l)
    × (is_active l.state ≡ true)
    × (l.assignment_id ≡ i)

pub record Leased (t : List Assignment) (ls : List Lease) : Type 0 where
  pub holds :
      (k : ℕ) (l : Lease) → select lease_key k ls ≡ some l → is_active l.state ≡ true → Holds t k l
  pub held :
      (i : ℕ) (a : Assignment)
      → select assignment_key i t ≡ some a
      → is_leased a.state ≡ true
      → IsHeld ls i a
