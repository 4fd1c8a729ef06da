-- ===== src/Coordinator/Sound.antt =====
-- The invariant of the coordinator's lease tables: leases and assignments agree, and an assignment
-- has a row in `assignment_outcomes` exactly when it is in a terminal state.
pub mod Outcomes
pub mod Moves
pub mod Queries
pub mod Expiry
pub mod Stale
pub mod Grants
pub mod Policies
pub mod Workers
pub mod Groups
pub mod Results
pub mod Renewals
pub mod Release
pub mod Rest
pub mod Offers
use aether_rl.Prelude.{ℕ, ◌≡◌, none, some, List, is_some, IsUnique}
use aether_rl.Table.{select}
use aether_rl.Coordinator.Schema.{Db, Assignment, Lease, AssignmentOutcome, is_terminal}
use aether_rl.Coordinator.Rows.{assignment_key, lease_key, outcome_key}
use aether_rl.Coordinator.Leasing.{Leased}

pub record Recorded (t : List Assignment) (os : List AssignmentOutcome) : Type 0 where
  pub agree :
      (i : ℕ) (a : Assignment)
      → select assignment_key i t ≡ some a
      → is_some (select outcome_key i os) ≡ is_terminal a.state
  pub owned : (i : ℕ) → select assignment_key i t ≡ none → select outcome_key i os ≡ none

pub record SoundTables (t : List Assignment) (ls : List Lease) (os : List AssignmentOutcome)
    : Type 0 where
  pub leased : Leased t ls
  pub recorded : Recorded t os
  pub assignments_unique : IsUnique assignment_key t
  pub leases_unique : IsUnique lease_key ls

abbrev pub IsSound : Db → Type 0
IsSound db = SoundTables db.assignments db.leases db.outcomes
