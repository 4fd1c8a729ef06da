-- ===== src/Coordinator/Sound/Queries.antt =====
-- The rows of the first query of `_expire_leases`, on sound tables.
use aether_rl.Prelude.{
  ℕ, ◌≡◌, ◌≢◌, refl, sym, inl, inr, true, Option, none, some, List, [], ◌∷◌, arith, All,
  All-order_by, IsUnique, IsUnique-order_by, Bool-cases,
}
use aether_rl.Table.{select, select_rows, select-key}
use aether_rl.Coordinator.Schema.{Db, Assignment, Lease, is_active}
use aether_rl.Coordinator.Rows.{assignment_key, lease_key}
use aether_rl.Coordinator.Lifecycle.{
  ExpiredLease, expired_join, expired_leases, expires_before, is_expired, join_row,
}
use aether_rl.Coordinator.Sound.{IsSound}

-- What `_expire_leases` knows of a row of its first query: its lease is still active, and is for the
-- assignment that the row names.
abbrev pub Live : ExpiredLease → Db → Type 0
Live row s =
    (l : Lease) × (select lease_key row.lease_id s.leases ≡ some l)
    × (is_active l.state ≡ true)
    × (l.assignment_id ≡ row.assignment.assignment_id)

-- The rows of the first query are live, and each is of another lease.
module _ (now : ℕ) (db : Db) where
  Live-join_row :
      (l : Lease) (rest : List ExpiredLease) (o : Option Assignment)
      → select assignment_key l.assignment_id db.assignments ≡ o
      → select lease_key l.lease_id db.leases ≡ some l
      → All (λ row. Live row db) rest
      → All (λ row. Live row db) (join_row now db l rest o)
  Live-join_row l rest none eo e r = r
  Live-join_row l rest (some a) eo e r = elim (Bool-cases (is_expired now l a)) [
    | inl x ↦ rw x (
      (l, e, ground arith, sym (select-key assignment_key l.assignment_id db.assignments a eo)),
      r,
    )
    | inr x ↦ rw x r
  ]

  Live-expired_join :
      (ls : List Lease)
      → All (λ l. select lease_key l.lease_id db.leases ≡ some l) ls
      → All (λ row. Live row db) (expired_join now db ls)
  Live-expired_join [] h = tt
  Live-expired_join (l ∷ ls) h =
      Live-join_row l (expired_join now db ls) _ refl h.0 (Live-expired_join ls h.1)

  apart-join_row :
      (k : ℕ) (l : Lease) (rest : List ExpiredLease) (o : Option Assignment)
      → k ≢ l.lease_id
      → All (λ row. k ≢ row.lease_id) rest
      → All (λ row. k ≢ row.lease_id) (join_row now db l rest o)
  apart-join_row k l rest none ne r = r
  apart-join_row k l rest (some a) ne r = elim (Bool-cases (is_expired now l a)) [
    | inl x ↦ rw x (ne, r)
    | inr x ↦ rw x r
  ]

  apart-expired_join :
      (k : ℕ) (ls : List Lease)
      → All (λ l. k ≢ l.lease_id) ls
      → All (λ row. k ≢ row.lease_id) (expired_join now db ls)
  apart-expired_join k [] h = tt
  apart-expired_join k (l ∷ ls) h =
      apart-join_row k l (expired_join now db ls)
        (select assignment_key l.assignment_id db.assignments) h.0 (apart-expired_join k ls h.1)

  IsUnique-join_row :
      (l : Lease) (rest : List ExpiredLease) (o : Option Assignment)
      → All (λ row. l.lease_id ≢ row.lease_id) rest
      → IsUnique (λ row. row.lease_id) rest
      → IsUnique (λ row. row.lease_id) (join_row now db l rest o)
  IsUnique-join_row l rest none ne r = r
  IsUnique-join_row l rest (some a) ne r = elim (Bool-cases (is_expired now l a)) [
    | inl x ↦ rw x (ne, r)
    | inr x ↦ rw x r
  ]

  IsUnique-expired_join :
      (ls : List Lease)
      → IsUnique lease_key ls
      → IsUnique (λ row. row.lease_id) (expired_join now db ls)
  IsUnique-expired_join [] u = tt
  IsUnique-expired_join (l ∷ ls) u =
      IsUnique-join_row l (expired_join now db ls)
        (select assignment_key l.assignment_id db.assignments)
        (apart-expired_join l.lease_id ls u.0) (IsUnique-expired_join ls u.1)

  pub Live-expired_leases : IsSound db → All (λ row. Live row db) (expired_leases now db)
  unfolding expired_leases
  Live-expired_leases h =
      All-order_by expires_before (λ row. Live row db) (expired_join now db db.leases)
        (Live-expired_join db.leases (select_rows lease_key db.leases h.leases_unique))

  pub IsUnique-expired_leases : IsSound db → IsUnique (λ row. row.lease_id) (expired_leases now db)
  unfolding expired_leases
  IsUnique-expired_leases h =
      IsUnique-order_by expires_before (λ row. row.lease_id) (expired_join now db db.leases)
        (IsUnique-expired_join db.leases h.leases_unique)
