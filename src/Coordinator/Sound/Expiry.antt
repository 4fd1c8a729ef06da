-- ===== src/Coordinator/Sound/Expiry.antt =====
-- Giving up leases: `_retry_or_terminal`, `_terminalize_without_envelope` and `_expire_leases` on sound
-- tables.
use aether_rl.Prelude.{
  ℕ, ◌≡◌, ◌≢◌, refl, true, false, Option, none, some, List, [], ◌∷◌, ◌++◌, arith, ap, ◌∙◌, All,
  All-All, All-order_by, All-keep_where, All-mono, IsUnique-keep, IsUnique, IsUnique-order_by,
  is_none, leb, map, order_by,
}
use aether_rl.Tx.Total.{
  Returns, Returns-pure, Returns_mono, Returns-if, Returns-then, Returns-gets, Returns-guard,
  Returns-check, Returns-modify, Returns-write, Returns-for_each, Returns-Ensures,
}
use aether_rl.Tx.Rules.{Ensures}
use aether_rl.Table.{select, update, select-update_ne, select_rows}
use aether_rl.Coordinator.Schema.{
  Db, Assignment, Lease, AssignmentOutcome, LeaseState, Outcome, deadline_exceeded, is_active,
  is_leased, is_terminal, is_open,
}
use aether_rl.Coordinator.Rows.{
  assignment_key, lease_key, outcome_key, set_lease, insert_outcome, insert_outcome_or_ignore,
  recompute_group,
}
use aether_rl.Coordinator.Lifecycle.{
  RetrySettings, FailureReport, delay_overflows, retry_or_terminal, can_retry, to_retry, to_failed,
  terminalize_without_envelope, ExpiredLease, expired_leases, expire_lease, overdue_assignments,
  due_before, recompute_groups, recompute_all, expire_leases,
}
use aether_rl.Coordinator.Sound.{IsSound}
use aether_rl.Coordinator.Sound.Moves.{Sound-release, Sound-finish, Sound-close, holder-outcome}
use aether_rl.Coordinator.Sound.Queries.{Live, Live-expired_leases, IsUnique-expired_leases}

-- An outcome is recorded where there is none.
pub Returns-insert_outcome :
    (E : Type 0) (o : AssignmentOutcome) (s : Db) (Q : Unit → Db → Type 0)
    → select outcome_key o.assignment_id s.outcomes ≡ none
    → Q tt (record s { outcomes = s.outcomes ++ o ∷ [] })
    → Returns E (insert_outcome o s) Q
unfolding insert_outcome
Returns-insert_outcome E o s Q free q =
    Returns-gets E Q s (λ db. select outcome_key o.assignment_id db.outcomes) _
      (Returns-guard E Q s _ _ _ (ap is_none free) (Returns-write E Q s _ q))

pub Returns-insert_or_ignore :
    (E : Type 0) (o : AssignmentOutcome) (s : Db) (Q : Unit → Db → Type 0)
    → select outcome_key o.assignment_id s.outcomes ≡ none
    → Q tt (record s { outcomes = s.outcomes ++ o ∷ [] })
    → Returns E (insert_outcome_or_ignore o s) Q
unfolding insert_outcome_or_ignore
Returns-insert_or_ignore E o s Q free q =
    Returns-gets E Q s (λ db. select outcome_key o.assignment_id db.outcomes) _
      (rw free (Returns-write E Q s _ q))

-- An assignment whose active lease `k` ends by `g` waits for another attempt or ends.
module _ (cfg : RetrySettings) (a : Assignment) (now : ℕ) (envelope : Option FailureReport)
    (lease_id : Option ℕ) (k : ℕ) (l : Lease) (g : Lease → Lease)
    (gk : (x : Lease) → (g x).lease_id ≡ x.lease_id)
    (gs : (x : Lease) → is_active (g x).state ≡ false) (s : Db) (h : IsSound s)
    (found : select lease_key k s.leases ≡ some l) (act : is_active l.state ≡ true)
    (own : l.assignment_id ≡ a.assignment_id) (E : Type 0)
    (over : delay_overflows a ≡ true → E) where
  pub Returns-retry_or_terminal :
      Returns E
        (retry_or_terminal cfg a now envelope lease_id (set_lease k g s))
        (λ _ t. IsSound t × (t.leases ≡ update lease_key k g s.leases))
  unfolding retry_or_terminal
  Returns-retry_or_terminal =
      Returns-check E _ _ _ _ _ (λ e. over (ground (arith, e)))
        λ _.
          Returns-if E (can_retry cfg a now envelope) _ _ (set_lease k g s) _
            (λ _. Returns-modify E _ _ _ _ (
              Returns-pure E _ _ _ (
                Sound-release k a.assignment_id l h found act own (to_retry _) g (λ _. refl)
                    (λ _. refl) gk gs (λ _. refl),
                refl,
              )))
            (λ _. Returns-modify E _ _ _ _ (
              Returns-then E _ _ _ _ (
                Returns-insert_outcome E _ _ _ (holder-outcome k a.assignment_id l h found act own)
                  (Returns-pure E _ _ _ (
                    Sound-finish k a.assignment_id l h found act own to_failed g (λ _. refl)
                        (λ _. refl) gk gs _ refl (λ _. refl),
                    refl,
                  )))))

abbrev pub expire : Lease → Lease
expire l = record l { state = LeaseState.expired }

module _ (cfg : RetrySettings) (now : ℕ) (E : Type 0) where
  Live-expire :
      (row : ExpiredLease) (s t : Db)
      → t.leases ≡ update lease_key row.lease_id expire s.leases
      → (y : ExpiredLease) → row.lease_id ≢ y.lease_id
      → Live y s
      → Live y t
  Live-expire row s t e y ne (l, el, la, li) = (
    l,
    ap (select lease_key y.lease_id) e
        ∙ select-update_ne lease_key expire (λ _. refl) y.lease_id row.lease_id s.leases ne
        ∙ el,
    la,
    li,
  )

  expire-round :
      (row : ExpiredLease) (s : Db)
      → IsSound s
      → Live row s
      → (delay_overflows row.assignment ≡ true → E)
      → Returns E
          (expire_lease cfg now row s)
          (λ _ t. IsSound t × (t.leases ≡ update lease_key row.lease_id expire s.leases))
  unfolding expire_lease
  expire-round row s h (l, found, act, own) over = Returns-modify E _ s _ _ (
      Returns-if E row.cancelled _ _ _ _
        (λ _. Returns-modify E _ _ _ _ (
          Returns-modify E _ _ _ _ (
            Returns-insert_or_ignore E _ _ _
              (holder-outcome row.lease_id row.assignment.assignment_id l h found act own)
              (
                Sound-finish row.lease_id row.assignment.assignment_id l h found act own to_failed
                    expire (λ _. refl) (λ _. refl) (λ _. refl) (λ _. refl) _ refl (λ _. refl),
                refl,
              ))))
        (λ _. Returns-then E _ _ _ _ (
          Returns_mono E _ _ _ (λ _ t q. Returns-pure E _ tt t q)
            (Returns-retry_or_terminal cfg row.assignment now none (some row.lease_id) row.lease_id
              l expire (λ _. refl) (λ _. refl) s h found act own E over))))

  abbrev LiveOver : ExpiredLease → Db → Type 0
  LiveOver row s = Live row s × (delay_overflows row.assignment ≡ true → E)

  round :
      (row : ExpiredLease) (s : Db)
      → IsSound s
      → LiveOver row s
      → Returns E (expire_lease cfg now row s) (λ _ t.
        IsSound t × ((y : ExpiredLease) → row.lease_id ≢ y.lease_id → LiveOver y s → LiveOver y t))
  round row s h live =
      Returns_mono E _ _ _ (λ _ t q. (q.0, λ y ne k. (Live-expire row s t q.1 y ne k.0, k.1)))
        (expire-round row s h live.0 live.1)

  All-LiveOver :
      (rows : List ExpiredLease) (s : Db)
      → All (λ row. Live row s) rows
      → All (λ row. delay_overflows row.assignment ≡ true → E) rows
      → All (λ row. LiveOver row s) rows
  All-LiveOver [] s a o = tt
  All-LiveOver (r ∷ rs) s a o = ((a.0, o.0), All-LiveOver rs s a.1 o.1)

-- What `_expire_leases` knows of a row of its second query: the assignment is still open.
abbrev pub Open : Assignment → Db → Type 0
Open a s =
    (c : Assignment) × (select assignment_key a.assignment_id s.assignments ≡ some c)
    × (is_open c.state ≡ true)

pub open_free :
    (c : Assignment)
    → is_open c.state ≡ true
    → (is_leased c.state ≡ false) × (is_terminal c.state ≡ false)
open_free c e = ground arith

pub Returns-terminalize :
    (E : Type 0) (a : Assignment) (outcome : Outcome) (now : ℕ) (s : Db)
    → IsSound s
    → Open a s
    → Returns E (terminalize_without_envelope a outcome now s) (λ _ t.
      IsSound t × (t.assignments ≡ update assignment_key a.assignment_id to_failed s.assignments))
unfolding terminalize_without_envelope
Returns-terminalize E a outcome now s h (c, found, op) =
    let free = open_free c op in
    Returns-modify E _ s _ _ (
      Returns-then E _ _ _ _ (
        Returns-insert_outcome E _ _ _
          (ground (arith, h.recorded.agree a.assignment_id c found, free.1))
          (Returns-write E _ _ _ (
            Sound-close a.assignment_id c to_failed _ (λ _. refl) (λ _. refl) (λ _. refl) h found
                free.0 free.1 refl,
            refl,
          ))))

module _ (E : Type 0) (now : ℕ) where
  overdue-round :
      (a : Assignment) (s : Db)
      → IsSound s
      → Open a s
      → Returns E (terminalize_without_envelope a deadline_exceeded now s) (λ _ t.
        IsSound t × ((y : Assignment) → a.assignment_id ≢ y.assignment_id → Open y s → Open y t))
  overdue-round a s h op =
      Returns_mono E _ _ _
        (λ _ t q. (
          q.0,
          λ y ne (c, ec, co). (
            c,
            ap (select assignment_key y.assignment_id) q.1
                ∙ select-update_ne assignment_key to_failed (λ _. refl) y.assignment_id
                    a.assignment_id s.assignments ne
                ∙ ec,
            co,
          ),
        ))
        (Returns-terminalize E a deadline_exceeded now s h op)

module _ (now : ℕ) where
  Open-overdue : (db : Db) → IsSound db → All (λ a. Open a db) (overdue_assignments now db)
  unfolding overdue_assignments
  Open-overdue db h =
      All-order_by due_before (λ a. Open a db) _
        (All-mono _ (λ a. Open a db) (λ a (e, test). (a, e, ground arith)) _
          (All-keep_where _ _ db.assignments
            (select_rows assignment_key db.assignments h.assignments_unique)))

  IsUnique-overdue : (db : Db) → IsSound db → IsUnique assignment_key (overdue_assignments now db)
  unfolding overdue_assignments
  IsUnique-overdue db h =
      IsUnique-order_by due_before assignment_key _
        (IsUnique-keep assignment_key _ db.assignments h.assignments_unique)

pub IsSound-recompute_all : (gs : List ℕ) (s : Db) → IsSound s → IsSound (recompute_all gs s)
unfolding recompute_all
IsSound-recompute_all [] s h = h
IsSound-recompute_all (g ∷ gs) s h = IsSound-recompute_all gs (recompute_group g s) h

pub IsSound-recompute_groups : (s : Db) → IsSound s → IsSound (recompute_groups s)
unfolding recompute_groups
IsSound-recompute_groups s h =
    IsSound-recompute_all (order_by leb (map (λ g. g.group_id) s.groups)) s h

-- Expiry raises only where the delay of an expired lease's assignment overflows, and leaves sound
-- tables.
pub expire_leases-returns :
    (cfg : RetrySettings) (now : ℕ) (E : Type 0) (s : Db)
    → IsSound s
    → All (λ row. delay_overflows row.assignment ≡ true → E) (expired_leases now s)
    → Returns E (expire_leases cfg now s) (λ _ t. IsSound t)
unfolding expire_leases
expire_leases-returns cfg now E s h over = Returns-gets E _ s (expired_leases now) _ (
    Returns-then E _ _ _ _ (
      Returns_mono E _ _ _
        (λ _ t ht. Returns-gets E _ t (overdue_assignments now) _ (
          Returns-then E _ _ _ _ (
            Returns_mono E _ _ _
              (λ _ u hu.
                Returns-modify E _ u _ _ (Returns-pure E _ _ _ (IsSound-recompute_groups u hu)))
              (Returns-for_each E IsSound assignment_key Open _ (overdue-round E now)
                (overdue_assignments now t) t ht (Open-overdue now t ht)
                (IsUnique-overdue now t ht)))))
        (Returns-for_each E IsSound (λ row. row.lease_id) (LiveOver cfg now E)
          (expire_lease cfg now) (round cfg now E) (expired_leases now s) s h
          (All-LiveOver cfg now E (expired_leases now s) s (Live-expired_leases now s h) over)
          (IsUnique-expired_leases now s h))))

pub expire_leases-IsSound :
    (cfg : RetrySettings) (now : ℕ) (s : Db)
    → IsSound s
    → Ensures (expire_leases cfg now s) (λ _ t. IsSound t)
expire_leases-IsSound cfg now s h = Returns-Ensures Unit _ _ (
    expire_leases-returns cfg now Unit s h (
      All-All (λ row. delay_overflows row.assignment ≡ true → Unit) (λ _ _. tt)
        (expired_leases now s)))
