-- ===== src/Coordinator/Sound/Stale.antt =====
-- `_cancel_stale_train_groups` and `_reconcile_stale_work` on sound tables.
use aether_rl.Prelude.{
  ℕ, ◌≡◌, ◌≢◌, refl, false, Option, none, some, List, arith, ◌∙◌, All, All-order_by, All-keep_where,
  All-mono, IsUnique, IsUnique-order_by, IsUnique-keep,
}
use aether_rl.Tx.Total.{
  Returns, Returns_mono, Returns-if, Returns-then, Returns-gets, Returns-modify, Returns-write,
  Returns-for_each, Returns-Ensures,
}
use aether_rl.Tx.Rules.{Ensures, Ensures-pure, Ensures-gets, Ensures-require, Ensures-for_each}
use aether_rl.Table.{select, update, select-update_ne, select_rows}
use aether_rl.Coordinator.Schema.{Db, Assignment, Group, is_leased, is_terminal}
use aether_rl.Coordinator.Rows.{assignment_key}
use aether_rl.Coordinator.Lifecycle.{to_failed}
use aether_rl.Coordinator.Stale.{
  unfinished, index_before, cancel_assignment, cancel_group, cancel_stale_train_groups,
  reconcile_with, reconcile_stale_work,
}
use aether_rl.Coordinator.Sound.{IsSound}
use aether_rl.Coordinator.Sound.Moves.{Sound-close}
use aether_rl.Coordinator.Sound.Expiry.{Returns-insert_or_ignore}

-- What the loop over a group knows of a row that it has read.
abbrev Unfinished : Assignment → List Assignment → Type 0
Unfinished a t =
    (c : Assignment) × (select assignment_key a.assignment_id t ≡ some c)
    × (is_leased c.state ≡ is_leased a.state)
    × (is_terminal c.state ≡ false)

abbrev Kept : Assignment → List Assignment → List Assignment → Type 0
Kept a t u = (y : Assignment) → a.assignment_id ≢ y.assignment_id → Unfinished y t → Unfinished y u

Kept-update :
    (a : Assignment) (t : List Assignment)
    → Kept a t (update assignment_key a.assignment_id to_failed t)
Kept-update a t y ne (c, ec, cl, ct) = (
  c,
  select-update_ne assignment_key to_failed (λ _. refl) y.assignment_id a.assignment_id t ne ∙ ec,
  cl,
  ct,
)

module _ (now : ℕ) where
  cancel-round :
      (a : Assignment) (s : Db)
      → IsSound s
      → Unfinished a s.assignments
      → Returns ⊥
          (cancel_assignment now a s)
          (λ _ t. IsSound t × Kept a s.assignments t.assignments)
  unfolding cancel_assignment
  cancel-round a s h (c, found, cl, ct) = Returns-modify ⊥ _ s _ _ (
      Returns-if ⊥ (is_leased a.state) _ _ _ _ (λ _. Returns-write ⊥ _ _ _ (h, λ y ne k. k))
        (λ free. Returns-modify ⊥ _ _ _ _ (
          Returns-modify ⊥ _ _ _ _ (
            Returns-insert_or_ignore ⊥ _ _ _
              (ground (arith, h.recorded.agree a.assignment_id c found, ct))
              (
                Sound-close a.assignment_id c to_failed _ (λ _. refl) (λ _. refl) (λ _. refl) h
                    found (cl ∙ free) ct refl,
                Kept-update a s.assignments,
              )))))

Unfinished-unfinished :
    (g : ℕ) (s : Db) → IsSound s → All (λ a. Unfinished a s.assignments) (unfinished g s)
unfolding unfinished
Unfinished-unfinished g s h =
    All-order_by index_before (λ a. Unfinished a s.assignments) _
      (All-mono _ (λ a. Unfinished a s.assignments) (λ a (e, test). (a, e, refl, ground arith)) _
        (All-keep_where _ _ s.assignments
          (select_rows assignment_key s.assignments h.assignments_unique)))

IsUnique-unfinished : (g : ℕ) (s : Db) → IsSound s → IsUnique assignment_key (unfinished g s)
unfolding unfinished
IsUnique-unfinished g s h =
    IsUnique-order_by index_before assignment_key _
      (IsUnique-keep assignment_key _ s.assignments h.assignments_unique)

-- Cancelling one group never raises.
pub cancel_group-IsSound :
    (now : ℕ) (g : Group) (s : Db) → IsSound s → Returns ⊥ (cancel_group now g s) (λ _ t. IsSound t)
unfolding cancel_group
cancel_group-IsSound now g s h = Returns-gets ⊥ _ s (unfinished g.group_id) _ (
    Returns-then ⊥ _ _ _ _ (
      Returns_mono ⊥ _ _ _ (λ _ t ht. Returns-write ⊥ _ t _ ht)
        (Returns-for_each ⊥ IsSound assignment_key (λ a u. Unfinished a u.assignments)
          (cancel_assignment now) (cancel-round now) (unfinished g.group_id s) s h
          (Unfinished-unfinished g.group_id s h) (IsUnique-unfinished g.group_id s h))))

pub cancel_stale-IsSound :
    (lag now : ℕ) (s : Db)
    → IsSound s
    → Ensures (cancel_stale_train_groups lag now s) (λ _ t. IsSound t)
unfolding cancel_stale_train_groups
cancel_stale-IsSound lag now s h = Ensures-require _ s _ _ _ λ p ep. Ensures-gets _ s _ _ (
    Ensures-for_each IsSound (cancel_group now)
      (λ g t ht. Returns-Ensures ⊥ _ _ (cancel_group-IsSound now g t ht)) _ s h)

pub reconcile-IsSound :
    (now : ℕ) (s : Db) → IsSound s → Ensures (reconcile_stale_work now s) (λ _ t. IsSound t)
unfolding reconcile_stale_work
reconcile-IsSound now s h = Ensures-require _ s _ _ _ λ c ec. by_lag c.max_policy_lag
  where
    by_lag : (o : Option ℕ) → Ensures (reconcile_with now o s) (λ _ t. IsSound t)
    by_lag none = Ensures-pure _ tt s h
    by_lag (some lag) = cancel_stale-IsSound lag now s h
