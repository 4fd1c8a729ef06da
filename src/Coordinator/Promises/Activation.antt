-- ===== src/Coordinator/Promises/Activation.antt =====
-- The active policy, and the choice of the next source.
use aether_rl.Prelude.{
  ℕ, ◌≤◌, ◌≡◌, ◌∙◌, refl, Bool, true, Option, none, some, arith, ap, is_none, ◌&&◌, All,
  All-of-keep, All-head, All-All, order_by-least, All-order_by, All-keep_where, keep, order_by,
}
use aether_rl.Tx.{ok, pure}
use aether_rl.Tx.Rules.{
  Ensures, Ensures-ok, Ensures-pure, Ensures_mono, Ensures-then, Ensures-require, Ensures-guard,
  Ensures-modify, Ensures-gets, Ensures-if, Ensures-write, Ensures-for_each,
}
use aether_rl.Table.{select, All-select}
use aether_rl.Coordinator.Schema.{
  Db, Run, Policy, Source, Kind, Assignment, Group, AssignmentOutcome, is_leased,
}
use aether_rl.Coordinator.Rows.{policy_key, source_key, outcome_key, insert_outcome_or_ignore}
use aether_rl.Coordinator.Stale.{
  active_policy_row, policy_of_run, reconcile_stale_work, reconcile_with, cancel_stale_train_groups,
  cancel_group, cancel_assignment,
}
use aether_rl.Coordinator.Policies.{activate, activate_policy, set_active}
use aether_rl.Coordinator.Sources.{next_source, source_before, kind_allowed}

module _ (kind : Option Kind) (s : Db) (x : Source) (e : next_source kind s ≡ some x) where
  next_source-allowed : x.enabled && kind_allowed kind x.kind ≡ true
  unfolding next_source
  next_source-allowed =
      let p : Source → Bool = λ y. y.enabled && kind_allowed kind y.kind in
      (All-head _ (order_by source_before (keep p s.sources)) x e (
        All-order_by source_before _ (keep p s.sources)
          (All-keep_where (λ _. Unit) p s.sources (All-All (λ _. Unit) (λ _. tt) s.sources)))).1

  next_source-first :
      All
        (λ y. y.enabled && kind_allowed kind y.kind ≡ true → x.virtual_finish ≤ y.virtual_finish)
        s.sources
  unfolding next_source
  next_source-first =
      let p : Source → Bool = λ y. y.enabled && kind_allowed kind y.kind in
      All-of-keep (λ y. x.virtual_finish ≤ y.virtual_finish) p s.sources
        (order_by-least source_before (λ y. y.virtual_finish) (λ y z h. ground arith)
          (λ y z h. ground arith) (keep p s.sources) x e)

-- `next_source` returns a source that is enabled and of the kind asked for, and no such source of the
-- table has a smaller virtual finish.
pub next_source-least :
    (kind : Option Kind) (s : Db) (x y : Source) (k : ℕ)
    → next_source kind s ≡ some x
    → select source_key k s.sources ≡ some y
    → y.enabled && kind_allowed kind y.kind ≡ true
    → (x.enabled && kind_allowed kind x.kind ≡ true) × (x.virtual_finish ≤ y.virtual_finish)
next_source-least kind s x y k e found allowed = (
  next_source-allowed kind s x e,
  All-select source_key
      (λ z. z.enabled && kind_allowed kind z.kind ≡ true → x.virtual_finish ≤ z.virtual_finish) k
      s.sources y (next_source-first kind s x e) found allowed,
)

-- What `_reconcile_stale_work` does not write.
abbrev Keeps : Db → Db → Type 0
Keeps s t = (t.run ≡ s.run) × (t.policies ≡ s.policies)

module _ (s : Db) where
  outcome-Keeps :
      (o : AssignmentOutcome) (t : Db)
      → Keeps s t
      → Ensures (insert_outcome_or_ignore o t) (λ _ u. Keeps s u)
  unfolding insert_outcome_or_ignore
  outcome-Keeps o t h = Ensures-gets _ t _ _ (
      Ensures-if (is_none (select outcome_key o.assignment_id t.outcomes)) _ (pure tt) t
        (λ _ u. Keeps s u) (λ _. Ensures-write _ t _ h) (λ _. Ensures-pure _ tt t h))

  cancel-Keeps :
      (now : ℕ) (a : Assignment) (t : Db)
      → Keeps s t
      → Ensures (cancel_assignment now a t) (λ _ u. Keeps s u)
  unfolding cancel_assignment
  cancel-Keeps now a t h = Ensures-modify _ t _ _ (
      Ensures-if (is_leased a.state) _ _ _ (λ _ u. Keeps s u) (λ _. Ensures-write _ _ _ h)
        (λ _. Ensures-modify _ _ _ _ (Ensures-modify _ _ _ _ (outcome-Keeps _ _ h))))

  group-Keeps :
      (now : ℕ) (g : Group) (t : Db) → Keeps s t → Ensures (cancel_group now g t) (λ _ u. Keeps s u)
  unfolding cancel_group
  group-Keeps now g t h = Ensures-gets _ t _ _ (
      Ensures-then _ t _ _ (
        Ensures_mono _ _ _ (λ _ u hu. Ensures-write _ u _ hu)
          (Ensures-for_each (Keeps s) _ (cancel-Keeps now) _ t h)))

  reconcile-Keeps :
      (now : ℕ) (t : Db) → Keeps s t → Ensures (reconcile_stale_work now t) (λ _ u. Keeps s u)
  unfolding reconcile_stale_work cancel_stale_train_groups
  reconcile-Keeps now t h = Ensures-require _ t _ _ _ λ settings _. by_lag settings.max_policy_lag
    where
      by_lag : (o : Option ℕ) → Ensures (reconcile_with now o t) (λ _ u. Keeps s u)
      by_lag none = Ensures-pure _ tt t h
      by_lag (some lag) =
          Ensures-require _ t _ _ _
            λ _ _. Ensures-gets _ t _ _ (Ensures-for_each (Keeps s) _ (group-Keeps now) _ t h)

abbrev pub Advanced : ℕ → Db → Policy → Db → Type 0
Advanced policy s old t =
    (new : Policy) × (active_policy_row t ≡ some new)
    × (select policy_key policy s.policies ≡ some new)
    × (old.policy_version ≤ new.policy_version)

active-kept : (s t : Db) → Keeps s t → active_policy_row t ≡ active_policy_row s
active-kept s t (r, p) = ap (λ x. policy_of_run t x) r ∙ by_run s.run
  where
    by_run : (o : Option Run) → policy_of_run t o ≡ policy_of_run s o
    by_run none = refl
    by_run (some r) = ap (λ x. select policy_key r.active_policy_id x) p

active-set :
    (policy : ℕ) (s : Db) (new : Policy) (old : Policy)
    → active_policy_row s ≡ some old
    → select policy_key policy s.policies ≡ some new
    → active_policy_row (record s { run = set_active policy s.run }) ≡ some new
active-set policy s new old e f = by_run s.run e
  where
    by_run :
        (o : Option Run)
        → policy_of_run s o ≡ some old
        → policy_of_run s (set_active policy o) ≡ some new
    by_run none e = absurd (ground arith)
    by_run (some r) e = f

-- `activate_policy`, where it returns, leaves a database in which the active policy is the one asked
-- for, at a version that is no smaller than that of the policy active before.
pub activate_policy-advances :
    (policy : ℕ) (verified : Bool) (now : ℕ) (s t : Db) (old : Policy)
    → active_policy_row s ≡ some old
    → activate_policy policy verified now s ≡ ok (tt, t)
    → Advanced policy s old t
unfolding activate_policy activate
activate_policy-advances policy verified now s t old e run =
    Ensures-ok _ (λ _ u. Advanced policy s old u) tt t
      (Ensures-require _ s _ _ _ λ new en. Ensures-guard _ s _ _ _ λ _.
        Ensures-require _ s _ _ _ λ was ew. Ensures-guard _ s _ _ _ λ le. Ensures-modify _ s _ _ (
          Ensures_mono _ _ _
            (λ _ u k. (
              new,
              active-kept (record s { run = set_active policy s.run }) u k
                  ∙ active-set policy s new old e en,
              en,
              let p : was ≡ old = cc in ground (arith, ap (λ (x : Policy). x.policy_version) p),
            ))
            (reconcile-Keeps (record s { run = set_active policy s.run }) now _ (refl, refl))))
      run
