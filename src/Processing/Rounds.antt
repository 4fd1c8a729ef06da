-- ===== src/Processing/Rounds.antt =====
-- Each round of `_emit_ready_batches` that goes on leaves fewer free rollouts.
use aether_rl.Prelude.{
  ℕ, ◌+◌, ◌≤◌, ◌<◌, ◌≡◌, refl, true, Bool-cases, Option-cases, inl, inr, none, List, [], ◌∷◌, ◌&&◌,
  arith, ltb, ==→eq, ltb→lt, count, length,
}
use aether_rl.Tx.Rules.{Ensures, Ensures-gets, Ensures-guard, Ensures-write}
use aether_rl.Table.{select}
use aether_rl.Coordinator.Schema.{Db, TrainingBatch, ProcessedRollout}
use aether_rl.Coordinator.Rows.{batch_key}
use aether_rl.Coordinator.Batches.{
  is_free, is_member, available, discard_row, discard_members, discard_processed_rollouts,
  assign_row, assign_members, max_step, next_training_batch_step, record_training_batch,
}

abbrev pub free : List ProcessedRollout → ℕ
free rs = count is_free rs

free-discard_row :
    (m : ℕ × ℕ) (rs : List ProcessedRollout)
    → free (discard_row m rs) + count (λ r. is_member r m && is_free r) rs ≡ free rs
free-discard_row m [] = omega arith
free-discard_row m (r ∷ rs) = elim (Bool-cases (is_member r m && is_free r)) [
  | inl y ↦ rw y (ground (arith, y, free-discard_row m rs))
  | inr n ↦ rw n (ground (arith, n, free-discard_row m rs))
]

free-discard_members :
    (ms : List (ℕ × ℕ)) (rs : List ProcessedRollout)
    → free (discard_members ms rs).1 + (discard_members ms rs).0 ≡ free rs
unfolding discard_members
free-discard_members [] rs = omega arith
free-discard_members (m ∷ ms) rs =
    omega (arith, free-discard_members ms (discard_row m rs), free-discard_row m rs)

module _ (step position : ℕ) (m : ℕ × ℕ) where
  free-assign_row :
      (rs : List ProcessedRollout)
      → free (assign_row step position m rs) + count (λ r. is_free r && is_member r m) rs ≡ free rs
  free-assign_row [] = omega arith
  free-assign_row (r ∷ rs) = elim (Bool-cases (is_member r m)) [
    | inl y ↦ ground (arith, y, free-assign_row rs)
    | inr n ↦ ground (arith, n, free-assign_row rs)
  ]

  available-assign_row :
      (ms : List (ℕ × ℕ)) (rs : List ProcessedRollout)
      → available (m ∷ ms) rs
        ≡ count (λ r. is_free r && is_member r m) rs + available ms (assign_row step position m rs)
  unfolding available
  available-assign_row ms [] = omega arith
  available-assign_row ms (r ∷ rs) = elim (Bool-cases (is_member r m)) [
    | inl y ↦ elim (Option-cases r.batch_step) [
      | inl o ↦ rw (y, o) (ground (arith, available-assign_row ms rs))
      | inr (b, o) ↦ rw (y, o) (ground (arith, available-assign_row ms rs))
    ]
    | inr n ↦ rw n (ground (arith, available-assign_row ms rs))
  ]

free-assign_members :
    (step position : ℕ) (ms : List (ℕ × ℕ)) (rs : List ProcessedRollout)
    → free (assign_members step position ms rs) + available ms rs ≤ free rs
unfolding assign_members available
free-assign_members step position [] rs = none_named rs
  where
    none_named : (rs : List ProcessedRollout) → free rs + available [] rs ≤ free rs
    none_named [] = omega arith
    none_named (r ∷ rs) = ground (arith, none_named rs)
free-assign_members step position (m ∷ ms) rs = omega (
  arith,
  free-assign_members step (position + 1) ms (assign_row step position m rs),
  available-assign_row step position m ms rs,
  free-assign_row step position m rs,
)

-- No batch has the next step yet.
pub select-next : (bs : List TrainingBatch) (k : ℕ) → max_step bs < k → select batch_key k bs ≡ none
unfolding select
select-next [] k h = refl
select-next (b ∷ bs) k h = ground (arith, select-next bs k (omega (arith, h)))

pub discard-fewer :
    (ms : List (ℕ × ℕ)) (s : Db)
    → Ensures (discard_processed_rollouts ms s) (λ _ t. free t.rollouts < free s.rollouts)
unfolding discard_processed_rollouts
discard-fewer ms s = Ensures-guard _ s _ _ _ λ some_named. Ensures-gets _ s _ _ (
    Ensures-guard _ s _ _ _ λ all_found. Ensures-write _ s _ (
      omega
        (arith, free-discard_members ms s.rollouts, ltb→lt _ _ some_named, ==→eq _ _ all_found)))

pub record-fewer :
    (b : TrainingBatch) (ms : List (ℕ × ℕ)) (s : Db)
    → b.step ≡ next_training_batch_step s
    → Ensures (record_training_batch b ms s) (λ _ t. free t.rollouts < free s.rollouts)
unfolding record_training_batch next_training_batch_step
record-fewer b ms s e = Ensures-guard _ s _ _ _ λ some_named. Ensures-gets _ s _ _ (
    rw (select-next s.batches b.step (omega (arith, e))) (
      Ensures-gets _ s _ _ (
        Ensures-guard _ s _ _ _ λ _. Ensures-gets _ s _ _ (
          Ensures-guard _ s _ _ _ λ all_free. Ensures-gets _ s _ _ (
            Ensures-guard _ s _ _ _ λ _. Ensures-write _ s _ (
              let named : ltb 0 (length ms) ≡ true = ground (arith, some_named) in
              omega (
                arith,
                free-assign_members b.step 0 ms s.rollouts,
                ltb→lt _ _ named,
                ==→eq _ _ all_free,
              )))))))
