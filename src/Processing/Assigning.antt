-- ===== src/Processing/Assigning.antt =====
-- What the assignment of a batch's members does to each row.
use aether_rl.Prelude.{
  ℕ, ◌+◌, ◌≡◌, refl, ap, true, false, Bool-cases, inl, inr, some, List, [], ◌∷◌, arith, ◌&&◌,
  is_none,
}
use aether_rl.Coordinator.Schema.{ProcessedRollout}
use aether_rl.Coordinator.Batches.{is_member, among, assign, assign_row, assign_members}
use aether_rl.Coordinator.Promises.Batching.{Rows}

-- A row that the members name and that no batch holds gets the step; every other row stays.
pub record Assigned (step : ℕ) (ms : List (ℕ × ℕ)) (r x : ProcessedRollout) : Type 0 where
  pub group : x.group_id ≡ r.group_id
  pub ordinal : x.ordinal ≡ r.ordinal
  pub moved : among r ms && is_none r.batch_step ≡ true → x.batch_step ≡ some step
  pub others : among r ms && is_none r.batch_step ≡ false → x ≡ r

module _ (step position : ℕ) (m : ℕ × ℕ) (ms : List (ℕ × ℕ)) where
  Assigned-assign :
      (r x : ProcessedRollout)
      → Assigned step ms (assign step position m r) x
      → Assigned step (m ∷ ms) r x
  Assigned-assign r x h = elim (Bool-cases (is_member r m && is_none r.batch_step)) [
    | inl y ↦
        let k : Assigned step ms
            (record r { batch_step = some step; batch_ordinal = some position }) x =
          rw y at h in
        record {
          group = k.group;
          ordinal = k.ordinal;
          moved = λ _. ap (λ (z : ProcessedRollout). z.batch_step) (k.others (ground arith));
          others = λ e. absurd (ground (arith, e, y));
        }
    | inr n ↦
        let k : Assigned step ms r x = rw n at h in
        record {
          group = k.group;
          ordinal = k.ordinal;
          moved = λ e. k.moved (ground (arith, e, n));
          others = λ e. k.others (ground (arith, e, n));
        }
  ]

  Rows-Assigned :
      (rs zs : List ProcessedRollout)
      → Rows (Assigned step ms) (assign_row step position m rs) zs
      → Rows (Assigned step (m ∷ ms)) rs zs
  Rows-Assigned [] [] h = tt
  Rows-Assigned [] (z ∷ zs) h = h
  Rows-Assigned (r ∷ rs) [] h = h
  Rows-Assigned (r ∷ rs) (z ∷ zs) h = (Assigned-assign r z h.0, Rows-Assigned rs zs h.1)

Rows-unassigned : (step : ℕ) (rs : List ProcessedRollout) → Rows (Assigned step []) rs rs
Rows-unassigned step [] = tt
Rows-unassigned step (r ∷ rs) = (
  record {
    group = refl;
    ordinal = refl;
    moved = λ e. absurd (ground (arith, e));
    others = λ _. refl;
  },
  Rows-unassigned step rs,
)

pub assign_members-Assigned :
    (step position : ℕ) (ms : List (ℕ × ℕ)) (rs : List ProcessedRollout)
    → Rows (Assigned step ms) rs (assign_members step position ms rs)
unfolding assign_members
assign_members-Assigned step position [] rs = Rows-unassigned step rs
assign_members-Assigned step position (m ∷ ms) rs =
    Rows-Assigned step position m ms rs _
      (assign_members-Assigned step (position + 1) ms (assign_row step position m rs))
