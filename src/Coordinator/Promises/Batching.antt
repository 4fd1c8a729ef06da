-- ===== src/Coordinator/Promises/Batching.antt =====
-- The ledger of processed rollouts under `record_training_batch`.
use aether_rl.Prelude.{
  ℕ, ◌+◌, ◌≤◌, ◌≡◌, ◌∙◌, ◌⊎◌, inl, inr, refl, sym, Bool, true, false, Bool-cases, Option, none,
  some, List, [], ◌∷◌, arith, ap, ◌==◌, ◌&&◌, ◌||◌, not, All, All-mono, count, length, is_none,
  ==→eq,
}
use aether_rl.Tx.{ok}
use aether_rl.Tx.Rules.{
  Ensures, Ensures-ok, Ensures-gets, Ensures-guard, Ensures-write, Ensures-check,
}
use aether_rl.Coordinator.Schema.{Db, TrainingBatch, ProcessedRollout}
use aether_rl.Coordinator.Batches.{
  is_free, is_member, among, available, assign, assign_row, assign_members, record_batch_by,
  record_training_batch,
}

-- `CHECK (discarded = 0 OR batch_step IS NULL)`
abbrev pub IsConsistent : ProcessedRollout → Type 0
IsConsistent r = not r.discarded || is_none r.batch_step ≡ true

abbrev same_rollout : ProcessedRollout → ProcessedRollout → Bool
same_rollout x y = x.group_id == y.group_id && x.ordinal == y.ordinal

-- `PRIMARY KEY (group_id, ordinal)`
abbrev pub IsKeyed : List ProcessedRollout → Type 0
IsKeyed [] = Unit
IsKeyed (r ∷ rs) = All (λ x. same_rollout r x ≡ false) rs × IsKeyed rs

count-or :
    (p q : ProcessedRollout → Bool) (rs : List ProcessedRollout)
    → count (λ r. p r || q r) rs ≤ count p rs + count q rs
count-or p q [] = omega arith
count-or p q (r ∷ rs) = ground (arith, count-or p q rs)

count-none :
    (p : ProcessedRollout → Bool) (rs : List ProcessedRollout)
    → All (λ r. p r ≡ false) rs
    → count p rs ≡ 0
count-none p [] h = refl
count-none p (r ∷ rs) h = ground (arith, h.0, count-none p rs h.1)

module _ (g o : ℕ) where
  apart :
      (r x : ProcessedRollout)
      → is_member r (g, o) ≡ true
      → same_rollout r x ≡ false
      → is_member x (g, o) ≡ false
  apart r x h a = ground arith

  count-member : (rs : List ProcessedRollout) → IsKeyed rs → count (λ r. is_member r (g, o)) rs ≤ 1
  count-member [] k = omega arith
  count-member (r ∷ rs) k = elim (Bool-cases (is_member r (g, o))) [
    | inl y ↦
        let z =
          count-none (λ r. is_member r (g, o)) rs
            (All-mono (λ x. same_rollout r x ≡ false) (λ x. is_member x (g, o) ≡ false)
              (λ x a. apart r x y a) rs k.0) in
        ground (arith, z)
    | inr n ↦ ground (arith, count-member rs k.1)
  ]

count-among :
    (ms : List (ℕ × ℕ)) (rs : List ProcessedRollout)
    → IsKeyed rs
    → count (λ r. among r ms) rs ≤ length ms
count-among [] rs k = count-never rs
  where
    count-never : (rs : List ProcessedRollout) → count (λ r. among r []) rs ≤ 0
    count-never [] = omega arith
    count-never (r ∷ rs) = count-never rs
count-among ((g, o) ∷ ms) rs k = omega (
  arith,
  count-or (λ r. is_member r (g, o)) (λ r. among r ms) rs,
  count-member g o rs k,
  count-among ms rs k,
)

module _ (p q : ProcessedRollout → Bool) where
  count-and : (rs : List ProcessedRollout) → count (λ r. p r && q r) rs ≤ count q rs
  count-and [] = omega arith
  count-and (r ∷ rs) = ground (arith, count-and rs)

  All-of :
      (rs : List ProcessedRollout)
      → count q rs ≤ count (λ r. p r && q r) rs
      → All (λ r. q r ≡ true → p r ≡ true) rs
  All-of [] h = tt
  All-of (r ∷ rs) h = (λ e. ground (arith, count-and rs), All-of rs (ground (arith, count-and rs)))

-- Where as many rollouts are available as a batch names, each rollout that it names is free.
pub available-All :
    (ms : List (ℕ × ℕ)) (rs : List ProcessedRollout)
    → IsKeyed rs
    → available ms rs ≡ length ms
    → All (λ r. among r ms ≡ true → is_free r ≡ true) rs
unfolding available
available-All ms rs k e = All-of is_free (λ r. among r ms) rs (omega (arith, count-among ms rs k))

-- What assigning members to a batch does to one row.
abbrev pub Kept : ProcessedRollout → ProcessedRollout → Type 0
Kept r x =
    (x.group_id ≡ r.group_id)
    × (x.ordinal ≡ r.ordinal)
    × (x.discarded ≡ r.discarded)
    × ((r.batch_step ≡ none) ⊎ (x.batch_step ≡ r.batch_step))

abbrev pub Rows :
    (ProcessedRollout → ProcessedRollout → Type 0)
    → List ProcessedRollout
    → List ProcessedRollout
    → Type 0
Rows R [] [] = Unit
Rows R [] (y ∷ ys) = ⊥
Rows R (x ∷ xs) [] = ⊥
Rows R (x ∷ xs) (y ∷ ys) = R x y × Rows R xs ys

Rows-trans :
    (xs ys zs : List ProcessedRollout) → Rows Kept xs ys → Rows Kept ys zs → Rows Kept xs zs
Rows-trans [] [] [] p q = tt
Rows-trans [] [] (z ∷ zs) p q = elim q [ ]
Rows-trans [] (y ∷ ys) zs p q = elim p [ ]
Rows-trans (x ∷ xs) [] zs p q = elim p [ ]
Rows-trans (x ∷ xs) (y ∷ ys) [] p q = elim q [ ]
Rows-trans (x ∷ xs) (y ∷ ys) (z ∷ zs) p q = (ground arith, Rows-trans xs ys zs p.1 q.1)

Rows-refl : (xs : List ProcessedRollout) → Rows Kept xs xs
Rows-refl [] = tt
Rows-refl (x ∷ xs) = ((refl, refl, refl, inr refl), Rows-refl xs)

module _ (step position : ℕ) where
  assign-Kept : (m : ℕ × ℕ) (r : ProcessedRollout) → Kept r (assign step position m r)
  assign-Kept (g, o) r = ground arith

  Rows-assign_row :
      (m : ℕ × ℕ) (rs : List ProcessedRollout) → Rows Kept rs (assign_row step position m rs)
  Rows-assign_row m [] = tt
  Rows-assign_row m (r ∷ rs) = (assign-Kept m r, Rows-assign_row m rs)

  -- No discarded row is named, so each row stays consistent.
  assign-IsConsistent :
      (m : ℕ × ℕ) (r : ProcessedRollout)
      → (is_member r m ≡ true → r.discarded ≡ false)
      → IsConsistent r
      → IsConsistent (assign step position m r)
  assign-IsConsistent (g, o) r h c = ground arith

  All-assign_row :
      (m : ℕ × ℕ) (rs : List ProcessedRollout)
      → All (λ r. is_member r m ≡ true → r.discarded ≡ false) rs
      → All IsConsistent rs
      → All IsConsistent (assign_row step position m rs)
  All-assign_row m [] h c = tt
  All-assign_row m (r ∷ rs) h c = (assign-IsConsistent m r h.0 c.0, All-assign_row m rs h.1 c.1)

abbrev Named : List (ℕ × ℕ) → ProcessedRollout → Type 0
Named ms r = among r ms ≡ true → r.discarded ≡ false

among-Kept : (r x : ProcessedRollout) → Kept r x → (ms : List (ℕ × ℕ)) → among x ms ≡ among r ms
among-Kept r x k [] = refl
among-Kept r x k ((g, o) ∷ ms) =
    rw (among-Kept r x k ms) (ap (λ b. b || among r ms) (member-Kept g o))
  where
    member-Kept : (g o : ℕ) → is_member x (g, o) ≡ is_member r (g, o)
    member-Kept g o = rw (k.0, k.1) refl

Named-row :
    (step position : ℕ) (m : ℕ × ℕ) (ms : List (ℕ × ℕ)) (rs : List ProcessedRollout)
    → All (Named ms) rs
    → All (Named ms) (assign_row step position m rs)
Named-row step position m ms [] h = tt
Named-row step position m ms (r ∷ rs) h = (
  (λ a.
      let k = assign-Kept step position m r in
      k.2 ∙ h.0 (sym (among-Kept r (assign step position m r) k ms) ∙ a)),
  Named-row step position m ms rs h.1,
)

-- The loop over the members.
module _ (step : ℕ) where
  members-Kept :
      (position : ℕ) (ms : List (ℕ × ℕ)) (rs : List ProcessedRollout)
      → Rows Kept rs (assign_members step position ms rs)
  unfolding assign_members
  members-Kept position [] rs = Rows-refl rs
  members-Kept position (m ∷ ms) rs =
      Rows-trans rs (assign_row step position m rs)
        (assign_members step (position + 1) ms (assign_row step position m rs))
        (Rows-assign_row step position m rs)
        (members-Kept (position + 1) ms (assign_row step position m rs))

  members-IsConsistent :
      (position : ℕ) (ms : List (ℕ × ℕ)) (rs : List ProcessedRollout)
      → All (Named ms) rs
      → All IsConsistent rs
      → All IsConsistent (assign_members step position ms rs)
  unfolding assign_members
  members-IsConsistent position [] rs h c = c
  members-IsConsistent position (m ∷ ms) rs h c =
      members-IsConsistent (position + 1) ms (assign_row step position m rs)
        (Named-row step position m ms rs
          (All-mono (Named (m ∷ ms)) (Named ms) (λ r n a. n (ground (arith, a))) rs h))
        (All-assign_row step position m rs
          (All-mono (Named (m ∷ ms)) (λ r. is_member r m ≡ true → r.discarded ≡ false)
            (λ r n a. n (ground (arith, a))) rs h)
          c)

abbrev pub Used : Db → Db → Type 0
Used s t = All IsConsistent t.rollouts × Rows Kept s.rollouts t.rollouts

-- `record_training_batch`, where it returns: no discarded rollout is put into the batch, no rollout of
-- an earlier batch is moved, and no rollout is lost or added. It takes a table with unique keys whose
-- rows meet the CHECK on discarded rollouts.
pub batch-Used :
    (b : TrainingBatch) (ms : List (ℕ × ℕ)) (s t : Db)
    → IsKeyed s.rollouts
    → All IsConsistent s.rollouts
    → record_training_batch b ms s ≡ ok (tt, t)
    → Used s t
unfolding record_training_batch
batch-Used b ms s t k c run =
    Ensures-ok _ (λ _ u. Used s u) tt t
      (Ensures-guard _ s _ _ _ λ _. Ensures-gets _ s _ _ (by_row _)) run
  where
    by_row : (o : Option TrainingBatch) → Ensures (record_batch_by b ms o s) (λ _ u. Used s u)
    by_row (some x) = Ensures-check _ s _ _ λ _. (c, Rows-refl s.rollouts)
    by_row none = Ensures-gets _ s _ _ (
        Ensures-guard _ s _ _ _ λ _. Ensures-gets _ s _ _ (
          Ensures-guard _ s _ _ _ λ all_free. Ensures-gets _ s _ _ (
            Ensures-guard _ s _ _ _ λ _. Ensures-write _ s _ (
              members-IsConsistent b.step 0 ms s.rollouts
                  (All-mono (λ r. among r ms ≡ true → is_free r ≡ true) (Named ms)
                    (λ r f a. ground (arith, f a)) s.rollouts
                    (available-All ms s.rollouts k (==→eq _ _ all_free)))
                  c,
              members-Kept b.step 0 ms s.rollouts,
            ))))
