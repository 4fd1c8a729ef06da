-- ===== src/Processing/Ends.antt =====
-- The loop of `_emit_ready_batches` ends.
use aether_rl.Prelude.{
  ℕ, zero, suc, ◌<◌, ◌≢◌, refl, Bool-cases, inl, inr, Option, none, some, List, [], ◌∷◌, ◌&&◌,
  arith, map,
}
use aether_rl.Tx.{Result, ok, err, Tx, transaction}
use aether_rl.Tx.Rules.{Ensures}
use aether_rl.Coordinator.Schema.{Db, Policy, SchedulerState}
use aether_rl.Coordinator.Stale.{active_policy_row}
use aether_rl.Processing.Selecting.{Pending, Sample, select_batch}
use aether_rl.Processing.Emitting.{
  pending_processed_rollouts, Round, finished, dropped, emitted, failed, settle, Setting, gather,
  batch_of, member_of, record_batch, emit_samples, emit_selected, stale_in, without_stale,
  in_window, with_pending, emit_round, out_of_fuel, next, emit, emit_ready_batches,
  payloads_are_single, samples_are_single,
}
use aether_rl.Processing.Rounds.{free, discard-fewer, record-fewer}

-- A round that goes on leaves fewer than `k` free rollouts.
abbrev Shrinks : ℕ → Round × Db → Type 0
Shrinks k (finished, t) = Unit
Shrinks k (dropped, t) = free t.rollouts < k
Shrinks k (emitted, t) = free t.rollouts < k
Shrinks k (failed e, t) = Unit

settle-Shrinks :
    (k : ℕ) (n : Round) (m : Tx Db Unit) (s : Db)
    → Ensures (m s) (λ _ t. free t.rollouts < k)
    → Shrinks k (settle n (transaction m s))
unfolding transaction Ensures
settle-Shrinks k n m s h = go (m s) h
  where
    of_round : (n : Round) (t : Db) → free t.rollouts < k → Shrinks k (n, t)
    of_round finished t h = tt
    of_round dropped t h = h
    of_round emitted t h = h
    of_round (failed e) t h = tt

    go :
        (r : Result (Unit × Db))
        → Ensures r (λ _ t. free t.rollouts < k)
        → Shrinks k (settle n (elim r [ ok (a, s') ↦ (ok a, s') | err e ↦ (err e, s) ]))
    go (ok (a, t)) h = of_round n t h
    go (err e) h = tt

module _ (c : Setting) where
  record_batch-Shrinks :
      (selected : List Pending) (samples : List Sample) (s : Db)
      → Shrinks (free s.rollouts) (record_batch c selected samples s)
  unfolding batch_of
  record_batch-Shrinks selected samples s =
      elim (Bool-cases (payloads_are_single c selected && samples_are_single samples)) [
        | inl y ↦
            rw y (settle-Shrinks _ emitted _ s (record-fewer _ (map member_of selected) s refl))
        | inr n ↦ rw n tt
      ]

  emit_samples-Shrinks :
      (selected : List Pending) (o : Option (List Sample)) (s : Db)
      → Shrinks (free s.rollouts) (emit_samples c selected o s)
  emit_samples-Shrinks selected none s = tt
  emit_samples-Shrinks selected (some []) s =
      settle-Shrinks _ dropped _ s (discard-fewer (map member_of selected) s)
  emit_samples-Shrinks selected (some (x ∷ xs)) s = record_batch-Shrinks selected (x ∷ xs) s

  emit_selected-Shrinks :
      (selected : List Pending) (s : Db) → Shrinks (free s.rollouts) (emit_selected c selected s)
  unfolding emit_selected
  emit_selected-Shrinks [] s = tt
  emit_selected-Shrinks (r ∷ rs) s = emit_samples-Shrinks (r ∷ rs) (gather c (r ∷ rs)) s

  without_stale-Shrinks :
      (pending stale : List Pending) (s : Db)
      → Shrinks (free s.rollouts) (without_stale c pending stale s)
  without_stale-Shrinks pending [] s =
      emit_selected-Shrinks (select_batch c.sizes c.payload_of pending) s
  without_stale-Shrinks pending (r ∷ rs) s =
      settle-Shrinks _ dropped _ s (discard-fewer (map member_of (r ∷ rs)) s)

  in_window-Shrinks :
      (pending : List Pending) (p : Option Policy) (o : Option SchedulerState) (s : Db)
      → Shrinks (free s.rollouts) (in_window c pending p o s)
  in_window-Shrinks pending none o s = tt
  in_window-Shrinks pending (some p) none s = tt
  in_window-Shrinks pending (some p) (some o) s =
      without_stale-Shrinks pending (stale_in c p.policy_version o.max_policy_lag pending) s

  emit_round-Shrinks : (s : Db) → Shrinks (free s.rollouts) (emit_round c s)
  unfolding emit_round
  emit_round-Shrinks s = go (pending_processed_rollouts s)
    where
      go : (pending : List Pending) → Shrinks (free s.rollouts) (with_pending c pending s)
      go [] = tt
      go (r ∷ rs) = in_window-Shrinks (r ∷ rs) (active_policy_row s) s.scheduler s

  emit-ends : (fuel n : ℕ) (s : Db) → free s.rollouts < fuel → (emit c fuel n s).0 ≢ out_of_fuel
  unfolding emit
  emit-ends zero n s h = absurd (omega (arith, h))
  emit-ends (suc fuel) n s h =
      go (λ m t g. emit-ends fuel m t (omega (arith, g, h))) (emit_round c s) (emit_round-Shrinks s)
    where
      go :
          ((m : ℕ) (t : Db) → free t.rollouts < free s.rollouts → (emit c fuel m t).0 ≢ out_of_fuel)
          → (r : Round × Db) → Shrinks (free s.rollouts) r
          → (next (emit c fuel) n r).0 ≢ out_of_fuel
      go again (finished, t) g e = absurd (ground (arith, e))
      go again (dropped, t) g e = again n t g e
      go again (emitted, t) g e = again (suc n) t g e
      go again (failed f, t) g e = absurd (ground (arith, e))

-- From every database, `_emit_ready_batches` returns or raises: each round that goes on has discarded
-- a free rollout or put one into a batch, so there are at most as many such rounds as free rollouts.
pub emit_ready_batches-ends : (c : Setting) (s : Db) → (emit_ready_batches c s).0 ≢ out_of_fuel
unfolding emit_ready_batches
emit_ready_batches-ends c s = emit-ends c (suc (free s.rollouts)) 0 s (omega arith)
