-- ===== src/Processing/Emission.antt =====
-- The batches that `_emit_ready_batches` emits.
use aether_rl.Prelude.{
  ◌∙◌, ==→eq, length, length-map, ℕ, ◌+◌, ◌≤◌, ◌≡◌, refl, sym, ap, subst, Bool, true, false,
  Bool-cases, inl, inr, Option, none, some, List, [], ◌∷◌, ◌++◌, ◌&&◌, arith, All, All-mono,
  All-keep_where, All-of-keep, map,
}
use aether_rl.Tx.{Result, ok, err, Tx, transaction}
use aether_rl.Tx.Rules.{Ensures, Ensures-ok, Ensures-gets, Ensures-guard, Ensures-write}
use aether_rl.Coordinator.Schema.{Db, Policy, SchedulerState, TrainingBatch}
use aether_rl.Coordinator.Stale.{active_policy_row}
use aether_rl.Coordinator.Batches.{available, next_training_batch_step, record_training_batch}
use aether_rl.Coordinator.Promises.Batching.{Rows}
use aether_rl.Processing.Assigning.{Assigned, assign_members-Assigned}
use aether_rl.Processing.Selecting.{Pending, Sample, select_batch}
use aether_rl.Processing.Emitting.{
  pending_processed_rollouts, Round, dropped, emitted, failed, settle, Setting, gather, batch_of,
  member_of, emit_samples, emit_selected, stale_in, without_stale, in_window, with_pending,
  emit_round, payloads_are_single, samples_are_single,
}
use aether_rl.Processing.Selecting.{
  Identity, payload_identity, same_identity, identity_of, sizes_are_valid,
}
use aether_rl.Processing.Partition.{same_identity-IsEquality}
use aether_rl.Processing.Homogeneous.{select_batch-IsSelected}
use aether_rl.Processing.Emitting.{is_stale, assertion_error}
use aether_rl.Processing.Rounds.{select-next}

-- A batch that a round added: its rollouts are those that the choice takes of the pending ones, they stem
-- from one policy, which the active policy is ahead of by no more than the configured lag, and they, and
-- no others, get the step of the batch.
pub record IsEmission (c : Setting) (s t : Db) : Type 0 where
  pub active : Policy
  pub settings : SchedulerState
  pub selected : List Pending
  pub samples : List Sample
  pub identity : Identity
  pub active_row : active_policy_row s ≡ some active
  pub is_set : s.scheduler ≡ some settings
  pub one_policy : All (λ r. identity_of c.payload_of r ≡ identity) selected
  pub in_lag :
      (lag : ℕ) → settings.max_policy_lag ≡ some lag → active.policy_version ≤ identity.0 + lag
  pub gathered : gather c selected ≡ some samples
  pub single : samples_are_single samples ≡ true
  pub chosen : select_batch c.sizes c.payload_of (pending_processed_rollouts s) ≡ selected
  pub free : available (map member_of selected) s.rollouts ≡ length selected
  pub rows :
      Rows (Assigned (next_training_batch_step s) (map member_of selected)) s.rollouts t.rollouts
  pub batches : t.batches ≡ s.batches ++ batch_of c (next_training_batch_step s) samples ∷ []

All-of-append : {A : Type 0} (P : A → Type 0) (xs ys : List A) → All P (xs ++ ys) → All P xs
All-of-append P [] ys h = tt
All-of-append P (x ∷ xs) ys h = (h.0, All-of-append P xs ys h.1)

abbrev Recorded : TrainingBatch → List (ℕ × ℕ) → Db → Db → Type 0
Recorded b ms s t =
    (t.batches ≡ s.batches ++ b ∷ [])
    × (available ms s.rollouts ≡ length ms)
    × Rows (Assigned b.step ms) s.rollouts t.rollouts

record-appends :
    (b : TrainingBatch) (ms : List (ℕ × ℕ)) (s : Db)
    → b.step ≡ next_training_batch_step s
    → Ensures (record_training_batch b ms s) (λ _ t. Recorded b ms s t)
unfolding record_training_batch next_training_batch_step
record-appends b ms s e = Ensures-guard _ s _ _ _ λ _. Ensures-gets _ s _ _ (
    rw (select-next s.batches b.step (omega (arith, e))) (
      Ensures-gets _ s _ _ (
        Ensures-guard _ s _ _ _ λ _. Ensures-gets _ s _ _ (
          Ensures-guard _ s _ _ _ λ free. Ensures-gets _ s _ _ (
            Ensures-guard _ s _ _ _ λ _.
              Ensures-write _ s _
                (refl, ==→eq _ _ free, assign_members-Assigned b.step 0 ms s.rollouts))))))

settle_run :
    (n : Round) (m : Tx Db Unit) (s t : Db)
    → settle n (transaction m s) ≡ (emitted, t)
    → (n ≡ emitted) × (m s ≡ ok (tt, t))
unfolding transaction
settle_run n m s t h = go (m s) h
  where
    go :
        (r : Result {0} (Unit × Db))
        → settle n (elim r [ ok (a, s') ↦ (ok a, s') | err e ↦ (err e, s) ]) ≡ (emitted, t)
        → (n ≡ emitted) × (r ≡ ok (tt, t))
    go (ok (a, u)) e = (ap (λ p. p.0) e, ap (λ p. ok (tt, p.1)) e)
    go (err f) e = absurd (ground (arith, e))

not_true : (b : Bool) → (b ≡ true → ⊥) → b ≡ false
not_true true h = absurd (h refl)
not_true false h = refl

module _ (c : Setting) (valid : sizes_are_valid c.sizes ≡ true) where
  selected-policy :
      (P : Pending → Type 0) (pending : List Pending) (r : Pending) (rs : List Pending)
      → select_batch c.sizes c.payload_of pending ≡ r ∷ rs
      → All P pending
      → (i : Identity) × All (λ x. P x × (identity_of c.payload_of x ≡ i)) (r ∷ rs)
  selected-policy P pending r rs e h =
      elim (select_batch-IsSelected c.sizes c.payload_of pending valid) [
        | inl (n, _) ↦ absurd (ground (arith, e, n))
        | inr k ↦ (
          k.policy,
          All-mono _ _ (λ x q. (q.0, same_identity-IsEquality.eq_path _ _ q.1)) (r ∷ rs)
              (subst (All _) e (
                All-of-append _ _ k.rest (
                  subst (All _) k.from_start (
                    All-keep_where P (λ x. same_identity (identity_of c.payload_of x) k.policy)
                      pending h)))),
        )
      ]

  -- The pending rollouts are not stale.
  abbrev IsFresh : ℕ → Option ℕ → Pending → Type 0
  IsFresh version lag x = is_stale version lag (c.payload_of x.artifact_path) ≡ false

  fresh-lag :
      (version lag : ℕ) (o : Option ℕ) (i : Identity) (x : Pending)
      → IsFresh version o x
      → identity_of c.payload_of x ≡ i
      → o ≡ some lag
      → version ≤ i.0 + lag
  unfolding is_stale identity_of payload_identity
  fresh-lag version lag none i x f e q = absurd (ground (arith, q))
  fresh-lag version lag (some l) i x f e q = rw (sym e) (ground (arith, f, q))

  All-IsFresh :
      (version : ℕ) (lag : Option ℕ) (pending : List Pending)
      → stale_in c version lag pending ≡ []
      → All (IsFresh version lag) pending
  All-IsFresh version lag pending e =
      All-mono _ _ (λ x no. not_true (is_stale version lag (c.payload_of x.artifact_path)) no)
        pending
        (All-of-keep (λ _. ⊥) (λ x. is_stale version lag (c.payload_of x.artifact_path)) pending
          (subst (All _) (sym e) tt))

  module _ (s t : Db) (p : Policy) (o : SchedulerState) (active_row : active_policy_row s ≡ some p)
      (is_set : s.scheduler ≡ some o) where
    of_samples :
        (r : Pending) (rs : List Pending) (i : Identity)
        → select_batch c.sizes c.payload_of (pending_processed_rollouts s) ≡ r ∷ rs
        → All
            (λ x. IsFresh p.policy_version o.max_policy_lag x × (identity_of c.payload_of x ≡ i))
            (r ∷ rs)
        → (g : Option (List Sample)) → gather c (r ∷ rs) ≡ g
        → emit_samples c (r ∷ rs) g s ≡ (emitted, t)
        → IsEmission c s t
    unfolding batch_of
    of_samples r rs i f h none e run = absurd (ground (arith, run))
    of_samples r rs i f h (some []) e run =
        let q = (settle_run dropped _ s t run).0 in absurd (ground (arith, q))
    of_samples r rs i f h (some (x ∷ xs)) e run =
        elim (Bool-cases (payloads_are_single c (r ∷ rs) && samples_are_single (x ∷ xs))) [
          | inl y ↦ record {
            active = p;
            settings = o;
            selected = r ∷ rs;
            samples = x ∷ xs;
            identity = i;
            active_row = active_row;
            is_set = is_set;
            one_policy = All-mono _ _ (λ x q. q.1) (r ∷ rs) h;
            in_lag = λ lag q. fresh-lag p.policy_version lag o.max_policy_lag i r h.0.0 h.0.1 q;
            gathered = e;
            single = ground (arith, y);
            chosen = f;
            free = (recorded y).1 ∙ length-map (r ∷ rs) member_of;
            rows = (recorded y).2;
            batches = (recorded y).0;
          }
          | inr n ↦
              (let q : failed assertion_error ≡ emitted = ap (λ p. p.0) (rw n at run) in
                absurd (ground (arith, q)))
        ]
      where
        recorded :
            payloads_are_single c (r ∷ rs) && samples_are_single (x ∷ xs) ≡ true
            → Recorded
                (batch_of c (next_training_batch_step s) (x ∷ xs))
                (map member_of (r ∷ rs))
                s
                t
        recorded y =
            Ensures-ok _
              (λ _ u.
                Recorded (batch_of c (next_training_batch_step s) (x ∷ xs)) (map member_of (r ∷ rs))
                  s u)
              tt t
              (record-appends (batch_of c (next_training_batch_step s) (x ∷ xs))
                (map member_of (r ∷ rs)) s refl)
              (settle_run emitted _ s t (rw y at run)).1

    of_selected :
        (pending sel : List Pending)
        → pending ≡ pending_processed_rollouts s
        → stale_in c p.policy_version o.max_policy_lag pending ≡ []
        → select_batch c.sizes c.payload_of pending ≡ sel
        → emit_selected c sel s ≡ (emitted, t)
        → IsEmission c s t
    unfolding emit_selected
    of_selected pending [] w e f run = absurd (ground (arith, run))
    of_selected pending (r ∷ rs) w e f run =
        let k =
          selected-policy (IsFresh p.policy_version o.max_policy_lag) pending r rs f
            (All-IsFresh p.policy_version o.max_policy_lag pending e) in
        of_samples r rs k.0 (ap (select_batch c.sizes c.payload_of) (sym w) ∙ f) k.1
          (gather c (r ∷ rs)) refl run

    of_stale :
        (pending stale : List Pending)
        → pending ≡ pending_processed_rollouts s
        → stale_in c p.policy_version o.max_policy_lag pending ≡ stale
        → without_stale c pending stale s ≡ (emitted, t)
        → IsEmission c s t
    of_stale pending [] w e run =
        of_selected pending (select_batch c.sizes c.payload_of pending) w e refl run
    of_stale pending (r ∷ rs) w e run =
        let q = (settle_run dropped _ s t run).0 in absurd (ground (arith, q))

  of_window :
      (s t : Db) (pending : List Pending) (p : Option Policy) (o : Option SchedulerState)
      → pending ≡ pending_processed_rollouts s
      → active_policy_row s ≡ p
      → s.scheduler ≡ o
      → in_window c pending p o s ≡ (emitted, t)
      → IsEmission c s t
  of_window s t pending none o w e f run = absurd (ground (arith, run))
  of_window s t pending (some p) none w e f run = absurd (ground (arith, run))
  of_window s t pending (some p) (some o) w e f run =
      of_stale s t p o e f pending (stale_in c p.policy_version o.max_policy_lag pending) w refl run

  of_pending :
      (s t : Db) (pending : List Pending)
      → pending ≡ pending_processed_rollouts s
      → with_pending c pending s ≡ (emitted, t)
      → IsEmission c s t
  of_pending s t [] w run = absurd (ground (arith, run))
  of_pending s t (r ∷ rs) w run =
      of_window s t (r ∷ rs) (active_policy_row s) s.scheduler w refl refl run

-- With one positive size configured, a round that emits appends one batch with the next step to the
-- table. It takes the rollouts that are chosen of the pending ones: as many free rows as it takes carry
-- their keys, these rows get the step, and every other row stays as it was. The samples are those of the
-- chosen rollouts, which are of one policy, they name one version and one digest, and the active
-- policy's version is ahead of the rollouts' by at most the configured lag.
pub emit_round-IsEmission :
    (c : Setting) (s t : Db)
    → sizes_are_valid c.sizes ≡ true
    → emit_round c s ≡ (emitted, t)
    → IsEmission c s t
unfolding emit_round
emit_round-IsEmission c s t valid run =
    of_pending c valid s t (pending_processed_rollouts s) refl run
