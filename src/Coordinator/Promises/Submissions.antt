-- ===== src/Coordinator/Promises/Submissions.antt =====
-- Submitting a result again, expiring leases and releasing a lease.
use mathlib.Core.Option
use aether_rl.Prelude.{
  ℕ, ◌≤◌, All, All-mono, ◌≡◌, ◌∙◌, sym, ap, refl, inl, inr, false, true, Option, none, some, arith,
  ==-refl,
}
use aether_rl.Tx.{Result, ok, err, integrity, transaction, ◌>>=◌, ◌>>◌, gets, guard}
use aether_rl.Tx.Rules.{
  Ensures, Ensures-pure, Ensures_any, Ensures-bind, Ensures-then, Ensures-gets, Ensures-guard,
}
use aether_rl.Tx.Total.{Returns-ok}
use aether_rl.Table.{select, select-append}
use aether_rl.Coordinator.Schema.{Db, AcceptedResult, PolicyManifest, Lease, is_active}
use aether_rl.Coordinator.Rows.{lease_key, result_key}
use aether_rl.Coordinator.Lifecycle.{RetrySettings, delay_overflows, expired_leases, expire_leases}
use aether_rl.Coordinator.Renewal.{release_unoffered_lease}
use aether_rl.Coordinator.Results.{
  ResultEnvelope, AcceptanceRecord, result_record, result_row, accept_in_transaction,
  existing_result, existing_terminal, check_new, check_result, publish_then, accept_result,
}
use aether_rl.Coordinator.Calls.{Reaches, empty_db}
use aether_rl.Coordinator.Sound.{IsSound}
use aether_rl.Coordinator.Sound.Expiry.{expire_leases-returns}
use aether_rl.Coordinator.Sound.Release.{release-refused}
use aether_rl.Coordinator.Sound.Results.{Accepted, accept-Accepted}
use aether_rl.Coordinator.History.{Reaches-IsSound, empty-IsSound}

-- What the check before the publication answers is a duplicate.
abbrev IsDuplicate : Option AcceptanceRecord → Type 0
IsDuplicate none = Unit
IsDuplicate (some d) = d.duplicate ≡ true

module _ (e : ResultEnvelope) (received : ℕ) (s : Db) where
  check_by_row :
      (o : Option AcceptedResult)
      → Ensures
          (existing_result e.assignment_id e.lease_id e.digest o s)
          (λ d t. Ensures (check_new e received d t) (λ r _. IsDuplicate r))
  check_by_row none = Ensures-gets _ s _ _ (
      Ensures-guard _ s _ _ _ λ _.
        Ensures-pure _ none s
          (Ensures-then _ s _ _ (Ensures_any _ _ λ _ t. Ensures-pure _ none t tt)))
  check_by_row (some r) = Ensures-guard _ s _ _ _ λ _. Ensures-pure _ _ s (Ensures-pure _ _ s refl)

  check-IsDuplicate : Ensures (check_result e received s) (λ r _. IsDuplicate r)
  unfolding check_result existing_terminal
  check-IsDuplicate = Ensures-bind _ s _ _ (Ensures-gets _ s _ _ (check_by_row _))

check_known :
    (e : ResultEnvelope) (received : ℕ) (u : Db) (r : AcceptedResult)
    → select result_key e.assignment_id u.results ≡ some r
    → r.lease_id ≡ e.lease_id
    → r.envelope_digest ≡ e.digest
    → check_result e received u ≡ ok (some (result_record e.assignment_id e.digest true), u)
unfolding check_result existing_terminal ◌>>=◌ ◌>>◌ gets guard
check_known e received u r er el ed = rw er (ground arith)

answer_of : AcceptanceRecord → Result {0} AcceptanceRecord → AcceptanceRecord
answer_of r (ok a) = a
answer_of r (err e) = r

answer_injective :
    (r k : AcceptanceRecord) → ◌≡◌ {A = Result {0} AcceptanceRecord} (ok r) (ok k) → r ≡ k
unfolding answer_of
answer_injective r k q = ap (answer_of r) q

-- The row that an acceptance leaves.
accepted_row :
    (e : ResultEnvelope) (path received now : ℕ) (s t : Db)
    → IsSound s
    → accept_result e (some path) received now s
      ≡ (ok (result_record e.assignment_id e.digest false), t)
    → select result_key e.assignment_id t.results ≡ some (result_row e path now)
unfolding accept_result transaction Option.or_else Ensures
accepted_row e path received now s t h run =
    by_check (check_result e received s) (check-IsDuplicate e received s) run
  where
    by_transaction :
        (r : Result {0} (AcceptanceRecord × Db))
        → Ensures r (Accepted e path now s)
        → ◌≡◌ {A = Result {0} AcceptanceRecord × Db}
            (elim r [ ok (a, s') ↦ (ok a, s') | err x ↦ (err x, s) ])
            (ok (result_record e.assignment_id e.digest false), t)
        → select result_key e.assignment_id t.results ≡ some (result_row e path now)
    by_transaction (err x) a q = absurd (ground (arith, q))
    by_transaction (ok (r, v)) a q =
        let same : r ≡ result_record e.assignment_id e.digest false =
          answer_injective r (result_record e.assignment_id e.digest false) (ap (λ k. k.0) q) in
        elim a [
          | inl (p, _) ↦ absurd (
              ground (
                arith,
                ap (λ (k : AcceptanceRecord). k.duplicate) p,
                ap (λ (k : AcceptanceRecord). k.duplicate) same,
              ))
          | inr (_, new, (_, rows)) ↦
              ap (λ (k : Db). select result_key e.assignment_id k.results) (sym (ap (λ k. k.1) q))
              ∙ ap (λ z. select result_key e.assignment_id z) rows
              ∙ select-append result_key e.assignment_id s.results (result_row e path now)
              ∙ rw (new, ==-refl e.assignment_id) refl
        ]

    by_check :
        (r : Result {0} (Option AcceptanceRecord × Db))
        → Ensures r (λ d _. IsDuplicate d)
        → ◌≡◌ {A = Result {0} AcceptanceRecord × Db}
            (publish_then e (some path) now s r)
            (ok (result_record e.assignment_id e.digest false), t)
        → select result_key e.assignment_id t.results ≡ some (result_row e path now)
    by_check (err x) d q = absurd (ground (arith, q))
    by_check (ok (some k, v)) d q = absurd (
        ground (
          arith,
          d,
          ap (λ (j : AcceptanceRecord). j.duplicate)
              (answer_injective k (result_record e.assignment_id e.digest false) (ap (λ j. j.0) q)),
        ))
    by_check (ok (none, v)) d q =
        by_transaction (accept_in_transaction e path now s) (accept-Accepted e path now s h) q

-- What identifies a result that was accepted.
abbrev pub identity_of_row : AcceptedResult → ℕ × ℕ
identity_of_row r = (r.lease_id, r.envelope_digest)

-- Where the lease tables are sound and `accept_result` accepts a result that it did not have, it answers
-- the same envelope as a duplicate and changes nothing, in every later database whose row of this
-- assignment has the lease and the digest that were recorded: at any time, wherever the bytes are
-- published again, and whether or not the result was claimed or processed.
pub accept-twice :
    (e : ResultEnvelope) (path path' received received' now now' : ℕ) (s t u : Db)
    → IsSound s
    → accept_result e (some path) received now s
      ≡ (ok (result_record e.assignment_id e.digest false), t)
    → Option.map identity_of_row (select result_key e.assignment_id u.results)
      ≡ Option.map identity_of_row (select result_key e.assignment_id t.results)
    → accept_result e (some path') received' now' u
      ≡ (ok (result_record e.assignment_id e.digest true), u)
unfolding accept_result
accept-twice e path path' received received' now now' s t u h run kept =
    by_row (select result_key e.assignment_id u.results) refl
      (kept ∙ ap (Option.map identity_of_row) (accepted_row e path received now s t h run))
  where
    by_row :
        (o : Option AcceptedResult)
        → select result_key e.assignment_id u.results ≡ o
        → Option.map identity_of_row o ≡ some (e.lease_id, e.digest)
        → publish_then e (some path') now' u (check_result e received' u)
          ≡ (ok (result_record e.assignment_id e.digest true), u)
    by_row none q k = absurd (ground (arith, k))
    by_row (some r) q k =
        ap (publish_then e (some path') now' u)
          (check_known e received' u r q (ground (arith, k)) (ground (arith, k)))

-- In every database that calls lead to from the empty one, `_expire_leases` returns and leaves sound
-- tables, where no lease that it reads as expired is of an assignment with more than 1024 attempts: none
-- of its statements violates a constraint.
pub expire-returns :
    (cfg : RetrySettings) (share : ℕ → ℕ → ℕ) (digest_of : PolicyManifest → ℕ) (now : ℕ) (s : Db)
    → Reaches cfg share digest_of empty_db s
    → All (λ row. row.assignment.attempt_count ≤ 1024) (expired_leases now s)
    → (n : ℕ) × (t : Db) × (expire_leases cfg now s ≡ ok (n, t)) × IsSound t
expire-returns cfg share digest_of now s r few = Returns-ok _ _ (
    expire_leases-returns cfg now ⊥ s
      (Reaches-IsSound cfg share digest_of empty_db s r empty-IsSound)
      (All-mono (λ row. row.assignment.attempt_count ≤ 1024)
        (λ row. delay_overflows row.assignment ≡ true → ⊥)
        (λ row le over. absurd (ground (arith, le, over))) (expired_leases now s) few))

-- In every database that calls lead to from the empty one, `release_unoffered_lease` of an active
-- lease raises an integrity error.
pub release-raises :
    (cfg : RetrySettings) (share : ℕ → ℕ → ℕ) (digest_of : PolicyManifest → ℕ) (k now : ℕ) (s : Db)
    (l : Lease)
    → Reaches cfg share digest_of empty_db s
    → select lease_key k s.leases ≡ some l
    → is_active l.state ≡ true
    → release_unoffered_lease k now s ≡ err integrity
release-raises cfg share digest_of k now s l r found act =
    release-refused k now s l (Reaches-IsSound cfg share digest_of empty_db s r empty-IsSound) found
      act
