-- ===== src/Coordinator/Promises/Retries.antt =====
-- When an attempt that ended is followed by another, and how long after it.
use mathlib.Core.Option
use native.Mathlib.Numerals.{unary_clauses}
use aether_rl.Prelude.{
  ℕ, zero, suc, ◌+◌, ◌*◌, ◌^◌, ◌≤◌, ◌<◌, min, ◌≡◌, ◌⊎◌, refl, Bool, true, false, Option, none, some,
  List, [], ◌∷◌, ◌++◌, arith, leb, is_none, holds_some, if◌then◌else◌, ==-refl,
}
use aether_rl.Tx.{ok}
use aether_rl.Tx.Rules.{
  Ensures-ok, Ensures-pure, Ensures-if, Ensures-then, Ensures-modify, Ensures-gets, Ensures-guard,
  Ensures-write,
}
use aether_rl.Table.{select, select-update_self, select-append}
use aether_rl.Coordinator.Schema.{
  Db, Assignment, AssignmentOutcome, Outcome, failure, attempts_exhausted, deadline_exceeded,
}
use aether_rl.Coordinator.Rows.{assignment_key, outcome_key, insert_outcome}
use aether_rl.Coordinator.Lifecycle.{
  RetrySettings, FailureReport, scaled_base, delay_overflows, retry_delay, can_retry,
  retryable_report, terminal_outcome, to_retry, to_failed, retry_or_terminal, report_lease,
  report_digest,
}

doubled-pos : (k : ℕ) → 1 ≤ 2 ^ k
doubled-pos zero = omega arith
doubled-pos (suc k) = omega (arith, doubled-pos k)

scaled-base : (b p : ℕ) → 1 ≤ p → b ≤ b * p
scaled-base zero p h = omega arith
scaled-base (suc b) p h = grind (arith, scaled-base b p h)

scaled-double : (b p : ℕ) → b * p ≤ b * (p * 2)
scaled-double zero p = omega arith
scaled-double (suc b) p = grind (arith, scaled-double b p)

scaled_base-grows : (b n : ℕ) → 1 ≤ n → scaled_base b n ≤ scaled_base b (n + 1)
scaled_base-grows b zero h = absurd (omega (arith, h))
scaled_base-grows b (suc k) h = simp unary_clauses (scaled-double b (2 ^ k))

scaled_base-least : (b n : ℕ) → 1 ≤ n → b ≤ scaled_base b n
scaled_base-least b zero h = absurd (omega (arith, h))
scaled_base-least b (suc k) h = scaled-base b (2 ^ k) (doubled-pos k)

-- From the first attempt to the 1023rd, the delay of `_retry_or_terminal` overflows neither at this
-- attempt nor at the next; it never exceeds the maximum, never falls short of the smaller of the base and
-- the maximum, and does not decrease from one attempt to the next.
pub retry_delay-bounds :
    (cfg : RetrySettings) (a : Assignment)
    → 1 ≤ a.attempt_count
    → a.attempt_count < 1024
    → (delay_overflows a ≡ false)
      × (delay_overflows (record a { attempt_count = a.attempt_count + 1 }) ≡ false)
      × (retry_delay cfg a ≤ cfg.retry_max_seconds)
      × (min cfg.retry_max_seconds cfg.retry_base_seconds ≤ retry_delay cfg a)
      × (retry_delay cfg a ≤ retry_delay cfg (record a { attempt_count = a.attempt_count + 1 }))
unfolding retry_delay
retry_delay-bounds cfg a first few = (
  ground (arith, few),
  ground (arith, few),
  omega arith,
  omega (arith, scaled_base-least cfg.retry_base_seconds a.attempt_count first),
  omega (arith, scaled_base-grows cfg.retry_base_seconds a.attempt_count first),
)

-- What `_retry_or_terminal` decides. A retry means that the failure may be retried, that attempts are
-- left and that the wait ends before the deadline; the assignment then waits for that time. Otherwise
-- the assignment has failed and holds no lease.
abbrev pub Retried :
    RetrySettings → Assignment → ℕ → Option FailureReport → Option Assignment → Type 0
Retried cfg a now envelope row =
    (a.attempt_count < a.max_attempts)
    × (retryable_report envelope ≡ true)
    × (holds_some (λ d. leb d (now + retry_delay cfg a)) a.deadline_at ≡ false)
    × (row ≡ some (to_retry (now + retry_delay cfg a) a))

abbrev pub Ended :
    RetrySettings
    → Assignment
    → ℕ
    → Option FailureReport
    → Option Assignment
    → Option Outcome
    → Type 0
Ended cfg a now envelope row outcome =
    (row ≡ some (to_failed a)) × (outcome ≡ some (terminal_outcome cfg a now envelope))

abbrev outcome_of : ℕ → Db → Option Outcome
outcome_of i s = Option.map (λ (o : AssignmentOutcome). o.outcome) (select outcome_key i s.outcomes)

-- `_retry_or_terminal` of an assignment that the table has: if it returns that the assignment is not
-- terminal, then attempts are left, the failure may be retried, the wait ends before the deadline, and
-- the row waits until then; if it returns that it is, the row has failed and its outcome is recorded.
pub retry-decides :
    (cfg : RetrySettings) (a : Assignment) (now : ℕ) (envelope : Option FailureReport)
    (lease : Option ℕ) (s t : Db) (terminal : Bool)
    → select assignment_key a.assignment_id s.assignments ≡ some a
    → retry_or_terminal cfg a now envelope lease s ≡ ok (terminal, t)
    → if terminal
      then Ended cfg a now envelope
          (select assignment_key a.assignment_id t.assignments)
          (outcome_of a.assignment_id t)
      else Retried cfg a now envelope (select assignment_key a.assignment_id t.assignments)
unfolding retry_or_terminal can_retry insert_outcome Option.or_else
retry-decides cfg a now envelope lease s t terminal found run =
    Ensures-ok _
      (λ b u.
        if b
        then Ended cfg a now envelope (select assignment_key a.assignment_id u.assignments)
            (outcome_of a.assignment_id u)
        else Retried cfg a now envelope (select assignment_key a.assignment_id u.assignments))
      terminal t
      (Ensures-guard _ s _ _ _ λ _.
        Ensures-if (can_retry cfg a now envelope) _ _ s _
          (λ yes. Ensures-modify _ s _ _ (
            Ensures-pure _ false _ (
              ground arith,
              ground arith,
              ground arith,
              select-update_self assignment_key (to_retry (now + retry_delay cfg a)) (λ _. refl)
                  a.assignment_id s.assignments a found,
            )))
          (λ no'. Ensures-modify _ s _ _ (
            Ensures-then _ _ _ _ (
              Ensures-gets _ _ _ _ (
                Ensures-guard _ _ _ _ _ λ free. Ensures-write _ _ _ (
                  Ensures-pure _ true _ (
                    select-update_self assignment_key to_failed (λ _. refl) a.assignment_id
                        s.assignments a found,
                    recorded s.outcomes free,
                  )))))))
      run
  where
    recorded :
        (os : List AssignmentOutcome)
        → is_none (select outcome_key a.assignment_id os) ≡ true
        → Option.map
            (λ (o : AssignmentOutcome). o.outcome)
            (select outcome_key a.assignment_id (
              os
              ++ (record {
                assignment_id = a.assignment_id;
                outcome = terminal_outcome cfg a now envelope;
                lease_id = report_lease envelope lease;
                envelope_digest = report_digest envelope;
                completed_at = now;
              })
                ∷ []))
          ≡ some (terminal_outcome cfg a now envelope)
    recorded os free =
        let new : select outcome_key a.assignment_id os ≡ none = ground arith in
        rw (select-append outcome_key a.assignment_id os) (rw (new, ==-refl a.assignment_id) refl)

-- The outcome that `_retry_or_terminal` records says why there is no retry: the attempts are used up,
-- or the failure may not be retried, or the wait would end at the deadline or after it.
pub terminal_outcome-reason :
    (cfg : RetrySettings) (a : Assignment) (now : ℕ) (envelope : Option FailureReport)
    → can_retry cfg a now envelope ≡ false
    → ((terminal_outcome cfg a now envelope ≡ attempts_exhausted)
        × (a.max_attempts ≤ a.attempt_count))
      ⊎ ((terminal_outcome cfg a now envelope ≡ failure)
          × (retryable_report envelope ≡ false)
          × (a.attempt_count < a.max_attempts))
      ⊎ ((terminal_outcome cfg a now envelope ≡ deadline_exceeded)
          × (holds_some (λ d. leb d (now + retry_delay cfg a)) a.deadline_at ≡ true)
          × (a.attempt_count < a.max_attempts))
unfolding can_retry terminal_outcome
terminal_outcome-reason cfg a now envelope h = ground arith
