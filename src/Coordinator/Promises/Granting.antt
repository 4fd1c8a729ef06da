-- ===== src/Coordinator/Promises/Granting.antt =====
-- The leases that are granted, and the answers of a heartbeat.
use mathlib.Core.List.Perm
use mathlib.Core.List.{Perm, append-nil, append_assoc}
use aether_rl.Prelude.{
  perm_of_eq, perm_middle, perm_comm, sym, map, ◌++◌, Bool, ℕ, ◌+◌, ◌≤◌, ◌<◌, ◌≡◌, refl, arith,
  false, Option, none, some, List, [], ◌∷◌, ltb, holds_some,
}
use aether_rl.Tx.{ok, pure}
use aether_rl.Tx.Rules.{
  Ensures, Ensures-ok, Ensures-pure, Ensures_any, Ensures_mono, Ensures-if, Ensures-bind,
  Ensures-then, Ensures-gets, Ensures-require, Ensures-guard, Ensures-modify, Ensures-write,
}
use aether_rl.Table.{select}
use aether_rl.Coordinator.Schema.{Db, Assignment, Lease, is_due}
use aether_rl.Coordinator.Rows.{assignment_key, lease_key, insert_lease}
use aether_rl.Coordinator.Lifecycle.{terminalize_without_envelope}
use aether_rl.Coordinator.Leases.{AssignmentLease, capped, grant}
use aether_rl.Coordinator.Renewal.{
  Creation, created, deadline_passed, create_granted, create_passed, create_lease_body,
}
use aether_rl.Coordinator.Workers.{LeaseRenewal}
use aether_rl.Coordinator.Workers.{
  Heartbeat, Answers, append_renewal, append_stop, is_live, beat_joined, beat_row, beat_lease,
  beat_leases, record_heartbeat,
}

-- What a lease promises of the assignment's row that it was granted from.
abbrev pub Within : Assignment → AssignmentLease → Type 0
Within a l =
    (l.issued_at < l.expires_at)
    × (holds_some (λ d. ltb d l.expires_at) a.deadline_at ≡ false)
    × (l.attempt ≡ a.attempt_count + 1)

module _ (a : Assignment) (worker session lease now duration : ℕ) where
  grant-Within :
      (s : Db) → Ensures (grant a worker session lease now duration s) (λ l t. Within a l)
  unfolding grant insert_lease
  grant-Within s = Ensures-then _ s _ _ (
      Ensures-gets _ s _ _ (
        Ensures-guard _ s _ _ _ λ _. Ensures-gets _ s _ _ (
          Ensures-guard _ s _ _ _ λ _. Ensures-guard _ s _ _ _ λ check. Ensures-write _ s _ (
            Ensures-modify _ _ _ _
              (Ensures-pure _ _ _ (ground arith, before_deadline a.deadline_at, refl))))))
    where
      before_deadline :
          (o : Option ℕ) → holds_some (λ d. ltb d (capped o (now + duration))) o ≡ false
      before_deadline none = refl
      before_deadline (some d) = ground arith

-- The lease that `create_lease` answers.
abbrev pub Created : ℕ → Db → Creation → Type 0
Created i s deadline_passed = Unit
Created i s (created l) =
    (a : Assignment) × (select assignment_key i s.assignments ≡ some a)
    × Within a l
    × (l.attempt ≤ a.max_attempts)

create-Created :
    (i worker session lease duration now : ℕ) (s : Db)
    → Ensures (create_lease_body i worker session lease duration now s) (λ r t. Created i s r)
unfolding create_lease_body create_granted create_passed
create-Created i worker session lease duration now s = Ensures-require _ s _ _ _ λ a e.
    Ensures-guard _ s _ _ _ λ _. Ensures-guard _ s _ _ _ λ _. Ensures-require _ s _ _ _ λ row _.
      Ensures-guard _ s _ _ _ λ _. Ensures-guard _ s _ _ _ λ left.
        Ensures-if (is_due a.deadline_at now) (create_passed a now)
          (create_granted a row.inference_slots worker session lease duration now) s
          (λ r t. Created i s r)
          (λ _.
            Ensures-then _ s (terminalize_without_envelope a _ now) (pure deadline_passed)
              (Ensures_any _ _ λ _ t. Ensures-pure _ deadline_passed t tt))
          (λ _. Ensures-gets _ s _ _ (
            Ensures-guard _ s _ _ _ λ _. Ensures-bind _ s _ _ (
              Ensures_mono _ _ _
                (λ l t w. Ensures-pure _ (created l) t (a, e, w, ground (arith, w)))
                (grant-Within a worker session lease now duration s))))

-- A lease that `create_lease` answers ends after it is issued and no later than the assignment's
-- deadline, and its attempt is the next one and at most the last that the assignment allows.
pub create_lease-Within :
    (i worker session lease duration now : ℕ) (s t : Db) (l : AssignmentLease)
    → create_lease_body i worker session lease duration now s ≡ ok (created l, t)
    → (a : Assignment) × (select assignment_key i s.assignments ≡ some a)
      × Within a l
      × (l.attempt ≤ a.max_attempts)
create_lease-Within i worker session lease duration now s t l run =
    Ensures-ok _ (λ r t. Created i s r) (created l) t
      (create-Created i worker session lease duration now s) run

-- The leases that the lists answer.
abbrev pub answered : Answers → List ℕ
answered (renewals, stop_ids) = map (λ (r : LeaseRenewal). r.lease_id) renewals ++ stop_ids

answered-renewal :
    (r : LeaseRenewal) (as' : Answers)
    → Perm (answered (append_renewal r as')) (r.lease_id ∷ answered as')
answered-renewal r (rs, ks) = renewed rs
  where
    renewed :
        (rs : List LeaseRenewal)
        → Perm
            (map (λ (x : LeaseRenewal). x.lease_id) (rs ++ r ∷ []) ++ ks)
            (r.lease_id ∷ map (λ (x : LeaseRenewal). x.lease_id) rs ++ ks)
    renewed [] = Perm.refl _
    renewed (x ∷ rs) =
        Perm.trans (Perm.cons x.lease_id (renewed rs)) (Perm.swap r.lease_id x.lease_id _)

answered-stop : (k : ℕ) (as' : Answers) → Perm (answered (append_stop k as')) (k ∷ answered as')
answered-stop k (rs, ks) =
    let ids = map (λ (x : LeaseRenewal). x.lease_id) rs in
    Perm.trans (perm_of_eq _ _ (sym (append_assoc ids ks (k ∷ []))))
      (perm_comm (ids ++ ks) (k ∷ []))

-- One round answers its lease, and the loop all of them.
module _ (db : Db) (now duration : ℕ) where
  module _ (k : ℕ) (cancelled : Bool) (as' : Answers) where
    joined-answered :
        (l : Lease) (o : Option Assignment) (s : Db)
        → Ensures
            (beat_joined db now duration k cancelled as' l o s)
            (λ later _. Perm (answered later) (k ∷ answered as'))
    joined-answered l none s = Ensures-pure _ _ s (answered-stop k as')
    joined-answered l (some a) s =
        Ensures-if (is_live now cancelled l a) _ _ s _
          (λ _.
            Ensures-guard _ s _ _ _
              λ _. Ensures-modify _ s _ _ (Ensures-pure _ _ _ (answered-renewal _ as')))
          (λ _. Ensures-pure _ _ s (answered-stop k as'))

    row-answered :
        (o : Option Lease) (s : Db)
        → Ensures
            (beat_row db now duration k cancelled as' o s)
            (λ later _. Perm (answered later) (k ∷ answered as'))
    row-answered none s = Ensures-pure _ _ s (answered-stop k as')
    row-answered (some l) s = joined-answered l _ s

  loop-answered :
      (ks : List ℕ) (as' : Answers) (s : Db)
      → Ensures
          (beat_leases db now duration ks as' s)
          (λ later _. Perm (answered later) (ks ++ answered as'))
  unfolding beat_leases beat_lease
  loop-answered [] as' s = Ensures-pure _ _ s (Perm.refl _)
  loop-answered (k ∷ ks) as' s = Ensures-bind _ s _ _ (
      Ensures-then _ s _ _ (
        Ensures_any _ _ λ _ t.
          Ensures_mono _ _ _
            (λ later u p.
              Ensures_mono _ _ _
                (λ final _ q.
                  Perm.trans q
                    (Perm.trans (Perm.append_left ks p) (perm_middle k ks (answered as'))))
                (loop-answered ks later u))
            (row-answered k _ as' (select lease_key k db.leases) t)))

-- `record_heartbeat`, where it returns, answers every lease that the worker reported as often as it was
-- reported: either with a renewal of that lease or as one to stop.
pub heartbeat_answers :
    (b : Heartbeat) (now duration : ℕ) (s t : Db) (answers : Answers)
    → record_heartbeat b now duration s ≡ ok (answers, t)
    → Perm (answered answers) b.active_lease_ids
unfolding record_heartbeat
heartbeat_answers b now duration s t answers run =
    Ensures-ok _ (λ as' u. Perm (answered as') b.active_lease_ids) answers t
      (Ensures-guard _ s _ _ _ λ _. Ensures-then _ s _ _ (
        Ensures_any _ _ λ _ u. Ensures-require _ u _ _ _ λ x _. Ensures-guard _ u _ _ _ λ _.
          Ensures-guard _ u _ _ _ λ _. Ensures-then _ u _ _ (
            Ensures_any _ _ λ _ v. Ensures-gets _ v _ _ (
              Ensures-guard _ v _ _ _ λ _. Ensures-bind _ v _ _ (
                Ensures_mono _ _ _
                  (λ as' w p. Ensures-modify _ w _ _ (
                    Ensures-pure _ as' _
                      (Perm.trans p (perm_of_eq _ _ (append-nil b.active_lease_ids)))))
                  (loop-answered v now duration b.active_lease_ids ([], []) v))))))
      run
