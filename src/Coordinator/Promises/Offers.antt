-- ===== src/Coordinator/Promises/Offers.antt =====
-- What `associate_offered_leases` promises.
use aether_rl.Prelude.{
  ℕ, ◌<◌, ◌≡◌, ◌∙◌, ◌⊎◌, inl, inr, refl, sym, ap, Bool, true, false, Option, none, some, List, [],
  ◌∷◌, arith, not, ◌==◌, ==→eq, any, All, holds_some,
}
use aether_rl.Tx.{ok}
use aether_rl.Tx.Rules.{
  Ensures, Ensures-ok, Ensures-pure, Ensures-raise, Ensures_mono, Ensures-bind, Ensures_read,
  Ensures_read_then, Ensures-gets, Ensures-require, Ensures-guard, Ensures-write, Ensures-check,
}
use aether_rl.Table.{select, update, select-key, select-update_self}
use aether_rl.Coordinator.Schema.{
  Db, RolloutAssignment, Assignment, Lease, Request, RequestState, is_active,
}
use aether_rl.Coordinator.Rows.{assignment_key, lease_key, request_key}
use aether_rl.Coordinator.Leases.{
  AssignmentLease, LeaseRequest, Disposition, disposition_of, assignment_lease,
  lease_request_disposition, answer_request, to_answered,
}
use aether_rl.Coordinator.Workers.{is_pending}
use aether_rl.Coordinator.Offers.{
  is_current, validate_offered_lease, validate_offers, names_offer, associate_pending, associate_by,
  associate_offered_leases,
}

-- The lease of an offer is active and has not ended, its assignment names it, and it belongs to the
-- session of the request.
pub record IsOffered (r : LeaseRequest) (s : Db) (o : AssignmentLease × ℕ) : Type 0 where
  pub lease : Lease
  pub assignment : Assignment
  pub found : select lease_key o.0.lease_id s.leases ≡ some lease
  pub active : is_active lease.state ≡ true
  pub session : lease.worker_session_id ≡ r.worker_session_id
  pub unexpired : o.1 < lease.expires_at
  pub assigned : select assignment_key o.0.assignment.assignment_id s.assignments ≡ some assignment
  pub held : assignment.current_lease_id ≡ some o.0.lease_id

abbrev is_unanswered : Disposition → Bool
is_unanswered Disposition.pending = true
is_unanswered Disposition.no_work = false
is_unanswered (Disposition.leased l) = false

holds-some : (k : ℕ) (o : Option ℕ) → holds_some (λ j. j == k) o ≡ true → o ≡ some k
holds-some k none h = absurd (ground (arith, h))
holds-some k (some j) h = ap some (==→eq j k h)

module _ (text_of : RolloutAssignment → ℕ) (r : LeaseRequest) (s : Db) where
  IsOffered-of :
      (o : AssignmentLease × ℕ) (f : Option Lease) (a : Assignment)
      → o.0.worker_session_id ≡ r.worker_session_id
      → select lease_key o.0.lease_id s.leases ≡ f
      → select assignment_key o.0.assignment.assignment_id s.assignments ≡ some a
      → is_current text_of o.1 o.0 a f ≡ true
      → IsOffered r s o
  IsOffered-of o none a w f g h = absurd (ground (arith, h))
  IsOffered-of o (some l) a w f g h = record {
    lease = l;
    assignment = a;
    found = f;
    active = ground (arith, h);
    session = ground (arith, h, w);
    unexpired = ground (arith, h);
    assigned = g;
    held = holds-some o.0.lease_id a.current_lease_id (ground (arith, h));
  }

  validate_offered_lease-IsOffered :
      (o : AssignmentLease × ℕ)
      → Ensures (validate_offered_lease text_of r o.0 o.1 s) (λ _ t. (t ≡ s) × IsOffered r s o)
  unfolding validate_offered_lease
  validate_offered_lease-IsOffered o = Ensures-guard _ s _ _ _ λ own. Ensures-gets _ s _ _ (
      Ensures-require _ s _ _ _ λ a g. Ensures-check _ s _ _ λ h. (
        refl,
        IsOffered-of o (select lease_key o.0.lease_id s.leases) a (ground (arith, own)) refl g h,
      ))

  pub validate_offers-IsOffered :
      (os : List (AssignmentLease × ℕ))
      → Ensures (validate_offers text_of r os s) (λ _ t. (t ≡ s) × All (IsOffered r s) os)
  unfolding validate_offers
  validate_offers-IsOffered [] = Ensures-pure _ tt s (refl, tt)
  validate_offers-IsOffered (o ∷ os) =
      Ensures_read_then (λ _. IsOffered r s o) _ s _ _ (validate_offered_lease-IsOffered o)
        λ _ h. Ensures_mono _ _ _ (λ _ t k. (k.0, (h, k.1))) (validate_offers-IsOffered os)

-- A disposition is read without a change, and is pending as the row is.
disposition-is_unanswered :
    (row : Request) (s : Db)
    → Ensures
        (lease_request_disposition row s)
        (λ d t. (t ≡ s) × (is_unanswered d ≡ is_pending row.state))
unfolding lease_request_disposition assignment_lease
disposition-is_unanswered row s = by_state row.state row.lease_id
  where
    by_state :
        (x : RequestState) (lease : Option ℕ)
        → Ensures (disposition_of x lease s) (λ d t. (t ≡ s) × (is_unanswered d ≡ is_pending x))
    by_state RequestState.pending lease = Ensures-pure _ _ s (refl, refl)
    by_state RequestState.no_work lease = Ensures-pure _ _ s (refl, refl)
    by_state RequestState.leased none = Ensures-raise _ _
    by_state RequestState.leased (some k) = Ensures-bind _ s _ _ (
        Ensures-require _ s _ _ _ λ l _.
          Ensures-require _ s _ _ _ λ a _. Ensures-pure _ _ s (Ensures-pure _ _ s (refl, refl)))

-- The request was answered before, and nothing changes; or it was pending, every offer is one of its
-- session's active leases, no other request names one, and the request now names the first.
pub record IsAnswered (r : LeaseRequest) (s t : Db) (o : AssignmentLease × ℕ)
    (os : List (AssignmentLease × ℕ)) : Type 0 where
  pub row : Request
  pub found : select request_key r.request_id s.requests ≡ some row
  pub pending : is_pending row.state ≡ true
  pub offers : All (IsOffered r s) (o ∷ os)
  pub exclusive : any (names_offer r (o ∷ os)) s.requests ≡ false
  pub answered :
      (later : ℕ) × (select request_key r.request_id t.requests
        ≡ some (to_answered o.0.lease_id later row))

abbrev pub Associated :
    LeaseRequest → AssignmentLease × ℕ → List (AssignmentLease × ℕ) → Db → Db → Type 0
Associated r o os s t =
    ((t ≡ s)
      × ((row : Request) × (select request_key r.request_id s.requests ≡ some row)
          × (is_pending row.state ≡ false)))
    ⊎ IsAnswered r s t o os

module _ (text_of : RolloutAssignment → ℕ) (r : LeaseRequest) (o : AssignmentLease × ℕ)
    (os : List (AssignmentLease × ℕ)) (later : ℕ) (s : Db) (row : Request)
    (found : select request_key r.request_id s.requests ≡ some row) where
  answer-Associated :
      is_pending row.state ≡ true
      → All (IsOffered r s) (o ∷ os)
      → any (names_offer r (o ∷ os)) s.requests ≡ false
      → Ensures (answer_request row o.0.lease_id later s) (λ _ t. Associated r o os s t)
  answer-Associated p offers none_else = Ensures-guard _ s _ _ _ λ _. Ensures-write _ s _ (
      inr record {
        row = row;
        found = found;
        pending = p;
        offers = offers;
        exclusive = none_else;
        answered = (
          later,
          ap
                (λ k.
                  select request_key r.request_id
                    (update request_key k (to_answered o.0.lease_id later) s.requests))
                own
              ∙ select-update_self request_key (to_answered o.0.lease_id later) (λ _. refl)
                  r.request_id s.requests row found,
        );
      })
    where
      own : row.request_id ≡ r.request_id
      own = select-key request_key r.request_id s.requests row found

  pending-Associated :
      is_pending row.state ≡ true
      → Ensures (associate_pending text_of r row o os later s) (λ _ t. Associated r o os s t)
  pending-Associated p =
      Ensures_read_then (λ _. All (IsOffered r s) (o ∷ os)) _ s _ _
        (validate_offers-IsOffered text_of r s (o ∷ os))
        λ _ h.
          Ensures-gets _ s _ _
            (Ensures-guard _ s _ _ _ λ free. answer-Associated p h (is_false _ free))
    where
      is_false : (b : Bool) → not b ≡ true → b ≡ false
      is_false b e = ground (arith, e)

  by-Associated :
      (d : Disposition)
      → is_unanswered d ≡ is_pending row.state
      → Ensures (associate_by text_of r row o os later d s) (λ _ t. Associated r o os s t)
  by-Associated (Disposition.leased l) h =
      Ensures-check _ s _ _ λ _. inl (refl, (row, found, sym h))
  by-Associated Disposition.no_work h = Ensures-raise _ _
  by-Associated Disposition.pending h = pending-Associated (sym h)

-- `associate_offered_leases`, where it returns: the request had been answered before, and nothing
-- changed; or it was pending, every lease offered is active, unexpired, named by its assignment and of
-- the request's session, no other request names any of them, and the request now names the first.
pub associate-Associated :
    (text_of : RolloutAssignment → ℕ) (r : LeaseRequest) (o : AssignmentLease × ℕ)
    (os : List (AssignmentLease × ℕ)) (later : ℕ) (s t : Db)
    → associate_offered_leases text_of r (o ∷ os) later s ≡ ok (tt, t)
    → Associated r o os s t
unfolding associate_offered_leases
associate-Associated text_of r o os later s t run =
    Ensures-ok _ (λ _ u. Associated r o os s u) tt t
      (Ensures-require _ s _ _ _ λ row found.
        Ensures_read (λ d. is_unanswered d ≡ is_pending row.state) _ s _ _
          (disposition-is_unanswered row s) (by-Associated text_of r o os later s row found))
      run
