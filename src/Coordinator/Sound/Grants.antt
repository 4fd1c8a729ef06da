-- ===== src/Coordinator/Sound/Grants.antt =====
-- `lease_next_compatible` and the queries behind it, on sound tables.
use aether_rl.Prelude.{
  ℕ, ◌+◌, ◌≡◌, refl, inl, inr, true, Option, none, some, List, [], ◌∷◌, arith, All, ltb, leb,
  All-order_by, Bool-cases,
}
use aether_rl.Tx.{pure}
use aether_rl.Tx.Rules.{
  Ensures, Ensures-pure, Ensures-raise, Ensures_mono, Ensures-if, Ensures-bind, Ensures-then,
  Ensures-gets, Ensures-require, Ensures-guard, Ensures-modify, Ensures-write, Ensures-check,
}
use aether_rl.Table.{select, select_rows}
use aether_rl.Coordinator.Schema.{Db, Assignment, Group, Request, RequestState, is_open}
use aether_rl.Coordinator.Rows.{assignment_key, group_key, insert_lease}
use aether_rl.Coordinator.Lifecycle.{RetrySettings}
use aether_rl.Coordinator.Leases.{
  LeaseRequest, Disposition, disposition_of, lease_request_disposition, assignment_lease, Candidate,
  is_schedulable, candidate_before, candidate_row, candidate_join, candidates, mem, first_loaded,
  choose, new_lease, to_leased, grant, lease_choice, lease_chosen, active_count,
  validate_policy_ids, lease_pending, lease_by_disposition, lease_next_compatible,
}
use aether_rl.Coordinator.Sound.{IsSound}
use aether_rl.Coordinator.Sound.Moves.{Sound-grant}
use aether_rl.Coordinator.Sound.Expiry.{expire_leases-IsSound, open_free}
use aether_rl.Coordinator.Sound.Stale.{cancel_stale-IsSound}

-- A row that the candidate query returns.
abbrev pub IsCandidate : ℕ → Db → Candidate → Type 0
IsCandidate now db c =
    (select assignment_key c.assignment.assignment_id db.assignments ≡ some c.assignment)
    × (is_schedulable now db c.assignment ≡ true)

module _ (now : ℕ) (db : Db) where
  row-IsCandidate :
      (a : Assignment) (rest : List Candidate) (o : Option Group)
      → select assignment_key a.assignment_id db.assignments ≡ some a
      → All (IsCandidate now db) rest
      → All (IsCandidate now db) (candidate_row now db a rest o)
  row-IsCandidate a rest none e r = r
  row-IsCandidate a rest (some g) e r = elim (Bool-cases (is_schedulable now db a)) [
    | inl x ↦ rw x ((e, x), r)
    | inr x ↦ rw x r
  ]

  join-IsCandidate :
      (t : List Assignment)
      → All (λ a. select assignment_key a.assignment_id db.assignments ≡ some a) t
      → All (IsCandidate now db) (candidate_join now db t)
  join-IsCandidate [] h = tt
  join-IsCandidate (a ∷ t) h =
      row-IsCandidate a (candidate_join now db t) (select group_key a.group_id db.groups) h.0
        (join-IsCandidate t h.1)

  pub candidates-IsCandidate : IsSound db → All (IsCandidate now db) (candidates now db)
  unfolding candidates
  candidates-IsCandidate h = All-order_by candidate_before (IsCandidate now db) _ (
      join-IsCandidate db.assignments
        (select_rows assignment_key db.assignments h.assignments_unique))

  first_loaded-IsCandidate :
      (loaded : List ℕ) (cs : List Candidate) (oldest : Candidate)
      → IsCandidate now db oldest
      → All (IsCandidate now db) cs
      → IsCandidate now db (first_loaded loaded cs oldest)
  first_loaded-IsCandidate loaded [] oldest h hs = h
  first_loaded-IsCandidate loaded (c ∷ cs) oldest h hs =
      elim (Bool-cases (mem c.assignment.policy_id loaded)) [
        | inl x ↦ rw x hs.0
        | inr x ↦ rw x (first_loaded-IsCandidate loaded cs oldest h hs.1)
      ]

  pub choose-IsCandidate :
      (at preference : ℕ) (loaded : List ℕ) (cs : List Candidate) (c : Candidate)
      → All (IsCandidate now db) cs
      → choose at preference loaded cs ≡ some c
      → IsCandidate now db c
  unfolding choose
  choose-IsCandidate at preference loaded [] c h e = cc
  choose-IsCandidate at preference loaded (x ∷ cs) c h e =
      elim (Bool-cases (ltb at (x.assignment.available_at + preference))) [
        | inl y ↦ ground (arith, first_loaded-IsCandidate loaded (x ∷ cs) x h.0 h)
        | inr y ↦ ground (arith, h.0)
      ]

schedulable_open :
    (now : ℕ) (s : Db) (a : Assignment) → is_schedulable now s a ≡ true → is_open a.state ≡ true
unfolding is_schedulable
schedulable_open now s a e = ground arith

pub validate-IsSound :
    (ids : List ℕ) (s : Db) → IsSound s → Ensures (validate_policy_ids ids s) (λ _ t. IsSound t)
unfolding validate_policy_ids
validate-IsSound ids s h = Ensures-gets _ s _ _ (Ensures-check _ s _ _ λ _. h)

module _ (a : Assignment) (worker session lease now duration : ℕ) where
  -- A grant to an open row of the table.
  pub grant-IsSound :
      (s : Db)
      → IsSound s
      → select assignment_key a.assignment_id s.assignments ≡ some a
      → is_open a.state ≡ true
      → Ensures (grant a worker session lease now duration s) (λ _ t. IsSound t)
  unfolding grant insert_lease
  grant-IsSound s h found op = Ensures-then _ s _ _ (
      Ensures-gets _ s _ _ (
        Ensures-guard _ s _ _ _ λ free. Ensures-gets _ s _ _ (
          Ensures-guard _ s _ _ _ λ _. Ensures-guard _ s _ _ _ λ _. Ensures-write _ s _ (
            Ensures-modify _ _ _ _ (
              Ensures-pure _ _ _ (
                Sound-grant lease a.assignment_id (new_lease a worker session lease now duration) a
                  (to_leased (a.attempt_count + 1) lease) (λ _. refl) (λ _. refl) (λ _. refl) h
                  (ground (arith, free)) refl refl refl found (open_free a op).0
                  (open_free a op).1))))))

module _ (cfg : RetrySettings) (req : LeaseRequest) (row : Request) (now duration lease : ℕ) where
  choice-IsSound :
      (s : Db) (o : Option Candidate)
      → IsSound s
      → ((c : Candidate) → o ≡ some c → IsCandidate now s c)
      → Ensures (lease_choice req row now duration lease o s) (λ _ t. IsSound t)
  choice-IsSound s none h k = Ensures-pure _ none s h
  choice-IsSound s (some c) h k =
      let (e, sched) = k c refl in
      Ensures-bind _ s _ _ (
        Ensures_mono _ _ _
          (λ l t ht.
            Ensures-then _ t _ _
              (Ensures-guard _ t _ _ _ λ _. Ensures-write _ t _ (Ensures-pure _ (some l) _ ht)))
          (grant-IsSound c.assignment req.worker_id req.worker_session_id lease now duration s h e
            (schedulable_open now s c.assignment sched)))

  chosen-IsSound :
      (preference : ℕ) (s : Db)
      → IsSound s
      → Ensures (lease_chosen req row now duration lease preference s) (λ _ t. IsSound t)
  unfolding lease_chosen
  chosen-IsSound preference s h = Ensures-gets _ s (candidates now) _ (
      choice-IsSound s (choose now preference req.loaded_policy_ids (candidates now s)) h (λ c.
        choose-IsCandidate now s now preference req.loaded_policy_ids (candidates now s) c
          (candidates-IsCandidate now s h)))

  pending-IsSound :
      (s : Db)
      → IsSound s
      → Ensures (lease_pending cfg req row now duration lease s) (λ _ t. IsSound t)
  unfolding lease_pending
  pending-IsSound s h = Ensures-then _ s _ _ (
      Ensures_mono _ _ _
        (λ _ t ht. Ensures-require _ t _ _ _ λ session _. Ensures-guard _ t _ _ _ λ _.
          Ensures-then _ t _ _ (
            Ensures_mono _ _ _
              (λ _ u hu. Ensures-require _ u _ _ _ λ settings _. Ensures-require _ u _ _ _ λ lag _.
                Ensures-require _ u _ _ _ λ preference _. Ensures-then _ u _ _ (
                  Ensures_mono _ _ _
                    (λ _ v hv. Ensures-gets _ v _ _ (
                      Ensures-if
                        (leb session.inference_slots
                          (active_count req.worker_id req.worker_session_id now v))
                        (pure none) (lease_chosen req row now duration lease preference) v _
                        (λ _. Ensures-pure _ none v hv) (λ _. chosen-IsSound preference v hv)))
                    (cancel_stale-IsSound lag now u hu)))
              (validate-IsSound req.loaded_policy_ids t ht)))
        (expire_leases-IsSound cfg now s h))

pub disposition-IsSound :
    (r : Request) (s : Db) → IsSound s → Ensures (lease_request_disposition r s) (λ _ t. IsSound t)
unfolding lease_request_disposition assignment_lease
disposition-IsSound r s h = by_state r.state r.lease_id
  where
    by_state :
        (st : RequestState) (o : Option ℕ) → Ensures (disposition_of st o s) (λ _ t. IsSound t)
    by_state RequestState.pending o = Ensures-pure _ _ s h
    by_state RequestState.no_work o = Ensures-pure _ _ s h
    by_state RequestState.leased none = Ensures-raise _ _
    by_state RequestState.leased (some k) = Ensures-bind _ s _ _ (
        Ensures-require _ s _ _ _
          λ l _. Ensures-require _ s _ _ _ λ a _. Ensures-pure _ _ s (Ensures-pure _ _ s h))

-- `lease_next_compatible` keeps the tables sound.
pub lease_next_compatible-IsSound :
    (cfg : RetrySettings) (req : LeaseRequest) (now duration lease : ℕ) (s : Db)
    → IsSound s
    → Ensures (lease_next_compatible cfg req now duration lease s) (λ _ t. IsSound t)
unfolding lease_next_compatible
lease_next_compatible-IsSound cfg req now duration lease s h = Ensures-guard _ s _ _ _ λ _.
    Ensures-require _ s _ _ _ λ row _.
      Ensures-bind _ s _ _
        (Ensures_mono _ _ _ (λ d t ht. by_disposition row t ht d) (disposition-IsSound row s h))
  where
    by_disposition :
        (row : Request) (t : Db)
        → IsSound t
        → (d : Disposition)
        → Ensures (lease_by_disposition cfg req row now duration lease d t) (λ _ u. IsSound u)
    by_disposition row t ht (Disposition.leased l) = Ensures-pure _ (some l) t ht
    by_disposition row t ht Disposition.no_work = Ensures-pure _ none t ht
    by_disposition row t ht Disposition.pending =
        pending-IsSound cfg req row now duration lease t ht
