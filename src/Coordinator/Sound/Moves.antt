-- ===== src/Coordinator/Sound/Moves.antt =====
-- The moves of an assignment's life, on the three lease tables.
use aether_rl.Prelude.{
  ℕ, ◌≡◌, true, false, none, some, List, [], ◌∷◌, ◌++◌, arith, ap, ◌∙◌, IsUnique-append,
}
use aether_rl.Table.{select, update, IsUnique-update, select-none}
use aether_rl.Coordinator.Schema.{
  Assignment, Lease, AssignmentOutcome, is_terminal, is_leased, is_active,
}
use aether_rl.Coordinator.Rows.{assignment_key, lease_key, outcome_key}
use aether_rl.Coordinator.Leasing.Tables.{Leased-leave, Leased-close, Leased-touch}
use aether_rl.Coordinator.Leasing.Grants.{Leased-grant, Leased-insert}
use aether_rl.Coordinator.Sound.{SoundTables}
use aether_rl.Coordinator.Sound.Outcomes.{Recorded-same, Recorded-finish, Recorded-insert}

pub leased_open : (a : Assignment) → is_leased a.state ≡ true → is_terminal a.state ≡ false
leased_open a e = ground arith

-- The holder of a lease: the assignment that an active lease is for.
module _ {t : List Assignment} {ls : List Lease} {os : List AssignmentOutcome} (k i : ℕ) (l : Lease)
    (s : SoundTables t ls os) (found : select lease_key k ls ≡ some l)
    (act : is_active l.state ≡ true) (own : l.assignment_id ≡ i) where
  pub holder :
      (a : Assignment) × (select assignment_key i t ≡ some a)
      × (is_leased a.state ≡ true)
      × (a.current_lease_id ≡ some k)
  holder =
      let (a, ea, al, ac) = s.leased.holds k l found act in
      (a, ground (arith, ap (λ z. select assignment_key z t) own), al, ac)

  module _ (f : Assignment → Assignment) (g : Lease → Lease)
      (fk : (a : Assignment) → (f a).assignment_id ≡ a.assignment_id)
      (fs : (a : Assignment) → is_leased (f a).state ≡ false)
      (gk : (x : Lease) → (g x).lease_id ≡ x.lease_id)
      (gs : (x : Lease) → is_active (g x).state ≡ false) where
    -- The lease ends, and the assignment waits for another attempt.
    pub Sound-release :
        ((a : Assignment) → is_terminal (f a).state ≡ false)
        → SoundTables (update assignment_key i f t) (update lease_key k g ls) os
    Sound-release ft = record {
      leased = Leased-leave k i l f g fk fs gk gs s.leased found act own;
      recorded =
          let (a, ea, al, ac) = holder in
          Recorded-same i a f fk s.recorded ea (ground (arith, ft a));
      assignments_unique = IsUnique-update assignment_key f fk i t s.assignments_unique;
      leases_unique = IsUnique-update lease_key g gk k ls s.leases_unique;
    }

    -- The lease ends, and the assignment with it.
    pub Sound-finish :
        (o : AssignmentOutcome)
        → o.assignment_id ≡ i
        → ((a : Assignment) → is_terminal (f a).state ≡ true)
        → SoundTables (update assignment_key i f t) (update lease_key k g ls) (os ++ o ∷ [])
    Sound-finish o oi ft = record {
      leased = Leased-leave k i l f g fk fs gk gs s.leased found act own;
      recorded =
          let (a, ea, al, ac) = holder in
          Recorded-finish i a f fk s.recorded ea o oi (ft a) (leased_open a al);
      assignments_unique = IsUnique-update assignment_key f fk i t s.assignments_unique;
      leases_unique = IsUnique-update lease_key g gk k ls s.leases_unique;
    }

  -- No outcome is recorded for an assignment that an active lease is for.
  pub holder-outcome : select outcome_key i os ≡ none
  holder-outcome = let (a, ea, al, ac) = holder in ground (arith, s.recorded.agree i a ea)

-- An assignment without a lease ends.
pub Sound-close :
    {t : List Assignment} {ls : List Lease} {os : List AssignmentOutcome} (i : ℕ) (c : Assignment)
    (f : Assignment → Assignment) (o : AssignmentOutcome)
    → ((a : Assignment) → (f a).assignment_id ≡ a.assignment_id)
    → ((a : Assignment) → is_leased (f a).state ≡ false)
    → ((a : Assignment) → is_terminal (f a).state ≡ true)
    → SoundTables t ls os
    → select assignment_key i t ≡ some c
    → is_leased c.state ≡ false
    → is_terminal c.state ≡ false
    → o.assignment_id ≡ i
    → SoundTables (update assignment_key i f t) ls (os ++ o ∷ [])
Sound-close {t} i c f o fk fs ft s found free open' oi = record {
  leased = Leased-close i c f fk fs s.leased found free;
  recorded = Recorded-finish i c f fk s.recorded found o oi (ft c) open';
  assignments_unique = IsUnique-update assignment_key f fk i t s.assignments_unique;
  leases_unique = s.leases_unique;
}

-- A lease is renewed.
pub Sound-touch :
    {t : List Assignment} {ls : List Lease} {os : List AssignmentOutcome} (k : ℕ)
    (g : Lease → Lease)
    → ((x : Lease) → (g x).lease_id ≡ x.lease_id)
    → ((x : Lease) → (g x).assignment_id ≡ x.assignment_id)
    → ((x : Lease) → (g x).state ≡ x.state)
    → SoundTables t ls os
    → SoundTables t (update lease_key k g ls) os
Sound-touch {ls = ls} k g gk ga gs s = record {
  leased = Leased-touch k g gk ga gs s.leased;
  recorded = s.recorded;
  assignments_unique = s.assignments_unique;
  leases_unique = IsUnique-update lease_key g gk k ls s.leases_unique;
}

-- An assignment without a lease is given a new one.
pub Sound-grant :
    {t : List Assignment} {ls : List Lease} {os : List AssignmentOutcome} (k i : ℕ) (l : Lease)
    (c : Assignment) (f : Assignment → Assignment)
    → ((a : Assignment) → (f a).assignment_id ≡ a.assignment_id)
    → ((a : Assignment) → is_leased (f a).state ≡ true)
    → ((a : Assignment) → (f a).current_lease_id ≡ some k)
    → SoundTables t ls os
    → select lease_key k ls ≡ none
    → l.lease_id ≡ k
    → is_active l.state ≡ true
    → l.assignment_id ≡ i
    → select assignment_key i t ≡ some c
    → is_leased c.state ≡ false
    → is_terminal c.state ≡ false
    → SoundTables (update assignment_key i f t) (ls ++ l ∷ []) os
Sound-grant {t} {ls} k i l c f fk fs fc s new lk la li found free open' = record {
  leased = Leased-grant k i l c f fk fs fc s.leased new lk la li found free;
  recorded = Recorded-same i c f fk s.recorded found (ground (arith, leased_open (f c), fs c));
  assignments_unique = IsUnique-update assignment_key f fk i t s.assignments_unique;
  leases_unique =
      IsUnique-append lease_key ls l s.leases_unique
        (select-none lease_key l.lease_id ls (ap (λ z. select lease_key z ls) lk ∙ new));
}

-- A new assignment is pending.
pub Sound-insert :
    {t : List Assignment} {ls : List Lease} {os : List AssignmentOutcome} (c : Assignment)
    → SoundTables t ls os
    → select assignment_key c.assignment_id t ≡ none
    → is_leased c.state ≡ false
    → is_terminal c.state ≡ false
    → SoundTables (t ++ c ∷ []) ls os
Sound-insert {t} c s new free open' = record {
  leased = Leased-insert c s.leased free;
  recorded = Recorded-insert c s.recorded new open';
  assignments_unique =
      IsUnique-append assignment_key t c s.assignments_unique
        (select-none assignment_key c.assignment_id t new);
  leases_unique = s.leases_unique;
}
