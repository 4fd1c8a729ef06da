-- ===== src/Coordinator/Sound/Outcomes.antt =====
-- The writes of the outcome table.
use mathlib.Core.Option
use aether_rl.Prelude.{
  ℕ, ◌≡◌, ◌≢◌, sym, inl, inr, true, false, none, some, List, [], ◌∷◌, ◌++◌, arith, ap, ◌∙◌, is_some,
  Option-cases,
}
use aether_rl.Table.{select, update, select-update, select-update-Origin, select-append}
use aether_rl.Coordinator.Schema.{Assignment, AssignmentOutcome, is_terminal}
use aether_rl.Coordinator.Rows.{assignment_key, outcome_key}
use aether_rl.Coordinator.Sound.{Recorded}

module _ {t : List Assignment} {os : List AssignmentOutcome} (i : ℕ) (c : Assignment)
    (f : Assignment → Assignment) (fk : (a : Assignment) → (f a).assignment_id ≡ a.assignment_id)
    (h : Recorded t os) (found : select assignment_key i t ≡ some c) where
  missing :
      (n : ℕ)
      → select assignment_key n (update assignment_key i f t) ≡ none
      → select assignment_key n t ≡ none
  missing n e = ground (arith, select-update assignment_key n i f t fk)

  -- The assignment stays open, or stays terminal.
  pub Recorded-same :
      is_terminal (f c).state ≡ is_terminal c.state → Recorded (update assignment_key i f t) os
  Recorded-same s = record {
    agree = λ n b e. elim (select-update-Origin assignment_key f fk n i t b e) [
      | inl (ne, eb) ↦ h.agree n b eb
      | inr (y, p, ey, q) ↦
          let yc : y ≡ c = ground (arith, ap (λ z. select assignment_key z t) p) in
          h.agree n y ey
          ∙ ap (λ (z : Assignment). is_terminal z.state) yc
          ∙ sym s
          ∙ ap (λ (z : Assignment). is_terminal z.state) (ap f (sym yc) ∙ sym q)
    ];
    owned = λ n e. h.owned n (missing n e);
  }

  -- An open assignment becomes terminal, and its outcome is recorded.
  module _ (o : AssignmentOutcome) (ok : o.assignment_id ≡ i) (fs : is_terminal (f c).state ≡ true)
      (open' : is_terminal c.state ≡ false) where
    outcome_free : select outcome_key i os ≡ none
    outcome_free = ground (arith, h.agree i c found)

    finish-agree :
        (n : ℕ) (b : Assignment)
        → select assignment_key n (update assignment_key i f t) ≡ some b
        → is_some (select outcome_key n (os ++ o ∷ [])) ≡ is_terminal b.state
    unfolding Option.or_else
    finish-agree n b e = elim (select-update-Origin assignment_key f fk n i t b e) [
      | inl (ne, eb) ↦ ground (arith, select-append outcome_key n os o, h.agree n b eb)
      | inr (y, p, ey, q) ↦
          let yc : y ≡ c = ground (arith, ap (λ z. select assignment_key z t) p) in
          let bt : is_terminal b.state ≡ true =
            ap (λ (z : Assignment). is_terminal z.state) (q ∙ ap f yc) ∙ fs in
          rw bt (
            ground (
              arith,
              select-append outcome_key n os o,
              ap (λ z. select outcome_key z os) p,
              outcome_free,
            ))
    ]

    pub Recorded-finish : Recorded (update assignment_key i f t) (os ++ o ∷ [])
    unfolding Option.or_else
    Recorded-finish = record {
      agree = finish-agree;
      owned = λ n e.
          let m = missing n e in
          let ne : n ≢ i = λ p. absurd (ground (arith, ap (λ z. select assignment_key z t) p)) in
          ground (arith, select-append outcome_key n os o, h.owned n m);
    }

-- A new assignment has no outcome.
pub Recorded-insert :
    {t : List Assignment} {os : List AssignmentOutcome} (c : Assignment)
    → Recorded t os
    → select assignment_key c.assignment_id t ≡ none
    → is_terminal c.state ≡ false
    → Recorded (t ++ c ∷ []) os
unfolding Option.or_else
Recorded-insert {t} {os} c h new s = record {
  agree = λ n b e. elim (Option-cases (select assignment_key n t)) [
    | inl u ↦
        let p : (b ≡ c) × (n ≡ c.assignment_id) =
          ground (arith, select-append assignment_key n t c) in
        rw p.0 (rw s (rw (h.owned n u)))
    | inr (y, u) ↦ h.agree n b (ground (arith, select-append assignment_key n t c))
  ];
  owned = λ n e. h.owned n (ground (arith, select-append assignment_key n t c));
}
