-- ===== src/Coordinator/Sound/Groups.antt =====
-- `create_next_group`, `create_group` and `register_scheduler_source` on sound tables.
use aether_rl.Prelude.{ℕ, refl, Bool, Option, none, some, List, [], ◌∷◌, arith}
use aether_rl.Tx.Rules.{
  Ensures, Ensures-pure, Ensures-raise, Ensures-check, Ensures_mono, Ensures-bind, Ensures-then,
  Ensures-gets, Ensures-require, Ensures-guard, Ensures-modify, Ensures-write, Ensures-for_each,
}
use aether_rl.Coordinator.Schema.{Db, RolloutAssignment, Group, Source, Kind, PolicyManifest}
use aether_rl.Coordinator.Sources.{
  Serving, allocate_group_sequence, insert_assignment, insert_group, adopt_group, open_group,
  serve_occurrence, serve_source, create_next_group,
}
use aether_rl.Coordinator.Registering.{
  SourceSpec, register_source_by, register_scheduler_source, create_group,
}
use aether_rl.Coordinator.Sound.{IsSound}
use aether_rl.Coordinator.Sound.Moves.{Sound-insert}

-- A new assignment is inserted where its identifier is free, and as a pending one.
pub insert_assignment-IsSound :
    (digest attempts : ℕ) (a : RolloutAssignment) (s : Db)
    → IsSound s
    → Ensures (insert_assignment digest attempts a s) (λ _ t. IsSound t)
unfolding insert_assignment
insert_assignment-IsSound digest attempts a s h = Ensures-gets _ s _ _ (
    Ensures-guard _ s _ _ _ λ free. Ensures-gets _ s _ _ (
      Ensures-guard _ s _ _ _ λ _. Ensures-write _ s _ (Sound-insert _ h (ground arith) refl refl)))

module _ (share : ℕ → ℕ → ℕ) where
  adopt-IsSound :
      (c : Serving) (g : Group) (s : Db)
      → IsSound s
      → Ensures (adopt_group share c g s) (λ _ t. IsSound t)
  unfolding adopt_group
  adopt-IsSound c g s h =
      Ensures-gets _ s _ _
        (Ensures-guard _ s _ _ _ λ _. Ensures-modify _ s _ _ (Ensures-pure _ _ _ h))

  open-IsSound :
      (c : Serving) (s : Db) → IsSound s → Ensures (open_group share c s) (λ _ t. IsSound t)
  unfolding open_group allocate_group_sequence insert_group
  open-IsSound c s h = Ensures-bind _ s _ _ (
      Ensures-require _ s _ _ _ λ x _. Ensures-modify _ s _ _ (
        Ensures-pure _ _ _ (
          Ensures-then _ _ _ _ (
            Ensures-gets _ _ _ _ (
              Ensures-guard _ _ _ _ _ λ _. Ensures-write _ _ _ (
                Ensures-then _ _ _ _ (
                  Ensures_mono _ _ _ (λ _ t ht. Ensures-modify _ t _ _ (Ensures-pure _ _ _ ht))
                    (Ensures-for_each IsSound _
                      (insert_assignment-IsSound c.policy.manifest_digest c.source.max_attempts) _ _
                      h))))))))

  serve-IsSound :
      (verified : Bool) (now group : ℕ) (ids : ℕ → ℕ) (o : Option Source) (s : Db)
      → IsSound s
      → Ensures (serve_source share verified now group ids o s) (λ _ t. IsSound t)
  serve-IsSound verified now group ids none s h = Ensures-pure _ none s h
  serve-IsSound verified now group ids (some x) s h = Ensures-require _ s _ _ _ λ p _.
      Ensures-guard _ s _ _ _ λ _. Ensures-require _ s _ _ _ λ task _. Ensures-gets _ s _ _ (
        Ensures-bind _ s _ _
          (Ensures_mono _ _ _ (λ c t ht. Ensures-pure _ (some c) t ht) (by_group _ _)))
    where
      by_group :
          (c : Serving) (o : Option Group)
          → Ensures (serve_occurrence share c o s) (λ _ t. IsSound t)
      by_group c none = open-IsSound c s h
      by_group c (some g) = adopt-IsSound c g s h

  pub create_next_group-IsSound :
      (kind : Option Kind) (verified : Bool) (now group : ℕ) (ids : ℕ → ℕ) (s : Db)
      → IsSound s
      → Ensures (create_next_group share kind verified now group ids s) (λ _ t. IsSound t)
  unfolding create_next_group
  create_next_group-IsSound kind verified now group ids s h =
      Ensures-gets _ s _ _ (serve-IsSound verified now group ids _ s h)

pub register_source-IsSound :
    (x : SourceSpec) (s : Db)
    → IsSound s
    → Ensures (register_scheduler_source x s) (λ _ t. IsSound t)
unfolding register_scheduler_source
register_source-IsSound x s h = Ensures-gets _ s _ _ (by_row _)
  where
    by_row : (o : Option Source) → Ensures (register_source_by x o s) (λ _ t. IsSound t)
    by_row (some y) = Ensures-check _ s _ _ λ _. h
    by_row none = Ensures-write _ s _ h

pub create_group-IsSound :
    (digest_of : PolicyManifest → ℕ) (items : List RolloutAssignment) (attempts : ℕ) (s : Db)
    → IsSound s
    → Ensures (create_group digest_of items attempts s) (λ _ t. IsSound t)
unfolding create_group allocate_group_sequence insert_group
create_group-IsSound digest_of [] attempts s h = Ensures-raise _ _
create_group-IsSound digest_of (x ∷ xs) attempts s h = Ensures-guard _ s _ _ _ λ _.
    Ensures-guard _ s _ _ _ λ _. Ensures-guard _ s _ _ _ λ _. Ensures-guard _ s _ _ _ λ _.
      Ensures-gets _ s _ _ (
        Ensures-guard _ s _ _ _ λ _. Ensures-bind _ s _ _ (
          Ensures-require _ s _ _ _ λ y _. Ensures-modify _ s _ _ (
            Ensures-pure _ _ _ (
              Ensures-then _ _ _ _ (
                Ensures-gets _ _ _ _ (
                  Ensures-guard _ _ _ _ _ λ _. Ensures-write _ _ _ (
                    Ensures-for_each IsSound _
                      (insert_assignment-IsSound (digest_of x.policy) attempts) _ _ h)))))))
