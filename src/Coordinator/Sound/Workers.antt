-- ===== src/Coordinator/Sound/Workers.antt =====
-- `record_heartbeat` on sound tables.
use aether_rl.Prelude.{ℕ, refl, Bool, Option, none, some, List, [], ◌∷◌, is_some}
use aether_rl.Tx.{pure, modify}
use aether_rl.Tx.Rules.{
  Ensures, Ensures-pure, Ensures_mono, Ensures-if, Ensures-bind, Ensures-then, Ensures-gets,
  Ensures-require, Ensures-guard, Ensures-modify, Ensures-write,
}
use aether_rl.Table.{select}
use aether_rl.Coordinator.Schema.{Db, Lease, Assignment}
use aether_rl.Coordinator.Rows.{lease_key, lease_cancellation_key, deliver_cancellation}
use aether_rl.Coordinator.Workers.{
  Heartbeat, Answers, is_live, beat_joined, beat_row, beat_lease, beat_leases, record_heartbeat,
}
use aether_rl.Coordinator.Sound.{IsSound}
use aether_rl.Coordinator.Sound.Moves.{Sound-touch}
use aether_rl.Coordinator.Sound.Stale.{reconcile-IsSound}
use aether_rl.Coordinator.Sound.Grants.{validate-IsSound}

module _ (db : Db) (now duration k : ℕ) (cancelled : Bool) (as' : Answers) where
  joined-IsSound :
      (l : Lease) (o : Option Assignment) (s : Db)
      → IsSound s
      → Ensures (beat_joined db now duration k cancelled as' l o s) (λ _ t. IsSound t)
  joined-IsSound l none s h = Ensures-pure _ _ s h
  joined-IsSound l (some a) s h =
      Ensures-if (is_live now cancelled l a) _ _ s _
        (λ _. Ensures-guard _ s _ _ _ λ _.
          Ensures-modify _ s _ _
            (Ensures-pure _ _ _ (Sound-touch k _ (λ _. refl) (λ _. refl) (λ _. refl) h)))
        (λ _. Ensures-pure _ _ s h)

  row-IsSound :
      (o : Option Lease) (s : Db)
      → IsSound s
      → Ensures (beat_row db now duration k cancelled as' o s) (λ _ t. IsSound t)
  row-IsSound none s h = Ensures-pure _ _ s h
  row-IsSound (some l) s h = joined-IsSound l _ s h

module _ (db : Db) (now duration : ℕ) where
  beat_lease-IsSound :
      (k : ℕ) (as' : Answers) (s : Db)
      → IsSound s
      → Ensures (beat_lease db now duration k as' s) (λ _ t. IsSound t)
  unfolding beat_lease
  beat_lease-IsSound k as' s h = Ensures-then _ s _ _ (
      Ensures-if (is_some (select lease_cancellation_key k db.lease_cancellations))
        (modify (deliver_cancellation now k)) (pure tt) s _
        (λ _. Ensures-write _ s _ (
          row-IsSound db now duration k _ as' (select lease_key k db.leases)
            (deliver_cancellation now k s) h))
        (λ _.
          Ensures-pure _ _ s
            (row-IsSound db now duration k _ as' (select lease_key k db.leases) s h)))

  beat_leases-IsSound :
      (ks : List ℕ) (as' : Answers) (s : Db)
      → IsSound s
      → Ensures (beat_leases db now duration ks as' s) (λ _ t. IsSound t)
  unfolding beat_leases
  beat_leases-IsSound [] as' s h = Ensures-pure _ _ s h
  beat_leases-IsSound (k ∷ ks) as' s h = Ensures-bind _ s _ _ (
      Ensures_mono _ _ _ (λ later t ht. beat_leases-IsSound ks later t ht)
        (beat_lease-IsSound k as' s h))

pub heartbeat-IsSound :
    (b : Heartbeat) (now duration : ℕ) (s : Db)
    → IsSound s
    → Ensures (record_heartbeat b now duration s) (λ _ t. IsSound t)
unfolding record_heartbeat
heartbeat-IsSound b now duration s h = Ensures-guard _ s _ _ _ λ _. Ensures-then _ s _ _ (
    Ensures_mono _ _ _
      (λ _ t ht. Ensures-require _ t _ _ _ λ x _. Ensures-guard _ t _ _ _ λ _.
        Ensures-guard _ t _ _ _ λ _. Ensures-then _ t _ _ (
          Ensures_mono _ _ _
            (λ _ u hu. Ensures-gets _ u _ _ (
              Ensures-guard _ u _ _ _ λ _. Ensures-bind _ u _ _ (
                Ensures_mono _ _ _
                  (λ answers v hv. Ensures-modify _ v _ _ (Ensures-pure _ answers _ hv))
                  (beat_leases-IsSound u now duration b.active_lease_ids ([], []) u hu))))
            (validate-IsSound b.loaded_policy_ids t ht)))
      (reconcile-IsSound now s h))
