-- ===== src/Processing/Homogeneous.antt =====
-- What `_select_policy_homogeneous_batch` selects.
use aether_rl.Prelude.{
  ℕ, ◌≤◌, ◌≡◌, ◌∙◌, ◌⊎◌, refl, sym, ap, subst, true, false, Bool-cases, inl, inr, some, List, [],
  ◌∷◌, ◌++◌, arith, any, All, All-keep_where, All-mono, All-All, length,
}
use aether_rl.Dict.{or_default, keys, get?-keys, All-any, any-keep}
use aether_rl.Processing.Selecting.{
  Pending, GroupPayload, Identity, same_identity, Sizes, sizes_are_valid, reached, is_enough, Parts,
  no_parts, collect, rollouts_in, tokens_in, first_in, least, ready, take_enough, select_from,
  select_batch,
}
use aether_rl.Processing.Selection.{
  Suffices, enough-reached, reached-zero, least-le, least-All, take_enough-Fills, reached_at,
}
use aether_rl.Processing.Partition.{
  same_identity-IsEquality, rollouts_of, tokens_of, position, partitions-collect, tokens-collect,
  first-collect,
}

module _ (z : Sizes) (payload_of : ℕ → GroupPayload) where
  -- The selected rollouts are the first ones of one policy, up to the one that reaches the size; no
  -- policy that could fill a batch has an earlier first rollout.
  pub record IsSelected (pending selected : List Pending) : Type 0 where
    pub policy : Identity
    pub before : List Pending
    pub last : Pending
    pub rest : List Pending
    pub ends : selected ≡ before ++ last ∷ []
    pub from_start : rollouts_of payload_of policy pending ≡ selected ++ rest
    pub suffices : Suffices z selected
    pub none_shorter : reached z (length before) (tokens_of before) ≡ false
    pub earliest :
        (j : Identity) (m n : ℕ)
        → Suffices z (rollouts_of payload_of j pending)
        → position payload_of policy 0 pending ≡ some m
        → position payload_of j 0 pending ≡ some n
        → m ≤ n

module _ (z : Sizes) (payload_of : ℕ → GroupPayload) (valid : sizes_are_valid z ≡ true)
    (pending : List Pending) where
  -- The rollouts of a policy would fill a batch.
  abbrev Fillable : Identity → Type 0
  Fillable i = Suffices z (rollouts_of payload_of i pending)

  abbrev parts : Parts
  parts = collect payload_of 0 no_parts pending

  enough-Fillable :
      (i : Identity)
      → is_enough z (length (rollouts_in parts i)) (tokens_in parts i)
        ≡ reached z
            (length (rollouts_of payload_of i pending))
            (tokens_of (rollouts_of payload_of i pending))
  enough-Fillable i =
      rw
        (
          partitions-collect payload_of i 0 no_parts pending,
          tokens-collect payload_of i 0 no_parts pending,
        )
        (enough-reached z _ _ valid ∙ ap (reached z _) (omega arith))

  absent :
      (j : Identity)
      → any (λ i. same_identity i j) (keys parts.partitions) ≡ false
      → rollouts_of payload_of j pending ≡ []
  absent j n =
      sym (partitions-collect payload_of j 0 no_parts pending)
      ∙ ap (or_default []) (get?-keys same_identity same_identity-IsEquality j parts.partitions n)

  in_ready : (j : Identity) → Fillable j → any (λ i. same_identity i j) (ready z parts) ≡ true
  unfolding ready
  in_ready j f =
      any-keep same_identity same_identity-IsEquality _ j (keys parts.partitions)
        (enough-Fillable j ∙ f)
        (elim (Bool-cases (any (λ i. same_identity i j) (keys parts.partitions))) [
          | inl y ↦ y
          | inr n ↦
              let e = subst (Suffices z) (absent j n) f in
              absurd (ground (arith, reached-zero z valid, e))
        ])

  ready-Fillable : All Fillable (ready z parts)
  unfolding ready
  ready-Fillable =
      All-mono _ Fillable (λ i h. sym (enough-Fillable i) ∙ h.1) _
        (All-keep_where (λ _. Unit) _ (keys parts.partitions) (All-All (λ _. Unit) (λ _. tt) _))

  first-position :
      (i : Identity) (m : ℕ) → position payload_of i 0 pending ≡ some m → first_in parts i ≡ m
  first-position i m e = ap (or_default 0) (first-collect payload_of i 0 no_parts pending ∙ e)

  chosen-IsSelected :
      (i : Identity) (is : List Identity)
      → ready z parts ≡ i ∷ is
      → IsSelected z payload_of pending
          (take_enough z 0 0 (rollouts_in parts (least (first_in parts) i is)))
  chosen-IsSelected i is e =
      let best = least (first_in parts) i is in
      let all = subst (All Fillable) e ready-Fillable in
      let f = take_enough-Fills z 0 0 (rollouts_of payload_of best pending) (reached-zero z valid) (
        reached_at z true _ _ _ _ (omega arith) (omega arith)
          (least-All (first_in parts) Fillable i is all.0 all.1)) in
      rw (partitions-collect payload_of best 0 no_parts pending) record {
        policy = best;
        before = f.before;
        last = f.last;
        rest = f.rest;
        ends = f.ends;
        from_start = f.from_start;
        suffices = reached_at z true _ _ _ _ (omega arith) (omega arith) f.suffices;
        none_shorter = reached_at z false _ _ _ _ (omega arith) (omega arith) f.none_shorter;
        earliest = λ j m n g p q.
            let le = least-le (first_in parts) i is in
            let ready_j = subst (λ xs. any (λ k. same_identity k j) xs ≡ true) e (in_ready j g) in
            let h =
              All-any same_identity same_identity-IsEquality
                (λ k. first_in parts best ≤ first_in parts k) j (i ∷ is) (le.0, le.1) ready_j in
            omega (arith, h, first-position best m p, first-position j n q);
      }

-- With one positive size configured, either nothing is selected and no policy has enough pending
-- rollouts to fill a batch, or the selected rollouts all stem from one policy: they are its first
-- pending ones, in order, up to the one that reaches the size, and every other policy that could
-- fill a batch has its first pending rollout later.
pub select_batch-IsSelected :
    (z : Sizes) (payload_of : ℕ → GroupPayload) (pending : List Pending)
    → sizes_are_valid z ≡ true
    → ((select_batch z payload_of pending ≡ [])
        × ((i : Identity) → ¬ Suffices z (rollouts_of payload_of i pending)))
      ⊎ IsSelected z payload_of pending (select_batch z payload_of pending)
unfolding select_batch
select_batch-IsSelected z payload_of pending valid =
    go (ready z (parts z payload_of valid pending)) refl
  where
    go :
        (is : List Identity)
        → ready z (collect payload_of 0 no_parts pending) ≡ is
        → ((select_from z (collect payload_of 0 no_parts pending) is ≡ [])
            × ((i : Identity) → ¬ Suffices z (rollouts_of payload_of i pending)))
          ⊎ IsSelected z payload_of pending
              (select_from z (collect payload_of 0 no_parts pending) is)
    go [] e = inl (
      refl,
      λ i f. absurd (
          ground (
            arith,
            in_ready z payload_of valid pending i f,
            ap (λ xs. any (λ k. same_identity k i) xs) e,
          )),
    )
    go (i ∷ is) e = inr (chosen-IsSelected z payload_of valid pending i is e)
