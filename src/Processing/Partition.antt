-- ===== src/Processing/Partition.antt =====
-- The three dictionaries that `_select_policy_homogeneous_batch` collects.
use aether_rl.Prelude.{
  ℕ, suc, ◌+◌, ◌≡◌, ◌∙◌, refl, sym, true, Bool-cases, inl, inr, Option, none, some, List, [], ◌∷◌,
  ◌++◌, ◌&&◌, arith, ◌==◌, ==→eq, ==-refl, keep, sum, map, if◌then◌else◌,
}
use mathlib.Core.List.{append-nil, append_assoc}
use aether_rl.Dict.{get?, or_default, IsEquality, get?-alter}
use aether_rl.Processing.Selecting.{
  Pending, GroupPayload, Identity, same_identity, Parts, identity_of, add_part, collect,
}

pub same_identity-IsEquality : IsEquality same_identity
unfolding same_identity
same_identity-IsEquality = record {
  eq_refl = λ a. rw (==-refl a.0, ==-refl a.1) refl;
  eq_path = λ a b h. pair a.0 a.1 b.0 b.1 h;
}
  where
    pair : (m n k l : ℕ) → (m == k && n == l) ≡ true → ◌≡◌ {A = Identity} (m, n) (k, l)
    pair m n k l h = rw (==→eq m k (ground (arith, h)), ==→eq n l (ground (arith, h))) refl

abbrev pub tokens_of : List Pending → ℕ
tokens_of rs = sum (map Pending.token_count rs)

module _ (payload_of : ℕ → GroupPayload) where
  -- The rollouts of one policy, in their order.
  abbrev pub rollouts_of : Identity → List Pending → List Pending
  rollouts_of i rs = keep (λ r. same_identity (identity_of payload_of r) i) rs

  -- The place of a policy's first rollout.
  abbrev pub position : Identity → ℕ → List Pending → Option ℕ
  position i n [] = none
  position i n (r ∷ rs) =
      let later = position i (suc n) rs in
      if same_identity (identity_of payload_of r) i then some n else later

  abbrev pub or_else : Option ℕ → Option ℕ → Option ℕ
  or_else none o = o
  or_else (some n) o = some n

  or_none : (o : Option ℕ) → o ≡ or_else o none
  or_none none = refl
  or_none (some n) = refl

  first_of :
      (o : Option ℕ) (n : ℕ) (p : Option ℕ) → or_else (some (or_default n o)) p ≡ or_else o (some n)
  first_of none n p = refl
  first_of (some m) n p = refl

  pub partitions-collect :
      (i : Identity) (n : ℕ) (d : Parts) (rs : List Pending)
      → or_default [] (get? same_identity i (collect payload_of n d rs).partitions)
        ≡ or_default [] (get? same_identity i d.partitions) ++ rollouts_of i rs
  unfolding collect
  partitions-collect i n d [] = sym (append-nil _)
  partitions-collect i n d (r ∷ rs) =
      partitions-collect i (suc n) (add_part payload_of n r d) rs
      ∙ elim (Bool-cases (same_identity (identity_of payload_of r) i)) [
        | inl y ↦
            rw
              (
                get?-alter same_identity same_identity-IsEquality i (identity_of payload_of r) []
                    (λ xs. xs ++ r ∷ []) d.partitions,
                y,
                same_identity-IsEquality.eq_path (identity_of payload_of r) i y,
              )
              (append_assoc (or_default [] (get? same_identity i d.partitions)) (r ∷ [])
                (rollouts_of i rs))
        | inr m ↦
            rw
              (
                get?-alter same_identity same_identity-IsEquality i (identity_of payload_of r) []
                    (λ xs. xs ++ r ∷ []) d.partitions,
                m,
              )
              refl
      ]

  pub tokens-collect :
      (i : Identity) (n : ℕ) (d : Parts) (rs : List Pending)
      → or_default 0 (get? same_identity i (collect payload_of n d rs).tokens)
        ≡ or_default 0 (get? same_identity i d.tokens) + tokens_of (rollouts_of i rs)
  unfolding collect
  tokens-collect i n d [] = omega arith
  tokens-collect i n d (r ∷ rs) =
      tokens-collect i (suc n) (add_part payload_of n r d) rs
      ∙ elim (Bool-cases (same_identity (identity_of payload_of r) i)) [
        | inl y ↦
            rw
              (
                get?-alter same_identity same_identity-IsEquality i (identity_of payload_of r) 0
                    (λ t. t + r.token_count) d.tokens,
                y,
                same_identity-IsEquality.eq_path (identity_of payload_of r) i y,
              )
              (omega arith)
        | inr m ↦
            rw
              (
                get?-alter same_identity same_identity-IsEquality i (identity_of payload_of r) 0
                    (λ t. t + r.token_count) d.tokens,
                m,
              )
              refl
      ]

  pub first-collect :
      (i : Identity) (n : ℕ) (d : Parts) (rs : List Pending)
      → get? same_identity i (collect payload_of n d rs).first_index
        ≡ or_else (get? same_identity i d.first_index) (position i n rs)
  unfolding collect
  first-collect i n d [] = or_none (get? same_identity i d.first_index)
  first-collect i n d (r ∷ rs) =
      first-collect i (suc n) (add_part payload_of n r d) rs
      ∙ elim (Bool-cases (same_identity (identity_of payload_of r) i)) [
        | inl y ↦
            rw
              (
                get?-alter same_identity same_identity-IsEquality i (identity_of payload_of r) n
                    (λ k. k) d.first_index,
                y,
                same_identity-IsEquality.eq_path (identity_of payload_of r) i y,
              )
              (first_of (get? same_identity i d.first_index) n (position i (suc n) rs))
        | inr m ↦
            rw
              (
                get?-alter same_identity same_identity-IsEquality i (identity_of payload_of r) n
                    (λ k. k) d.first_index,
                m,
              )
              refl
      ]
