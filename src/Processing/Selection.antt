-- ===== src/Processing/Selection.antt =====
-- The sizes, the least identity and the last loop of `_select_policy_homogeneous_batch`.
use aether_rl.Prelude.{
  ℕ, suc, ◌+◌, ◌≤◌, ◌≡◌, ◌∙◌, refl, sym, ap, Bool, true, false, Bool-cases, inl, inr, Option, none,
  some, List, [], ◌∷◌, ◌++◌, ◌||◌, arith, ltb, leb, All, length, holds_some, if◌then◌else◌,
}
use aether_rl.Dict.{or_default}
use aether_rl.Processing.Selecting.{
  Pending, Identity, Sizes, size_is_valid, sizes_are_valid, reached, is_enough, is_enough_by, least,
  take_enough,
}
use aether_rl.Processing.Partition.{tokens_of}

-- The rollouts reach the size of a batch.
abbrev pub Suffices : Sizes → List Pending → Type 0
Suffices z rs = reached z (length rs) (tokens_of rs) ≡ true

-- Exactly one size is configured, and it is positive.
pub enough-reached :
    (z : Sizes) (n t : ℕ) → sizes_are_valid z ≡ true → is_enough z n t ≡ reached z n t
unfolding sizes_are_valid is_enough reached
enough-reached z n t h = go z.batch_size z.token_batch_size h
  where
    go :
        (b t' : Option ℕ)
        → size_is_valid b t' ≡ true
        → is_enough_by b (or_default 0 t') n t
          ≡ (holds_some (λ k. leb k n) b || holds_some (λ k. leb k t) t')
    go none none e = absurd (ground (arith, e))
    go none (some k) e = refl
    go (some k) none e = ground arith
    go (some k) (some l) e = absurd (ground (arith, e))

pub reached-zero : (z : Sizes) → sizes_are_valid z ≡ true → reached z 0 0 ≡ false
unfolding sizes_are_valid reached
reached-zero z h = go z.batch_size z.token_batch_size h
  where
    go :
        (b t' : Option ℕ)
        → size_is_valid b t' ≡ true
        → (holds_some (λ k. leb k 0) b || holds_some (λ k. leb k 0) t') ≡ false
    go none none e = refl
    go none (some k) e = ground (arith, e)
    go (some k) none e = ground (arith, e)
    go (some k) (some l) e = absurd (ground (arith, e))

-- The least of some identities.
module _ (key : Identity → ℕ) where
  pub least-le :
      (best : Identity) (is : List Identity)
      → (key (least key best is) ≤ key best) × All (λ i. key (least key best is) ≤ key i) is
  unfolding least
  least-le best [] = (omega arith, tt)
  least-le best (i ∷ is) =
      let c = if ltb (key i) (key best) then i else best in
      let r = least-le c is in
      let s = smaller (ltb (key i) (key best)) refl in
      (omega (arith, r.0, s.0), (omega (arith, r.0, s.1), r.1))
    where
      smaller :
          (b : Bool)
          → ltb (key i) (key best) ≡ b
          → (key (if b then i else best) ≤ key best) × (key (if b then i else best) ≤ key i)
      smaller true e = (ground (arith, e), omega arith)
      smaller false e = (omega arith, ground (arith, e))

  pub least-All :
      (P : Identity → Type 0) (best : Identity) (is : List Identity)
      → P best
      → All P is
      → P (least key best is)
  unfolding least
  least-All P best [] p h = p
  least-All P best (i ∷ is) p h = elim (Bool-cases (ltb (key i) (key best))) [
    | inl y ↦ rw y (least-All P i is h.0 h.1)
    | inr n ↦ rw n (least-All P best is p h.1)
  ]

module _ (z : Sizes) where
  -- The last loop, once `n` rollouts with `t` tokens were selected and the size was not reached.
  pub record Fills (n t : ℕ) (rs selected : List Pending) : Type 0 where
    pub before : List Pending
    pub last : Pending
    pub rest : List Pending
    pub ends : selected ≡ before ++ last ∷ []
    pub from_start : rs ≡ selected ++ rest
    pub suffices : reached z (n + length selected) (t + tokens_of selected) ≡ true
    pub none_shorter : reached z (n + length before) (t + tokens_of before) ≡ false

  pub reached_at : (b : Bool) (n m t u : ℕ) → n ≡ m → t ≡ u → reached z n t ≡ b → reached z m u ≡ b
  reached_at b n m t u p q h = sym (ap (λ k. reached z k u) p) ∙ sym (ap (λ k. reached z n k) q) ∙ h

  pub take_enough-Fills :
      (n t : ℕ) (rs : List Pending)
      → reached z n t ≡ false
      → reached z (n + length rs) (t + tokens_of rs) ≡ true
      → Fills n t rs (take_enough z n t rs)
  unfolding take_enough
  take_enough-Fills n t [] h e =
      let q = reached_at true (n + 0) n (t + 0) t (omega arith) (omega arith) e in
      absurd (ground (arith, h, q))
  take_enough-Fills n t (r ∷ rs) h e = elim (Bool-cases (reached z (suc n) (t + r.token_count))) [
    | inl y ↦ rw y record {
      before = [];
      last = r;
      rest = rs;
      ends = refl;
      from_start = refl;
      suffices =
          reached_at true (suc n) (n + 1) (t + r.token_count) _ (omega arith) (omega arith) y;
      none_shorter = reached_at false n _ t _ (omega arith) (omega arith) h;
    }
    | inr m ↦ rw m (
        let f =
          take_enough-Fills (suc n) (t + r.token_count) rs m
            (reached_at true _ _ _ _ (omega arith) (omega arith) e) in
        record {
          before = r ∷ f.before;
          last = f.last;
          rest = f.rest;
          ends = ap (λ xs. r ∷ xs) f.ends;
          from_start = ap (λ xs. r ∷ xs) f.from_start;
          suffices = reached_at true _ _ _ _ (omega arith) (omega arith) f.suffices;
          none_shorter = reached_at false _ _ _ _ (omega arith) (omega arith) f.none_shorter;
        })
  ]
