-- ===== src/Orchestrator/Masks.antt =====
-- The mask of each branch, by the nodes before each node.
use mathlib.Core.List.{append-nil, append_assoc}
use aether_rl.Prelude.{
  ℕ, ◌≡◌, ◌∙◌, refl, sym, ap, subst, Bool, true, false, Bool-cases, inl, inr, List, [], ◌∷◌, ◌++◌,
  ◌&&◌, ◌||◌, not, arith, ◌==◌, ==→eq, any, keep, length, replicate, if◌then◌else◌,
}
use aether_rl.Orchestrator.Trajectories.{
  Node, TraceBranch, is_true, is_trainable, is_in, emitted, trained_after, mask_nodes, iter_from,
}

-- One of the nodes before is this one, and is trained on.
abbrev pub seen : ℕ → List Node → Bool
seen k before = any (λ m. is_trainable m && m.ident == k) before

-- The mask of a node: its own at the first occurrence, and no token of a node that came before.
abbrev pub node_mask : List Node → Node → List Bool
node_mask before n =
    if is_trainable n && seen n.ident before then replicate (length n.mask) false else n.mask

abbrev pub branch_mask : List Node → List Node → List Bool
branch_mask before [] = []
branch_mask before (n ∷ ns) = node_mask before n ++ branch_mask (before ++ n ∷ []) ns

any-append :
    {A : Type 0} (p : A → Bool) (xs ys : List A) → any p (xs ++ ys) ≡ (any p xs || any p ys)
any-append p [] ys = refl
any-append p (x ∷ xs) ys = ground (arith, any-append p xs ys)

-- `trained_nodes` are the trained ones of the nodes before.
abbrev pub Agrees : List ℕ → List Node → Type 0
Agrees trained before = (k : ℕ) → is_in k trained ≡ seen k before

module _ (trained : List ℕ) (before : List Node) (h : Agrees trained before) (n : Node) where
  emitted-node_mask : emitted trained n ≡ node_mask before n
  unfolding emitted
  emitted-node_mask = rw (h n.ident) refl

  Agrees-trained_after : Agrees (trained_after trained n) (before ++ n ∷ [])
  unfolding trained_after
  Agrees-trained_after k = by_new (is_trainable n) (is_in n.ident trained) refl refl
    where
      by_new :
          (b c : Bool)
          → is_trainable n ≡ b
          → is_in n.ident trained ≡ c
          → is_in k (if b && not c then n.ident ∷ trained else trained) ≡ seen k (before ++ n ∷ [])
      by_new false c eb ec =
          rw (any-append (λ m. is_trainable m && m.ident == k) before (n ∷ []), eb)
            (ground (arith, h k))
      by_new true false eb ec =
          rw (any-append (λ m. is_trainable m && m.ident == k) before (n ∷ []), eb)
            (ground (arith, h k))
      by_new true true eb ec =
          rw (any-append (λ m. is_trainable m && m.ident == k) before (n ∷ []), eb)
            (elim (Bool-cases (n.ident == k)) [
              | inl y ↦
                  let old : is_in k trained ≡ true =
                    ap (λ j. is_in j trained) (sym (==→eq n.ident k y)) ∙ ec in
                  ground (arith, h k, old, y)
              | inr m ↦ ground (arith, h k, m)
            ])

mask_nodes-branch_mask :
    (trained : List ℕ) (before ns : List Node)
    → Agrees trained before
    → ((mask_nodes trained ns).1 ≡ branch_mask before ns)
      × Agrees (mask_nodes trained ns).0 (before ++ ns)
unfolding mask_nodes
mask_nodes-branch_mask trained before [] h = (refl, rw (append-nil before) h)
mask_nodes-branch_mask trained before (n ∷ ns) h =
    let k =
      mask_nodes-branch_mask (trained_after trained n) (before ++ n ∷ []) ns
        (Agrees-trained_after trained before h n) in
    (
      ap (λ z. z ++ (mask_nodes (trained_after trained n) ns).1)
            (emitted-node_mask trained before h n)
          ∙ ap (λ z. node_mask before n ++ z) k.0,
      subst (λ z. Agrees (mask_nodes (trained_after trained n) ns).0 z)
          (append_assoc before (n ∷ []) ns) k.1,
    )

module _ {F M R : Type 0} where
  -- Every branch with its mask, after the nodes of the branches before.
  abbrev pub masked : List Node → List (TraceBranch F M R) → List (TraceBranch F M R × List Bool)
  masked before [] = []
  masked before (b ∷ bs) = (b, branch_mask before b.nodes) ∷ masked (before ++ b.nodes) bs

  abbrev pub trains : TraceBranch F M R × List Bool → Bool
  trains p = any is_true p.1

  pub iter-masked :
      (trained : List ℕ) (before : List Node) (bs : List (TraceBranch F M R))
      → Agrees trained before
      → iter_from trained bs ≡ keep trains (masked before bs)
  unfolding iter_from
  iter-masked trained before [] h = refl
  iter-masked trained before (b ∷ bs) h =
      let k = mask_nodes-branch_mask trained before b.nodes h in
      rw (k.0, iter-masked (mask_nodes trained b.nodes).0 (before ++ b.nodes) bs k.1) refl
