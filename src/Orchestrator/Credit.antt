-- ===== src/Orchestrator/Credit.antt =====
-- Which tokens of a trace are trained on, and the lengths of the samples.
use aether_rl.Prelude.{
  ℕ, zero, suc, ◌+◌, ◌≡◌, ◌∙◌, refl, ap, Bool, true, false, Bool-cases, inl, inr, List, [], ◌∷◌,
  ◌++◌, ◌&&◌, not, arith, ◌==◌, ==→eq, any, All, keep, count, sum, length, replicate, map,
}
use aether_rl.Orchestrator.Trajectories.{
  Node, TraceBranch, is_true, is_trainable, is_in, emitted, trained_after, mask_nodes, iter_from,
  iter_trainable_branches,
}
use aether_rl.Orchestrator.Masks.{trains, masked, iter-masked}

-- The model-sampled tokens of a node.
abbrev pub tokens_of : Node → ℕ
tokens_of n = count is_true n.mask

-- The list's nodes, each one once.
abbrev pub distinct : List Node → List Node
distinct [] = []
distinct (n ∷ ns) = n ∷ keep (λ m. not (m.ident == n.ident)) (distinct ns)

-- A node that the model did not sample has no trainable token.
abbrev pub IsContext : Node → Type 0
IsContext n = n.sampled ≡ false → tokens_of n ≡ 0

-- The `trained_nodes` that a node is not among.
abbrev fresh : List ℕ → Node → Bool
fresh trained n = not (is_in n.ident trained)

keep-keep :
    {A : Type 0} (p q : A → Bool) (xs : List A) → keep p (keep q xs) ≡ keep (λ x. q x && p x) xs
keep-keep p q [] = refl
keep-keep p q (x ∷ xs) = ground (arith, keep-keep p q xs)

keep-cong :
    {A : Type 0} (p q : A → Bool) → ((x : A) → p x ≡ q x) → (xs : List A) → keep p xs ≡ keep q xs
keep-cong p q h [] = refl
keep-cong p q h (x ∷ xs) = rw (h x, keep-cong p q h xs) refl

keep-all : {A : Type 0} (xs : List A) → keep (λ _. true) xs ≡ xs
keep-all [] = refl
keep-all (x ∷ xs) = ap (λ ys. x ∷ ys) (keep-all xs)

count-append :
    {A : Type 0} (p : A → Bool) (xs ys : List A) → count p (xs ++ ys) ≡ count p xs + count p ys
count-append p [] ys = omega arith
count-append p (x ∷ xs) ys = ground (arith, count-append p xs ys)

count-none : (n : ℕ) → count is_true (replicate n false) ≡ 0
count-none zero = refl
count-none (suc n) = count-none n

count-any : (bs : List Bool) → any is_true bs ≡ false → count is_true bs ≡ 0
count-any [] h = refl
count-any (false ∷ bs) h = count-any bs h
count-any (true ∷ bs) h = absurd (ground (arith, h))

-- What a walk over the nodes, from a set of trained ones, trains on.
abbrev walked : List ℕ → List Node → ℕ
walked trained ns = sum (map tokens_of (keep (fresh trained) (distinct (keep is_trainable ns))))

fresh-cons :
    (trained : List ℕ) (n m : Node)
    → not (m.ident == n.ident) && fresh trained m ≡ fresh (n.ident ∷ trained) m
fresh-cons trained n m = ground arith

fresh-old :
    (trained : List ℕ) (n : Node)
    → is_in n.ident trained ≡ true
    → (m : Node) → not (m.ident == n.ident) && fresh trained m ≡ fresh trained m
fresh-old trained n old m = elim (Bool-cases (m.ident == n.ident)) [
  | inl y ↦ rw (y, ==→eq m.ident n.ident y, old) refl
  | inr n' ↦ rw n' refl
]

module _ (trained : List ℕ) (n : Node) (ns : List Node) where
  walked-context : is_trainable n ≡ false → walked trained (n ∷ ns) ≡ walked trained ns
  walked-context c = rw c refl

  walked-old :
      is_trainable n ≡ true
      → is_in n.ident trained ≡ true
      → walked trained (n ∷ ns) ≡ walked trained ns
  walked-old y old =
      rw
        (
          y,
          old,
          keep-keep (fresh trained) (λ m. not (m.ident == n.ident))
              (distinct (keep is_trainable ns)),
          keep-cong _ _ (fresh-old trained n old) (distinct (keep is_trainable ns)),
        )
        refl

  walked-new :
      is_trainable n ≡ true
      → is_in n.ident trained ≡ false
      → walked trained (n ∷ ns) ≡ tokens_of n + walked (n.ident ∷ trained) ns
  walked-new y new =
      rw
        (
          y,
          new,
          keep-keep (fresh trained) (λ m. not (m.ident == n.ident))
              (distinct (keep is_trainable ns)),
          keep-cong _ _ (fresh-cons trained n) (distinct (keep is_trainable ns)),
        )
        refl

  emitted-context :
      is_trainable n ≡ false → (emitted trained n ≡ n.mask) × (trained_after trained n ≡ trained)
  unfolding emitted trained_after
  emitted-context c = rw c (refl, refl)

  emitted-old :
      is_trainable n ≡ true
      → is_in n.ident trained ≡ true
      → (emitted trained n ≡ replicate (length n.mask) false) × (trained_after trained n ≡ trained)
  unfolding emitted trained_after
  emitted-old y old = rw (y, old) (refl, refl)

  emitted-new :
      is_trainable n ≡ true
      → is_in n.ident trained ≡ false
      → (emitted trained n ≡ n.mask) × (trained_after trained n ≡ n.ident ∷ trained)
  unfolding emitted trained_after
  emitted-new y new = rw (y, new) (refl, refl)

IsContext-zero : (n : Node) → IsContext n → is_trainable n ≡ false → tokens_of n ≡ 0
IsContext-zero n h c = elim (Bool-cases n.sampled) [
  | inl y ↦ count-any n.mask (ground (arith, y, c))
  | inr n' ↦ h n'
]

walked-mask :
    (trained : List ℕ) (ns : List Node)
    → All IsContext ns
    → count is_true (mask_nodes trained ns).1 ≡ walked trained ns
unfolding mask_nodes
walked-mask trained [] h = refl
walked-mask trained (n ∷ ns) h = elim (Bool-cases (is_trainable n)) [
  | inl y ↦ elim (Bool-cases (is_in n.ident trained)) [
    | inl old ↦
        (let e = emitted-old trained n ns y old in
          rw (e.0, e.1)
            (omega (
              arith,
              count-append is_true (replicate (length n.mask) false) (mask_nodes trained ns).1,
              count-none (length n.mask),
              walked-mask trained ns h.1,
              walked-old trained n ns y old,
            )))
    | inr new ↦
        (let e = emitted-new trained n ns y new in
          rw (e.0, e.1)
            (omega (
              arith,
              count-append is_true n.mask (mask_nodes (n.ident ∷ trained) ns).1,
              walked-mask (n.ident ∷ trained) ns h.1,
              walked-new trained n ns y new,
            )))
  ]
  | inr c ↦
      (let e = emitted-context trained n ns c in
        rw (e.0, e.1)
          (omega (
            arith,
            count-append is_true n.mask (mask_nodes trained ns).1,
            IsContext-zero n h.0 c,
            walked-mask trained ns h.1,
            walked-context trained n ns c,
          )))
]

mask_nodes-append :
    (trained : List ℕ) (xs ys : List Node)
    → let w = mask_nodes trained xs in
      (count is_true (mask_nodes trained (xs ++ ys)).1
        ≡ count is_true w.1 + count is_true (mask_nodes w.0 ys).1)
unfolding mask_nodes
mask_nodes-append trained [] ys = omega arith
mask_nodes-append trained (n ∷ xs) ys =
    let rest = mask_nodes-append (trained_after trained n) xs ys in
    omega (
      arith,
      rest,
      count-append is_true (emitted trained n) (mask_nodes (trained_after trained n) (xs ++ ys)).1,
      count-append is_true (emitted trained n) (mask_nodes (trained_after trained n) xs).1,
    )

module _ {F M R : Type 0} where
  -- The nodes of the branches, one branch after the other.
  abbrev pub all_nodes : List (TraceBranch F M R) → List Node
  all_nodes [] = []
  all_nodes (b ∷ bs) = b.nodes ++ all_nodes bs

  abbrev pub trained_tokens : List (TraceBranch F M R × List Bool) → ℕ
  trained_tokens [] = 0
  trained_tokens ((b, m) ∷ rest) = count is_true m + trained_tokens rest

  trained_tokens-iter :
      (trained : List ℕ) (bs : List (TraceBranch F M R))
      → trained_tokens (iter_from trained bs) ≡ count is_true (mask_nodes trained (all_nodes bs)).1
  unfolding iter_from
  trained_tokens-iter trained [] = refl
  trained_tokens-iter trained (b ∷ bs) =
      let w = mask_nodes trained b.nodes in
      elim (Bool-cases (any is_true w.1)) [
        | inl y ↦ rw y (
            omega
              (arith, mask_nodes-append trained b.nodes (all_nodes bs), trained_tokens-iter w.0 bs))
        | inr n ↦ rw n (
            omega (
              arith,
              count-any w.1 n,
              mask_nodes-append trained b.nodes (all_nodes bs),
              trained_tokens-iter w.0 bs,
            ))
      ]

-- The yielded branches are those with a token to train on, in order, each with the mask that has for each
-- node its own mask, or no token where the node is trained on in an earlier place of the trace. When no
-- node that the model did not sample has a trainable token, the tokens that they train on are those of the
-- sampled nodes of the trace, each node counted once however many branches share it.
pub iter_trainable_branches-once :
    {F M R : Type 0} (bs : List (TraceBranch F M R))
    → All IsContext (all_nodes bs)
    → (iter_trainable_branches bs ≡ keep trains (masked [] bs))
      × (trained_tokens (iter_trainable_branches bs)
          ≡ sum (map tokens_of (distinct (keep is_trainable (all_nodes bs)))))
unfolding iter_trainable_branches
iter_trainable_branches-once bs h = (
  iter-masked [] [] bs (λ _. refl),
  trained_tokens-iter [] bs
      ∙ walked-mask [] (all_nodes bs) h
      ∙ ap (λ ns. sum (map tokens_of ns)) (keep-all (distinct (keep is_trainable (all_nodes bs)))),
)
