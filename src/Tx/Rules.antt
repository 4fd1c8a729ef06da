-- ===== src/Tx/Rules.antt =====
-- Partial correctness of transactions: `Ensures r Q` says that `Q` holds of what `r` returned and of
-- the state that it wrote, if it did not raise. One rule for each way to build a transaction.
use aether_rl.Prelude.{
  ◌≡◌, refl, sym, subst, Bool, true, false, Option, none, some, List, [], ◌∷◌, if◌then◌else◌,
}
use aether_rl.Tx.{
  Error, Result, ok, err, Tx, ◌>>=◌, ◌>>◌, gets, require, guard, modify, for_each, continue,
  or_raise,
}

module _ {S A : Type 0} where
  unfoldable pub Ensures : Result (A × S) → (A → S → Type 0) → Type 0
  Ensures (ok (a, s)) Q = Q a s
  Ensures (err e) Q = Unit

  pub Ensures-pure : (Q : A → S → Type 0) (a : A) (s : S) → Q a s → Ensures (ok (a, s)) Q
  unfolding Ensures
  Ensures-pure Q a s h = h

  pub Ensures-raise : (Q : A → S → Type 0) (e : Error) → Ensures (err e) Q
  unfolding Ensures
  Ensures-raise Q e = tt

  pub Ensures-ok :
      (r : Result (A × S)) (Q : A → S → Type 0) (a : A) (s : S)
      → Ensures r Q
      → r ≡ ok (a, s)
      → Q a s
  unfolding Ensures
  Ensures-ok r Q a s h e = rw e at h

  pub Ensures_mono :
      (r : Result (A × S)) (P Q : A → S → Type 0)
      → ((a : A) (s : S) → P a s → Q a s)
      → Ensures r P
      → Ensures r Q
  unfolding Ensures
  Ensures_mono (ok (a, s)) P Q f h = f a s h
  Ensures_mono (err e) P Q f h = tt

  -- What holds of everything holds of what is returned.
  pub Ensures_any :
      (r : Result (A × S)) (Q : A → S → Type 0) → ((a : A) (s : S) → Q a s) → Ensures r Q
  unfolding Ensures
  Ensures_any (ok (a, s)) Q f = f a s
  Ensures_any (err e) Q f = tt

  pub Ensures-if :
      (b : Bool) (m n : Tx S A) (s : S) (Q : A → S → Type 0)
      → (b ≡ true → Ensures (m s) Q)
      → (b ≡ false → Ensures (n s) Q)
      → Ensures ((if b then m else n) s) Q
  Ensures-if true m n s Q f g = f refl
  Ensures-if false m n s Q f g = g refl

module _ {S A B : Type 0} (Q : B → S → Type 0) (s : S) where
  pub Ensures-bind :
      (m : Tx S A) (f : A → Tx S B)
      → Ensures (m s) (λ a t. Ensures (f a t) Q)
      → Ensures ((m >>= f) s) Q
  unfolding Ensures ◌>>=◌
  Ensures-bind m f h = go (m s) h
    where
      go : (r : Result (A × S)) → Ensures r (λ a t. Ensures (f a t) Q) → Ensures (continue f r) Q
      go (ok (a, t)) h = h
      go (err e) h = tt

  pub Ensures-then :
      (m : Tx S A) (n : Tx S B) → Ensures (m s) (λ a t. Ensures (n t) Q) → Ensures ((m >> n) s) Q
  unfolding ◌>>◌
  Ensures-then m n h = Ensures-bind m (λ _. n) h

  pub Ensures-gets :
      (g : S → A) (f : A → Tx S B) → Ensures (f (g s) s) Q → Ensures ((gets g >>= f) s) Q
  unfolding ◌>>=◌ gets
  Ensures-gets g f h = h

  pub Ensures-require :
      (e : Error) (g : S → Option A) (f : A → Tx S B)
      → ((a : A) → g s ≡ some a → Ensures (f a s) Q)
      → Ensures ((require e g >>= f) s) Q
  unfolding Ensures ◌>>=◌ require
  Ensures-require e g f h = go (g s) h
    where
      go :
          (o : Option A)
          → ((a : A) → o ≡ some a → Ensures (f a s) Q)
          → Ensures (continue f (or_raise e s o)) Q
      go none k = tt
      go (some a) k = k a refl

-- A part that only reads: what follows it runs on the same state.
module _ {S A B : Type 0} (P : A → Type 0) (Q : B → S → Type 0) (s : S) where
  pub Ensures_read :
      (m : Tx S A) (f : A → Tx S B)
      → Ensures (m s) (λ a t. (t ≡ s) × P a)
      → ((a : A) → P a → Ensures (f a s) Q)
      → Ensures ((m >>= f) s) Q
  Ensures_read m f h k = Ensures-bind Q s m f (
      Ensures_mono (m s) (λ a t. (t ≡ s) × P a) (λ a t. Ensures (f a t) Q)
        (λ a t e. subst (λ u. Ensures (f a u) Q) (sym e.0) (k a e.1)) h)

  pub Ensures_read_then :
      (m : Tx S A) (n : Tx S B)
      → Ensures (m s) (λ a t. (t ≡ s) × P a)
      → ((a : A) → P a → Ensures (n s) Q)
      → Ensures ((m >> n) s) Q
  unfolding ◌>>◌
  Ensures_read_then m n h k = Ensures_read m (λ _. n) h k

module _ {S B : Type 0} (Q : B → S → Type 0) (s : S) where
  pub Ensures-guard :
      (b : Bool) (e : Error) (n : Tx S B)
      → (b ≡ true → Ensures (n s) Q)
      → Ensures ((guard b e >> n) s) Q
  unfolding Ensures ◌>>◌ guard
  Ensures-guard true e n h = h refl
  Ensures-guard false e n h = tt

  pub Ensures-modify :
      (f : S → S) (n : Tx S B) → Ensures (n (f s)) Q → Ensures ((modify f >> n) s) Q
  unfolding ◌>>◌ modify
  Ensures-modify f n h = h

pub Ensures-write :
    {S : Type 0} (Q : Unit → S → Type 0) (s : S) (f : S → S) → Q tt (f s) → Ensures (modify f s) Q
unfolding Ensures modify
Ensures-write Q s f h = h

pub Ensures-check :
    {S : Type 0} (Q : Unit → S → Type 0) (s : S) (b : Bool) (e : Error)
    → (b ≡ true → Q tt s)
    → Ensures (guard b e s) Q
unfolding Ensures guard
Ensures-check Q s true e h = h refl
Ensures-check Q s false e h = tt

-- A loop over rows that were read before it began: `P` holds before and after each round, and what
-- is known of a row, `K`, is not spoilt by the rounds before its own.
module _ {S A : Type 0} (P : S → Type 0) (body : A → Tx S Unit) where
  pub Ensures-for_each :
      ((x : A) (s : S) → P s → Ensures (body x s) (λ _ t. P t))
      → (xs : List A) (s : S) → P s
      → Ensures (for_each xs body s) (λ _ t. P t)
  unfolding for_each
  Ensures-for_each keeps [] s h = Ensures-pure (λ _ t. P t) tt s h
  Ensures-for_each keeps (x ∷ xs) s h =
      Ensures-then (λ _ t. P t) s (body x) (for_each xs body)
        (Ensures_mono (body x s) (λ _ t. P t) (λ _ t. Ensures (for_each xs body t) (λ _ u. P u))
          (λ _ t p. Ensures-for_each keeps xs t p) (keeps x s h))
