-- ===== src/Tx/Total.antt =====
-- Correctness of transactions that may raise in one case only: `Returns E r Q` says that `Q` holds of what
-- `r` returned and of the state that it wrote, or that `r` raised and `E` holds. `Returns ⊥` is total
-- correctness.
use aether_rl.Prelude.{
  ◌≡◌, ◌≢◌, refl, ℕ, Bool, true, false, List, [], ◌∷◌, All, IsUnique, if◌then◌else◌,
}
use aether_rl.Tx.{Error, Result, ok, err, Tx, ◌>>=◌, ◌>>◌, gets, guard, modify, for_each, continue}
use aether_rl.Tx.Rules.{Ensures}

module _ {S A : Type 0} where
  unfoldable pub Returns : Type 0 → Result (A × S) → (A → S → Type 0) → Type 0
  Returns E (ok (a, s)) Q = Q a s
  Returns E (err e) Q = E

  -- The result itself.
  pub Returns-ok :
      (r : Result (A × S)) (Q : A → S → Type 0)
      → Returns ⊥ r Q
      → (a : A) × (s : S) × (r ≡ ok (a, s)) × Q a s
  unfolding Returns
  Returns-ok (ok (a, s)) Q h = (a, s, refl, h)
  Returns-ok (err e) Q h = elim h [ ]

module _ {S A : Type 0} (E : Type 0) where
  pub Returns-pure : (Q : A → S → Type 0) (a : A) (s : S) → Q a s → Returns E (ok (a, s)) Q
  unfolding Returns
  Returns-pure Q a s h = h

  pub Returns-Ensures : (r : Result (A × S)) (Q : A → S → Type 0) → Returns E r Q → Ensures r Q
  unfolding Returns Ensures
  Returns-Ensures (ok (a, s)) Q h = h
  Returns-Ensures (err e) Q h = tt

  pub Returns_mono :
      (r : Result (A × S)) (P Q : A → S → Type 0)
      → ((a : A) (s : S) → P a s → Q a s)
      → Returns E r P
      → Returns E r Q
  unfolding Returns
  Returns_mono (ok (a, s)) P Q f h = f a s h
  Returns_mono (err e) P Q f h = h

  pub Returns-if :
      (b : Bool) (m n : Tx S A) (s : S) (Q : A → S → Type 0)
      → (b ≡ true → Returns E (m s) Q)
      → (b ≡ false → Returns E (n s) Q)
      → Returns E ((if b then m else n) s) Q
  Returns-if true m n s Q f g = f refl
  Returns-if false m n s Q f g = g refl

module _ {S A B : Type 0} (E : Type 0) (Q : B → S → Type 0) (s : S) where
  pub Returns-bind :
      (m : Tx S A) (f : A → Tx S B)
      → Returns E (m s) (λ a t. Returns E (f a t) Q)
      → Returns E ((m >>= f) s) Q
  unfolding Returns ◌>>=◌
  Returns-bind m f h = go (m s) h
    where
      go :
          (r : Result (A × S))
          → Returns E r (λ a t. Returns E (f a t) Q)
          → Returns E (continue f r) Q
      go (ok (a, t)) h = h
      go (err e) h = h

  pub Returns-then :
      (m : Tx S A) (n : Tx S B)
      → Returns E (m s) (λ a t. Returns E (n t) Q)
      → Returns E ((m >> n) s) Q
  unfolding ◌>>◌
  Returns-then m n h = Returns-bind m (λ _. n) h

  pub Returns-gets :
      (g : S → A) (f : A → Tx S B) → Returns E (f (g s) s) Q → Returns E ((gets g >>= f) s) Q
  unfolding ◌>>=◌ gets
  Returns-gets g f h = h

module _ {S B : Type 0} (E : Type 0) (Q : B → S → Type 0) (s : S) where
  pub Returns-guard :
      (b : Bool) (e : Error) (n : Tx S B)
      → b ≡ true
      → Returns E (n s) Q
      → Returns E ((guard b e >> n) s) Q
  unfolding Returns ◌>>◌ guard
  Returns-guard true e n p h = h
  Returns-guard false e n p h = cc

  -- A test whose failure is the case in which it may raise.
  pub Returns-check :
      (b : Bool) (e : Error) (n : Tx S B)
      → (b ≡ false → E)
      → (b ≡ true → Returns E (n s) Q)
      → Returns E ((guard b e >> n) s) Q
  unfolding Returns ◌>>◌ guard
  Returns-check true e n f h = h refl
  Returns-check false e n f h = f refl

  pub Returns-modify :
      (f : S → S) (n : Tx S B) → Returns E (n (f s)) Q → Returns E ((modify f >> n) s) Q
  unfolding ◌>>◌ modify
  Returns-modify f n h = h

pub Returns-write :
    {S : Type 0} (E : Type 0) (Q : Unit → S → Type 0) (s : S) (f : S → S)
    → Q tt (f s)
    → Returns E (modify f s) Q
unfolding Returns modify
Returns-write E Q s f h = h

-- A loop over rows that were read before it began: `P` holds before and after each round, and what
-- is known of a row, `K`, is not spoilt by the rounds of rows with other keys.
module _ {S A : Type 0} (E : Type 0) (P : S → Type 0) (key : A → ℕ) (K : A → S → Type 0)
    (body : A → Tx S Unit)
    (round : (x : A) (s : S)
      → P s
      → K x s
      → Returns E (body x s) (λ _ t. P t × ((y : A) → key x ≢ key y → K y s → K y t))) where
  still :
      (x : A) (s t : S) (ys : List A)
      → ((y : A) → key x ≢ key y → K y s → K y t)
      → All (λ y. key x ≢ key y) ys
      → All (λ y. K y s) ys
      → All (λ y. K y t) ys
  still x s t [] f ne k = tt
  still x s t (y ∷ ys) f ne k = (f y ne.0 k.0, still x s t ys f ne.1 k.1)

  pub Returns-for_each :
      (xs : List A) (s : S)
      → P s
      → All (λ x. K x s) xs
      → IsUnique key xs
      → Returns E (for_each xs body s) (λ _ t. P t)
  unfolding for_each
  Returns-for_each [] s p k u = Returns-pure E (λ _ t. P t) tt s p
  Returns-for_each (x ∷ xs) s p k u =
      Returns-then E (λ _ t. P t) s (body x) (for_each xs body)
        (Returns_mono E (body x s) (λ _ t. P t × ((y : A) → key x ≢ key y → K y s → K y t))
          (λ _ t. Returns E (for_each xs body t) (λ _ u. P u))
          (λ _ t q. Returns-for_each xs t q.0 (still x s t xs q.1 u.0 k.1) u.1) (round x s p k.0))
