-- ===== src/Prelude/Lists.antt =====
-- Lists measured by native numbers, under the library's names, and predicates by recursion.
use Prim.Native.Nat.{ℕ, zero, suc, ◌+◌, ◌≤◌, min}
use mathlib.Core.Path.{◌≡◌, refl, ap, subst}
use mathlib.Core.Logic.{◌≢◌}
use mathlib.Core.Bool.{Bool, true, false, ◌&&◌, ◌||◌}
use mathlib.Core.List.{List, [], ◌∷◌, ◌++◌, map}
use mathlib.Core.Option.{Option, none, some}
use native.Mathlib.Omega.{arith}
use aether_rl.Prelude.Tests.{if◌then◌else◌}

module _ {ℓ} {A : Type ℓ} where
  abbrev pub length : List A → ℕ
  length [] = 0
  length (x ∷ xs) = suc (length xs)

  abbrev pub take : ℕ → List A → List A
  take zero xs = []
  take (suc n) [] = []
  take (suc n) (x ∷ xs) = x ∷ take n xs

  abbrev pub replicate : ℕ → A → List A
  replicate zero a = []
  replicate (suc n) a = a ∷ replicate n a

  abbrev pub head? : List A → Option A
  head? [] = none
  head? (x ∷ xs) = some x

  abbrev pub any : (A → Bool) → List A → Bool
  any p [] = false
  any p (x ∷ xs) = p x || any p xs

  abbrev pub all : (A → Bool) → List A → Bool
  all p [] = true
  all p (x ∷ xs) = p x && all p xs

  -- `SELECT … WHERE p`
  abbrev pub keep : (A → Bool) → List A → List A
  keep p [] = []
  keep p (x ∷ xs) = let rest = keep p xs in if p x then x ∷ rest else rest

  -- `SELECT COUNT(*) … WHERE p`
  abbrev pub count : (A → Bool) → List A → ℕ
  count p [] = 0
  count p (x ∷ xs) = let rest = count p xs in if p x then suc rest else rest

  abbrev pub All {κ} : (A → Type κ) → List A → Type κ
  All P [] = Unit
  All P (x ∷ xs) = P x × All P xs

  pub length-append : (xs ys : List A) → length (xs ++ ys) ≡ length xs + length ys
  length-append [] ys = omega arith
  length-append (x ∷ xs) ys = omega (arith, length-append xs ys)

  pub length-take : (n : ℕ) (xs : List A) → length (take n xs) ≡ min n (length xs)
  length-take zero xs = omega arith
  length-take (suc n) [] = omega arith
  length-take (suc n) (x ∷ xs) = omega (arith, length-take n xs)

  pub length-replicate : (n : ℕ) (a : A) → length (replicate n a) ≡ n
  length-replicate zero a = refl
  length-replicate (suc n) a = ap suc (length-replicate n a)

  pub All-append {κ} : (P : A → Type κ) (xs ys : List A) → All P xs → All P ys → All P (xs ++ ys)
  All-append P [] ys hx hy = hy
  All-append P (x ∷ xs) ys hx hy = (hx.0, All-append P xs ys hx.1 hy)

  pub All-keep {κ} : (P : A → Type κ) (p : A → Bool) (xs : List A) → All P xs → All P (keep p xs)
  All-keep P p [] h = tt
  All-keep P p (x ∷ xs) h = go (p x) (All-keep P p xs h.1)
    where
      go : (b : Bool) → All P (keep p xs) → All P (if b then x ∷ keep p xs else keep p xs)
      go true r = (h.0, r)
      go false r = r

  -- What is kept passes the test.
  pub All-keep_where {κ} :
      (P : A → Type κ) (p : A → Bool) (xs : List A)
      → All P xs
      → All (λ x. P x × (p x ≡ true)) (keep p xs)
  All-keep_where P p [] h = tt
  All-keep_where P p (x ∷ xs) h = go (p x) refl (All-keep_where P p xs h.1)
    where
      go :
          (b : Bool)
          → p x ≡ b
          → All (λ y. P y × (p y ≡ true)) (keep p xs)
          → All (λ y. P y × (p y ≡ true)) (if b then x ∷ keep p xs else keep p xs)
      go true e r = ((h.0, e), r)
      go false e r = r

  -- What a query does not return fails its test.
  pub All-of-keep {κ} :
      (P : A → Type κ) (p : A → Bool) (xs : List A)
      → All P (keep p xs)
      → All (λ x. p x ≡ true → P x) xs
  All-of-keep P p [] h = tt
  All-of-keep P p (x ∷ xs) h = go (p x) refl h (All-of-keep P p xs)
    where
      go :
          (b : Bool)
          → p x ≡ b
          → All P (if b then x ∷ keep p xs else keep p xs)
          → (All P (keep p xs) → All (λ y. p y ≡ true → P y) xs)
          → (p x ≡ true → P x) × All (λ y. p y ≡ true → P y) xs
      go true e h f = (λ _. h.0, f h.1)
      go false e h f = (λ t. absurd (ground arith), f h)

  pub All-head {κ} : (P : A → Type κ) (xs : List A) (x : A) → head? xs ≡ some x → All P xs → P x
  All-head P [] x e h = absurd (ground arith)
  All-head P (y ∷ ys) x e h = let p : y ≡ x = cc in subst P p h.0

  pub All-All : (P : A → Type 0) → ((a : A) → P a) → (xs : List A) → All P xs
  All-All P f [] = tt
  All-All P f (x ∷ xs) = (f x, All-All P f xs)

  pub All-mono {κ μ} :
      (P : A → Type κ) (Q : A → Type μ)
      → ((a : A) → P a → Q a)
      → (xs : List A) → All P xs
      → All Q xs
  All-mono P Q f [] h = tt
  All-mono P Q f (x ∷ xs) h = (f x h.0, All-mono P Q f xs h.1)

  pub count-le-length : (p : A → Bool) (xs : List A) → count p xs ≤ length xs
  count-le-length p [] = omega arith
  count-le-length p (x ∷ xs) = ground (arith, count-le-length p xs)

module _ {ℓ κ} {A : Type ℓ} {B : Type κ} where
  pub length-map : (xs : List A) (f : A → B) → length (map f xs) ≡ length xs
  length-map [] f = refl
  length-map (x ∷ xs) f = ap suc (length-map xs f)

-- No two rows have one key.
module _ {ℓ} {A : Type ℓ} (key : A → ℕ) where
  abbrev pub IsUnique : List A → Type ℓ
  IsUnique [] = Unit
  IsUnique (x ∷ xs) = All (λ y. key x ≢ key y) xs × IsUnique xs

  pub IsUnique-append :
      (xs : List A) (y : A) → IsUnique xs → All (λ x. key x ≢ key y) xs → IsUnique (xs ++ y ∷ [])
  IsUnique-append [] y u h = (tt, tt)
  IsUnique-append (x ∷ xs) y u h =
      (All-append (λ z. key x ≢ key z) xs (y ∷ []) u.0 (h.0, tt), IsUnique-append xs y u.1 h.1)

  pub IsUnique-keep : (p : A → Bool) (xs : List A) → IsUnique xs → IsUnique (keep p xs)
  IsUnique-keep p [] u = tt
  IsUnique-keep p (x ∷ xs) u =
      go (p x) (All-keep (λ y. key x ≢ key y) p xs u.0) (IsUnique-keep p xs u.1)
    where
      go :
          (b : Bool)
          → All (λ y. key x ≢ key y) (keep p xs)
          → IsUnique (keep p xs)
          → IsUnique (if b then x ∷ keep p xs else keep p xs)
      go true a r = (a, r)
      go false a r = r

abbrev pub sum : List ℕ → ℕ
sum [] = 0
sum (x ∷ xs) = x + sum xs

pub sum-append : (xs ys : List ℕ) → sum (xs ++ ys) ≡ sum xs + sum ys
sum-append [] ys = omega arith
sum-append (x ∷ xs) ys = omega (arith, sum-append xs ys)
