-- ===== src/Prelude/Sorting.antt =====
-- `ORDER BY` and `list.sort(key=…)`: a stable insertion sort by a test `before x y`, which says
-- that `x` may stand in front of `y`.
use Prim.Native.Nat.{ℕ, ◌≤◌}
use mathlib.Core.Path.{◌≡◌, refl, sym, subst}
use mathlib.Core.Logic.{◌≢◌}
use mathlib.Core.Bool.{Bool, true, false}
use mathlib.Core.Option.{some}
use native.Mathlib.Omega.{arith}
use mathlib.Core.List.{List, [], ◌∷◌, Perm}
use mathlib.Core.List.Perm
use aether_rl.Prelude.Tests.{if◌then◌else◌}
use aether_rl.Prelude.Lists.{All, All-mono, head?, IsUnique}

module _ {ℓ} {A : Type ℓ} (before : A → A → Bool) where
  abbrev pub place : A → List A → List A
  place x [] = x ∷ []
  place x (y ∷ ys) = let rest = place x ys in if before x y then x ∷ y ∷ ys else y ∷ rest

  abbrev pub order_by : List A → List A
  order_by [] = []
  order_by (x ∷ xs) = place x (order_by xs)

  place-perm : (x : A) (ys : List A) → Perm (place x ys) (x ∷ ys)
  place-perm x [] = Perm.refl (x ∷ [])
  place-perm x (y ∷ ys) = go (before x y) (place-perm x ys)
    where
      go :
          (b : Bool)
          → Perm (place x ys) (x ∷ ys)
          → Perm (if b then x ∷ y ∷ ys else y ∷ place x ys) (x ∷ y ∷ ys)
      go true p = Perm.refl (x ∷ y ∷ ys)
      go false p = Perm.trans (Perm.cons y p) (Perm.swap x y ys)

  -- Sorting keeps every row, as often.
  pub order_by-perm : (xs : List A) → Perm (order_by xs) xs
  order_by-perm [] = Perm.refl []
  order_by-perm (x ∷ xs) = Perm.trans (place-perm x (order_by xs)) (Perm.cons x (order_by-perm xs))

  All-place {κ} : (P : A → Type κ) (x : A) (ys : List A) → P x → All P ys → All P (place x ys)
  All-place P x [] h hs = (h, tt)
  All-place P x (y ∷ ys) h hs = go (before x y) (All-place P x ys h hs.1)
    where
      go : (b : Bool) → All P (place x ys) → All P (if b then x ∷ y ∷ ys else y ∷ place x ys)
      go true r = (h, hs)
      go false r = (hs.0, r)

  pub All-order_by {κ} : (P : A → Type κ) (xs : List A) → All P xs → All P (order_by xs)
  All-order_by P [] h = tt
  All-order_by P (x ∷ xs) h = All-place P x (order_by xs) h.0 (All-order_by P xs h.1)

  pub IsUnique-place :
      (key : A → ℕ) (x : A) (ys : List A)
      → All (λ y. key x ≢ key y) ys
      → IsUnique key ys
      → IsUnique key (place x ys)
  IsUnique-place key x [] h u = (tt, tt)
  IsUnique-place key x (y ∷ ys) h u =
      go (before x y) (IsUnique-place key x ys h.1 u.1)
        (All-place (λ z. key y ≢ key z) x ys (λ e. h.0 (sym e)) u.0)
    where
      go :
          (b : Bool)
          → IsUnique key (place x ys)
          → All (λ z. key y ≢ key z) (place x ys)
          → IsUnique key (if b then x ∷ y ∷ ys else y ∷ place x ys)
      go true r a = (h, u)
      go false r a = (a, r)

  pub IsUnique-order_by : (key : A → ℕ) (xs : List A) → IsUnique key xs → IsUnique key (order_by xs)
  IsUnique-order_by key [] u = tt
  IsUnique-order_by key (x ∷ xs) u =
      IsUnique-place key x (order_by xs) (All-order_by (λ y. key x ≢ key y) xs u.0)
        (IsUnique-order_by key xs u.1)

  All-of-place {κ} : (P : A → Type κ) (x : A) (ys : List A) → All P (place x ys) → P x × All P ys
  All-of-place P x [] h = (h.0, tt)
  All-of-place P x (y ∷ ys) h = go (before x y) h (All-of-place P x ys)
    where
      go :
          (b : Bool)
          → All P (if b then x ∷ y ∷ ys else y ∷ place x ys)
          → (All P (place x ys) → P x × All P ys)
          → P x × All P (y ∷ ys)
      go true h f = h
      go false h f = ((f h.1).0, (h.0, (f h.1).1))

  pub All-of-order_by {κ} : (P : A → Type κ) (xs : List A) → All P (order_by xs) → All P xs
  All-of-order_by P [] h = tt
  All-of-order_by P (x ∷ xs) h =
      let (p, rest) = All-of-place P x (order_by xs) h in (p, All-of-order_by P xs rest)

  -- The first row has the least measure, where the order agrees with the measure.
  module _ (m : A → ℕ) (yes : (x y : A) → before x y ≡ true → m x ≤ m y)
      (no' : (x y : A) → before x y ≡ false → m y ≤ m x) where
    abbrev HeadLeast : List A → Type ℓ
    HeadLeast ys = (z : A) → head? ys ≡ some z → All (λ y. m z ≤ m y) ys

    HeadLeast-place : (x : A) (ys : List A) → HeadLeast ys → HeadLeast (place x ys)
    HeadLeast-place x [] h z e =
        let p : x ≡ z = cc in subst (λ w. All (λ v. m w ≤ m v) (x ∷ [])) p (omega arith, tt)
    HeadLeast-place x (y ∷ ys) h z e = go (before x y) refl e
      where
        go :
            (b : Bool)
            → before x y ≡ b
            → head? (if b then x ∷ y ∷ ys else y ∷ place x ys) ≡ some z
            → All (λ v. m z ≤ m v) (if b then x ∷ y ∷ ys else y ∷ place x ys)
        go true b e =
            let p : x ≡ z = cc in
            let q = yes x y b in
            subst (λ w. All (λ v. m w ≤ m v) (x ∷ y ∷ ys)) p
              (
                omega arith,
                (
                  q,
                  All-mono (λ v. m y ≤ m v) (λ v. m x ≤ m v) (λ v r. omega arith) ys (h y refl).1,
                ),
              )
        go false b e =
            let p : y ≡ z = cc in
            let q = no' x y b in
            subst (λ w. All (λ v. m w ≤ m v) (y ∷ place x ys)) p
              (omega arith, All-place (λ v. m y ≤ m v) x ys q (h y refl).1)

    HeadLeast-order_by : (xs : List A) → HeadLeast (order_by xs)
    HeadLeast-order_by [] z e = tt
    HeadLeast-order_by (x ∷ xs) z e = HeadLeast-place x (order_by xs) (HeadLeast-order_by xs) z e

    pub order_by-least :
        (xs : List A) (z : A) → head? (order_by xs) ≡ some z → All (λ y. m z ≤ m y) xs
    order_by-least xs z e = All-of-order_by (λ y. m z ≤ m y) xs (HeadLeast-order_by xs z e)
