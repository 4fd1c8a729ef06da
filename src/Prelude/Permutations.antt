-- ===== src/Prelude/Permutations.antt =====
-- Permutations of appended lists.
use mathlib.Core.Path.{◌≡◌, sym, subst}
use mathlib.Core.List.{List, [], ◌∷◌, ◌++◌, Perm, append_assoc, append-nil}
use mathlib.Core.List.Perm

module _ {ℓ} {A : Type ℓ} where
  pub perm_of_eq : (xs ys : List A) → xs ≡ ys → Perm xs ys
  perm_of_eq xs ys e = subst (λ z. Perm xs z) e (Perm.refl xs)

  pub perm_middle : (a : A) (xs ys : List A) → Perm (xs ++ a ∷ ys) (a ∷ (xs ++ ys))
  perm_middle a [] ys = Perm.refl (a ∷ ys)
  perm_middle a (x ∷ xs) ys =
      Perm.trans (Perm.cons x (perm_middle a xs ys)) (Perm.swap a x (xs ++ ys))

  pub perm_comm : (xs ys : List A) → Perm (xs ++ ys) (ys ++ xs)
  perm_comm [] ys = perm_of_eq ys (ys ++ []) (sym (append-nil ys))
  perm_comm (x ∷ xs) ys =
      Perm.trans (Perm.cons x (perm_comm xs ys)) (Perm.symm (perm_middle x ys xs))

  -- An element at the end of the left part moves to the end of all.
  pub perm_last : (a : A) (xs ys zs : List A) → Perm (xs ++ a ∷ [] ++ ys ++ zs) (xs ++ ys ++ a ∷ zs)
  perm_last a xs ys zs =
      Perm.trans (Perm.append_right zs (perm_of_eq _ _ (append_assoc xs (a ∷ []) ys))) (
        Perm.trans (Perm.append_right zs (perm_middle a xs ys))
          (Perm.symm (perm_middle a (xs ++ ys) zs)))
