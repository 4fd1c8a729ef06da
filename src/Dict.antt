-- ===== src/Dict.antt =====
-- A Python `dict`, as a list of its items in the order of insertion, and what its operations do to a
-- lookup.
use aether_rl.Prelude.{
  ◌≡◌, ◌∙◌, refl, sym, ap, subst, Bool, true, false, Bool-cases, inl, inr, Option, none, some, List,
  [], ◌∷◌, arith, ◌==◌, ==-refl, ==→eq, any, keep, All, map, not, if◌then◌else◌,
}

-- `dict.get(k, default)`
abbrev pub or_default : {A : Type 0} → A → Option A → A
or_default a none = a
or_default a (some b) = b

module _ {K : Type 0} (eq : K → K → Bool) where
  abbrev pub get? : {A : Type 0} → K → List (K × A) → Option A
  get? k [] = none
  get? k ((j, a) ∷ d) = let later = get? k d in if eq j k then some a else later

  -- `d[k] = f(d.get(k, default))`
  abbrev pub alter : {A : Type 0} → K → A → (A → A) → List (K × A) → List (K × A)
  alter k a f [] = (k, f a) ∷ []
  alter k a f ((j, b) ∷ d) =
      let later = alter k a f d in if eq j k then (j, f b) ∷ d else (j, b) ∷ later

  -- `d[k] = value`
  abbrev pub set : {A : Type 0} → K → A → List (K × A) → List (K × A)
  set k a d = alter k a (λ _. a) d

  -- `d.pop(k, None)`
  abbrev pub pop : {A : Type 0} → K → List (K × A) → List (K × A)
  pop k d = keep (λ e. not (eq e.0 k)) d

abbrev pub keys : {K A : Type 0} → List (K × A) → List K
keys d = map (λ e. e.0) d

-- `eq` is the equality of the keys.
pub record IsEquality {K : Type 0} (eq : K → K → Bool) : Type 0 where
  pub eq_refl : (a : K) → eq a a ≡ true
  pub eq_path : (a b : K) → eq a b ≡ true → a ≡ b

pub ==-IsEquality : IsEquality ◌==◌
==-IsEquality = record { eq_refl = ==-refl; eq_path = ==→eq }

module _ {K : Type 0} (eq : K → K → Bool) (law : IsEquality eq) where
  eq_sym : (a b : K) → eq a b ≡ eq b a
  eq_sym a b = elim (Bool-cases (eq a b)) [
    | inl y ↦ rw (law.eq_path a b y) refl
    | inr n ↦ elim (Bool-cases (eq b a)) [ inl y ↦ rw (law.eq_path b a y) refl | inr m ↦ n ∙ sym m ]
  ]

  eq_apart : (i j k : K) → eq i k ≡ false → eq i j ≡ true → eq k j ≡ false
  eq_apart i j k n y = subst (λ z. eq k z ≡ false) (law.eq_path i j y) (eq_sym k i ∙ n)

  module _ {A : Type 0} where
    pub get?-alter :
        (j k : K) (a : A) (f : A → A) (d : List (K × A))
        → get? eq j (alter eq k a f d)
          ≡ (if eq k j then some (f (or_default a (get? eq k d))) else get? eq j d)
    get?-alter j k a f [] = refl
    get?-alter j k a f ((i, b) ∷ d) = elim (Bool-cases (eq i k)) [
      | inl y ↦ rw y (rw (law.eq_path i k y) (ground arith))
      | inr n ↦ rw n (elim (Bool-cases (eq i j)) [
        | inl y ↦ rw (y, eq_apart i j k n y) refl
        | inr m ↦ rw m (get?-alter j k a f d)
      ])
    ]

    pub get?-pop :
        (j k : K) (d : List (K × A))
        → get? eq j (pop eq k d) ≡ (if eq k j then none else get? eq j d)
    get?-pop j k [] = ground arith
    get?-pop j k ((i, b) ∷ d) = elim (Bool-cases (eq i k)) [
      | inl y ↦ rw y (get?-pop j k d ∙ rw (law.eq_path i k y) (ground arith))
      | inr n ↦ rw n (elim (Bool-cases (eq i j)) [
        | inl y ↦ rw (y, eq_apart i j k n y) refl
        | inr m ↦ rw m (get?-pop j k d)
      ])
    ]

    pub get?-keys :
        (j : K) (d : List (K × A)) → any (λ i. eq i j) (keys d) ≡ false → get? eq j d ≡ none
    get?-keys j [] h = refl
    get?-keys j ((i, b) ∷ d) h = ground (arith, get?-keys j d)

  pub All-any :
      (P : K → Type 0) (j : K) (ks : List K) → All P ks → any (λ i. eq i j) ks ≡ true → P j
  All-any P j [] h e = absurd (ground (arith, e))
  All-any P j (k ∷ ks) h e = elim (Bool-cases (eq k j)) [
    | inl y ↦ subst P (law.eq_path k j y) h.0
    | inr n ↦ All-any P j ks h.1 (ground (arith, n, e))
  ]

  pub any-keep :
      (p : K → Bool) (j : K) (ks : List K)
      → p j ≡ true
      → any (λ i. eq i j) ks ≡ true
      → any (λ i. eq i j) (keep p ks) ≡ true
  any-keep p j [] h e = e
  any-keep p j (k ∷ ks) h e = elim (Bool-cases (eq k j)) [
    | inl y ↦ rw (ap p (law.eq_path k j y) ∙ h, y) refl
    | inr n ↦ elim (Bool-cases (p k)) [
      | inl y ↦ rw (y, n) (any-keep p j ks h (ground (arith, n, e)))
      | inr m ↦ rw m (any-keep p j ks h (ground (arith, n, e)))
    ]
  ]
