-- ===== src/Tx.antt =====
-- `CoordinatorRepository._transaction` of src/aether_rl/coordinator/database.py: code that reads and
-- writes a state and may raise. Inside a transaction a raised error drops the state that was
-- written; `transaction` restores the state that the transaction began with.
pub mod Rules
pub mod Total
use aether_rl.Prelude.{Bool, true, false, Option, none, some, List, [], ◌∷◌, if◌then◌else◌}

-- The exceptions of the coordinator; `integrity` is SQLite's `IntegrityError`, `value` a
-- `ValueError`, `type_error` a `TypeError`, `overflow` an `OverflowError`.
pub data Error : Type 0 where
  conflict invalid_state incompatible_worker capacity artifact_corruption not_found : Error
  value integrity type_error overflow : Error

pub data Result {ℓ} (A : Type ℓ) : Type ℓ where
  ok : A → Result A
  err : Error → Result A

abbrev pub Tx {ℓ} : Type ℓ → Type ℓ → Type ℓ
Tx S A = S → Result (A × S)

module _ {ℓ} {S : Type ℓ} where
  abbrev pub pure : {A : Type ℓ} → A → Tx S A
  pure a s = ok (a, s)

  abbrev pub raise : {A : Type ℓ} → Error → Tx S A
  raise e s = err e

module _ {S : Type 0} where
  infixl 5 ◌>>=◌ ◌>>◌
  abbrev pub continue : {A B : Type 0} → (A → Tx S B) → Result (A × S) → Result (B × S)
  continue f (ok (a, s)) = f a s
  continue f (err e) = err e

  unfoldable pub ◌>>=◌ : {A B : Type 0} → Tx S A → (A → Tx S B) → Tx S B
  ◌>>=◌ m f s = continue f (m s)

  unfoldable pub ◌>>◌ : {A B : Type 0} → Tx S A → Tx S B → Tx S B
  unfolding ◌>>=◌
  m >> n = m >>= λ _. n

  -- A query.
  unfoldable pub gets : {A : Type 0} → (S → A) → Tx S A
  gets g s = ok (g s, s)

  -- A query whose missing row raises.
  abbrev pub or_raise : {A : Type 0} → Error → S → Option A → Result (A × S)
  or_raise e s none = err e
  or_raise e s (some a) = ok (a, s)

  unfoldable pub require : {A : Type 0} → Error → (S → Option A) → Tx S A
  require e g s = or_raise e s (g s)

  unfoldable pub guard : Bool → Error → Tx S Unit
  guard true e s = ok (tt, s)
  guard false e s = err e

  -- A statement that writes.
  unfoldable pub modify : (S → S) → Tx S Unit
  modify f s = ok (tt, f s)

  abbrev pub when : Bool → Tx S Unit → Tx S Unit
  when b m = if b then m else pure tt

  -- `for row in rows: body(row)`
  unfoldable pub for_each : {A : Type 0} → List A → (A → Tx S Unit) → Tx S Unit
  unfolding ◌>>◌
  for_each [] body s = ok (tt, s)
  for_each (x ∷ xs) body s = (body x >> for_each xs body) s

  unfoldable pub transaction : {A : Type 0} → Tx S A → S → Result A × S
  transaction m s = elim (m s) [ ok (a, s') ↦ (ok a, s') | err e ↦ (err e, s) ]
