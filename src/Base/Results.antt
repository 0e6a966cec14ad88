-- ===== src/Base/Results.antt =====
-- Results of fallible operations: the exceptions of the source as values, and the transactions
-- of a store, which on an exception leave the store as it was.
use mathlib.Core.Path.{◌≡◌, refl}
use mathlib.Core.Logic.{◌⊎◌, inl, inr}

-- `KeyError`, `ValueError`, `StateConflictError`, `IntegrityError`, `TypeError`,
-- `BatchCapacityError`, `IdempotencyConflictError`
pub data Failure : Type 0 where
  key_error value_error state_conflict integrity_error type_error : Failure
  capacity_error idempotency_conflict : Failure

pub data Result {ℓ} (R : Type ℓ) : Type ℓ where
  err : Failure → Result R
  ok : R → Result R

module _ {ℓ} {R : Type ℓ} where
  pub Result-cases : (r : Result R) → ((x : R) × (r ≡ ok x)) ⊎ ((e : Failure) × (r ≡ err e))
  Result-cases (ok x) = inl (x, refl)
  Result-cases (err e) = inr (e, refl)

  pub ok-inj : {x y : R} → ok x ≡ ok y → x ≡ y
  ok-inj h = cc

-- The statements after one that may raise.
infixl 5 ◌>>=◌
abbrev pub ◌>>=◌ {ℓ κ} : {R : Type ℓ} {S : Type κ} → Result R → (R → Result S) → Result S
err e >>= next = err e
ok x >>= next = next x

module _ {ℓ κ} {R : Type ℓ} {S : Type κ} where
  -- The store after a call: a call that raises is rolled back.
  abbrev pub after : Result (R × S) → S → S
  after (ok (x, s')) s = s'
  after (err e) s = s

  -- What returned ran both its parts.
  pub >>=-eq-ok :
      (r : Result R) (next : R → Result S) {s : S}
      → (r >>= next) ≡ ok s
      → (x : R) × (r ≡ ok x) × (next x ≡ ok s)
  >>=-eq-ok (err e) next h = absurd (cc)
  >>=-eq-ok (ok x) next h = (x, refl, h)
