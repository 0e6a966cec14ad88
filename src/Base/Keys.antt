-- ===== src/Base/Keys.antt =====
-- Keys of tables: ids that ascend with the order of insertion, and unique columns.
use Prim.Native.Nat.{ℕ, suc, ◌+◌, ◌≤◌, ◌<◌}
use mathlib.Core.Path.{◌≡◌, refl, ◌∙◌}
use mathlib.Core.Logic.{inl, inr}
use mathlib.Core.Bool.{Bool, true, false}
use mathlib.Core.List.{List, [], ◌∷◌, ◌++◌}
use native.Mathlib.Omega.{arith}
use servicecheck.Base.Tests.{Bool-cases}
use servicecheck.Base.Lists.{any}
use servicecheck.Base.Rows.{update, count}

module _ {ℓ} {A : Type ℓ} (key : A → ℕ) where
  -- The keys rise from `lo` on and stay below `hi`.
  abbrev pub Ascends : ℕ → ℕ → List A → Type 0
  Ascends lo hi [] = lo ≤ hi
  Ascends lo hi (x ∷ xs) = (lo ≤ key x) × Ascends (suc (key x)) hi xs

  pub Ascends-append :
      (lo hi : ℕ) (xs : List A) (y : A)
      → key y ≡ hi
      → Ascends lo hi xs
      → Ascends lo (hi + 1) (xs ++ y ∷ [])
  Ascends-append lo hi [] y e h = omega arith
  Ascends-append lo hi (x ∷ xs) y e h = (h.0, Ascends-append (suc (key x)) hi xs y e h.1)

  -- A change of rows that keeps their keys.
  pub Ascends-update :
      (p : A → Bool) (f : A → A)
      → ((x : A) → key (f x) ≡ key x)
      → (lo hi : ℕ) (xs : List A) → Ascends lo hi xs
      → Ascends lo hi (update p f xs)
  Ascends-update p f keep lo hi [] h = h
  Ascends-update p f keep lo hi (x ∷ xs) h = elim (Bool-cases (p x)) [
    | inl e ↦ rw (e, keep x) (h.0, Ascends-update p f keep (suc (key x)) hi xs h.1)
    | inr e ↦ rw e (h.0, Ascends-update p f keep (suc (key x)) hi xs h.1)
  ]

  -- No row above a key has it.
  pub count_below :
      (n : ℕ) (p : A → Bool)
      → ((x : A) → p x ≡ true → key x ≡ n)
      → (lo hi : ℕ) (xs : List A) → n < lo
      → Ascends lo hi xs
      → count p xs ≡ 0
  count_below n p only lo hi [] l h = refl
  count_below n p only lo hi (x ∷ xs) l h =
      ground (arith, only x, count_below n p only (suc (key x)) hi xs (omega arith) h.1)

  -- At most one row has a key.
  pub count_one :
      (n : ℕ) (p : A → Bool)
      → ((x : A) → p x ≡ true → key x ≡ n)
      → (lo hi : ℕ) (xs : List A) → Ascends lo hi xs
      → count p xs ≤ 1
  count_one n p only lo hi [] h = omega arith
  count_one n p only lo hi (x ∷ xs) h = elim (Bool-cases (p x)) [
    | inl e ↦
        rw (e, count_below n p only (suc (key x)) hi xs (omega (arith, only x e)) h.1) (omega arith)
    | inr e ↦ rw e (count_one n p only (suc (key x)) hi xs h.1)
  ]

module _ {ℓ} {A : Type ℓ} (clash : A → A → Bool) where
  -- No two rows clash.
  abbrev pub Unique : List A → Type 0
  Unique [] = Unit
  Unique (x ∷ xs) = (any (clash x) xs ≡ false) × Unique xs

  any-append_one :
      (x : A) (xs : List A) (y : A)
      → any (clash x) xs ≡ false
      → clash x y ≡ false
      → any (clash x) (xs ++ y ∷ []) ≡ false
  any-append_one x [] y h e = ground arith
  any-append_one x (z ∷ xs) y h e = ground (arith, any-append_one x xs y)

  pub Unique-append :
      ((x y : A) → clash x y ≡ clash y x)
      → (xs : List A) (y : A) → any (clash y) xs ≡ false
      → Unique xs
      → Unique (xs ++ y ∷ [])
  Unique-append flip [] y e u = (refl, tt)
  Unique-append flip (x ∷ xs) y e u = (
    any-append_one x xs y u.0 (ground (arith, flip x y)),
    Unique-append flip xs y (ground arith) u.1,
  )

  any-update :
      (p : A → Bool) (f : A → A)
      → ((x y : A) → clash x (f y) ≡ clash x y)
      → (x : A) (xs : List A) → any (clash x) (update p f xs) ≡ any (clash x) xs
  any-update p f keep x [] = refl
  any-update p f keep x (y ∷ xs) = ground (arith, keep x y, any-update p f keep x xs)

  any-same :
      (f : A → A)
      → ((x y : A) → clash (f x) y ≡ clash x y)
      → (x : A) (xs : List A) → any (clash (f x)) xs ≡ any (clash x) xs
  any-same f keep x [] = refl
  any-same f keep x (y ∷ xs) = rw (keep x y, any-same f keep x xs) refl

  -- A change of rows that keeps the unique columns.
  pub Unique-update :
      (p : A → Bool) (f : A → A)
      → ((x y : A) → clash (f x) y ≡ clash x y)
      → ((x y : A) → clash x (f y) ≡ clash x y)
      → (xs : List A) → Unique xs
      → Unique (update p f xs)
  Unique-update p f left right [] u = tt
  Unique-update p f left right (x ∷ xs) u = elim (Bool-cases (p x)) [
    | inl e ↦ rw e (
      any-update p f right (f x) xs ∙ any-same f left x xs ∙ u.0,
      Unique-update p f left right xs u.1,
    )
    | inr e ↦ rw e (any-update p f right x xs ∙ u.0, Unique-update p f left right xs u.1)
  ]
