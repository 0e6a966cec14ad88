-- ===== src/Base/Rows.antt =====
-- Tables as lists of rows, in the order of insertion, and the SQL statements the stores use:
-- `SELECT ... WHERE`, `UPDATE ... WHERE` with its row count, and the latest row by key.
use Prim.Native.Nat.{ℕ, suc, ◌+◌}
use mathlib.Core.Path.{◌≡◌, refl}
use mathlib.Core.Logic.{inl, inr}
use mathlib.Core.Bool.{Bool, true, false}
use mathlib.Core.Option.{Option, none, some}
use mathlib.Core.List.{List, [], ◌∷◌, ◌++◌}
use native.Mathlib.Omega.{arith}
use servicecheck.Base.Tests.{if◌then◌else◌, Bool-cases}
use servicecheck.Base.Lists.{All, length}

module _ {ℓ} {A : Type ℓ} where
  -- SELECT * WHERE p
  abbrev pub select : (A → Bool) → List A → List A
  select p [] = []
  select p (x ∷ xs) = if p x then x ∷ select p xs else select p xs

  -- The first row that fits: `fetchone` of a unique key.
  abbrev pub find : (A → Bool) → List A → Option A
  find p [] = none
  find p (x ∷ xs) = if p x then some x else find p xs

  -- Keeps the later of two finds.
  abbrev pub or_else : Option A → Option A → Option A
  or_else (some x) y = some x
  or_else none y = y

  -- The last row that fits: `ORDER BY id DESC LIMIT 1`.
  abbrev pub find_last : (A → Bool) → List A → Option A
  find_last p [] = none
  find_last p (x ∷ xs) = or_else (find_last p xs) (if p x then some x else none)

  -- UPDATE ... SET f WHERE p
  abbrev pub update : (A → Bool) → (A → A) → List A → List A
  update p f [] = []
  update p f (x ∷ xs) = (if p x then f x else x) ∷ update p f xs

  -- `cursor.rowcount`, and SELECT COUNT(*).
  abbrev pub count : (A → Bool) → List A → ℕ
  count p [] = 0
  count p (x ∷ xs) = let rest = count p xs in if p x then suc rest else rest

  pub count-eq-length-select : (p : A → Bool) (xs : List A) → count p xs ≡ length (select p xs)
  count-eq-length-select p [] = refl
  count-eq-length-select p (x ∷ xs) = ground (arith, count-eq-length-select p xs)

  pub count-append : (p : A → Bool) (xs ys : List A) → count p (xs ++ ys) ≡ count p xs + count p ys
  count-append p [] ys = omega arith
  count-append p (x ∷ xs) ys = ground (arith, count-append p xs ys)

  pub update_id : (p : A → Bool) (f : A → A) (xs : List A) → count p xs ≡ 0 → update p f xs ≡ xs
  update_id p f [] h = refl
  update_id p f (x ∷ xs) h = ground (arith, update_id p f xs)

  -- A predicate that the change keeps where it applies holds of every row after an update.
  pub All-update {κ} :
      (P : A → Type κ) (p : A → Bool) (f : A → A)
      → ((x : A) → p x ≡ true → P x → P (f x))
      → (xs : List A) → All P xs
      → All P (update p f xs)
  All-update P p f keep [] h = tt
  All-update P p f keep (x ∷ xs) h = elim (Bool-cases (p x)) [
    | inl e ↦ rw e (keep x e h.0, All-update P p f keep xs h.1)
    | inr e ↦ rw e (h.0, All-update P p f keep xs h.1)
  ]

  pub find-append_none :
      (p : A → Bool) (xs ys : List A) → find p xs ≡ none → find p (xs ++ ys) ≡ find p ys
  find-append_none p [] ys h = refl
  find-append_none p (x ∷ xs) ys h = ground (arith, find-append_none p xs ys)

  pub find_last-append_one :
      (p : A → Bool) (xs : List A) (y : A) → p y ≡ true → find_last p (xs ++ y ∷ []) ≡ some y
  find_last-append_one p [] y h = ground arith
  find_last-append_one p (x ∷ xs) y h = ground (arith, find_last-append_one p xs y h)

  pub find_last-append_skip :
      (p : A → Bool) (xs : List A) (y : A)
      → p y ≡ false
      → find_last p (xs ++ y ∷ []) ≡ find_last p xs
  find_last-append_skip p [] y h = ground arith
  find_last-append_skip p (x ∷ xs) y h = ground (arith, find_last-append_skip p xs y h)

  pub find_fits : (p : A → Bool) (xs : List A) (y : A) → find p xs ≡ some y → p y ≡ true
  find_fits p [] y h = absurd (cc)
  find_fits p (x ∷ xs) y h = ground (arith, find_fits p xs y)
