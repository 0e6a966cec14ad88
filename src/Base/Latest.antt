-- ===== src/Base/Latest.antt =====
-- The latest row by key, under inserts and updates.
use Prim.Native.Nat.{ℕ, suc, ◌≤◌}
use mathlib.Core.Path.{◌≡◌, refl}
use mathlib.Core.Logic.{inl, inr}
use mathlib.Core.Bool.{Bool, true, false}
use mathlib.Core.Option.{Option, none, some}
use mathlib.Core.List.{List, [], ◌∷◌, ◌++◌}
use native.Mathlib.Omega.{arith}
use servicecheck.Base.Tests.{if◌then◌else◌, Option-cases}
use servicecheck.Base.Rows.{find, find_last, update, count}
use servicecheck.Base.Keys.{Ascends, count_below}

module _ {ℓ} {A : Type ℓ} where
  abbrev pub map_option : (A → A) → Option A → Option A
  map_option f none = none
  map_option f (some x) = some (f x)

  -- A change that keeps the key changes the latest row, where it applies.
  pub find_last-update :
      (q p : A → Bool) (f : A → A)
      → ((x : A) → q (f x) ≡ q x)
      → (xs : List A)
      → find_last q (update p f xs) ≡ map_option (λ x. if p x then f x else x) (find_last q xs)
  find_last-update q p f keep [] = refl
  find_last-update q p f keep (x ∷ xs) = ground (arith, keep x, find_last-update q p f keep xs)

  -- What is found fits.
  pub find_last_fits : (q : A → Bool) (xs : List A) (r : A) → find_last q xs ≡ some r → q r ≡ true
  find_last_fits q [] r h = absurd (cc)
  find_last_fits q (x ∷ xs) r h = ground (arith, find_last_fits q xs r)

  module _ (key : A → ℕ) where
    find_last_bound :
        (q : A → Bool) (lo hi : ℕ) (xs : List A) (r : A)
        → Ascends key lo hi xs
        → find_last q xs ≡ some r
        → lo ≤ key r
    find_last_bound q lo hi [] r a h = absurd (cc)
    find_last_bound q lo hi (x ∷ xs) r a h = elim (Option-cases (find_last q xs)) [
      | inl e ↦ ground arith
      | inr (s, e) ↦ ground (arith, find_last_bound q (suc (key x)) hi xs s a.1)
    ]

    -- Rows with ascending ids are told apart by their ids.
    pub find_last_unique :
        (q p : A → Bool) (lo hi : ℕ) (xs : List A) (r s : A)
        → Ascends key lo hi xs
        → find_last q xs ≡ some r
        → find_last p xs ≡ some s
        → key r ≡ key s
        → r ≡ s
    find_last_unique q p lo hi [] r s a h k e = absurd (cc)
    find_last_unique q p lo hi (x ∷ xs) r s a h k e = elim (Option-cases (find_last q xs)) [
      | inl eq ↦ elim (Option-cases (find_last p xs)) [
        | inl ep ↦ ground arith
        | inr (s', ep) ↦ absurd (ground (arith, find_last_bound p (suc (key x)) hi xs s' a.1))
      ]
      | inr (r', eq) ↦ elim (Option-cases (find_last p xs)) [
        | inl ep ↦ absurd (ground (arith, find_last_bound q (suc (key x)) hi xs r' a.1))
        | inr (s', ep) ↦ ground (arith, find_last_unique q p (suc (key x)) hi xs r' s' a.1)
      ]
    ]

    -- Every row, or a part of it, by which the latest is the row with id `i`.
    pub count_of_id :
        (q p : A → Bool) (lo hi : ℕ) (xs : List A) (r : A)
        → Ascends key lo hi xs
        → find_last q xs ≡ some r
        → p r ≡ true
        → ((x : A) → p x ≡ true → key x ≡ key r)
        → count p xs ≡ 1
    count_of_id q p lo hi [] r a h t only = absurd (cc)
    count_of_id q p lo hi (x ∷ xs) r a h t only = elim (Option-cases (find_last q xs)) [
      | inl e ↦
          ground
            (arith, only x, count_below key (key r) p only (suc (key x)) hi xs (ground arith) a.1)
      | inr (s, e) ↦ ground (
        arith,
        only x,
        find_last_bound q (suc (key x)) hi xs s a.1,
        count_of_id q p (suc (key x)) hi xs r a.1 (ground arith) t only,
      )
    ]

    pub count_of_id_none :
        (q p : A → Bool) (lo hi : ℕ) (xs : List A) (r : A)
        → Ascends key lo hi xs
        → find_last q xs ≡ some r
        → p r ≡ false
        → ((x : A) → p x ≡ true → key x ≡ key r)
        → count p xs ≡ 0
    count_of_id_none q p lo hi [] r a h t only = absurd (cc)
    count_of_id_none q p lo hi (x ∷ xs) r a h t only = elim (Option-cases (find_last q xs)) [
      | inl e ↦
          ground
            (arith, only x, count_below key (key r) p only (suc (key x)) hi xs (ground arith) a.1)
      | inr (s, e) ↦ ground (
        arith,
        only x,
        find_last_bound q (suc (key x)) hi xs s a.1,
        count_of_id_none q p (suc (key x)) hi xs r a.1 (ground arith) t only,
      )
    ]

module _ {ℓ} {A : Type ℓ} where
  -- A change that keeps the key changes the row that is found, where it applies.
  pub find-update :
      (q p : A → Bool) (f : A → A)
      → ((x : A) → q (f x) ≡ q x)
      → (xs : List A)
      → find q (update p f xs) ≡ map_option (λ x. if p x then f x else x) (find q xs)
  find-update q p f keep [] = refl
  find-update q p f keep (x ∷ xs) = ground (arith, keep x, find-update q p f keep xs)

  pub find-append_some :
      (q : A → Bool) (xs ys : List A) (x : A) → find q xs ≡ some x → find q (xs ++ ys) ≡ some x
  find-append_some q [] ys x h = absurd (cc)
  find-append_some q (y ∷ xs) ys x h = ground (arith, find-append_some q xs ys x)
