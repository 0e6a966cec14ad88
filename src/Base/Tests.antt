-- ===== src/Base/Tests.antt =====
-- Boolean tests on native numbers and texts, the conditional, and case splits.
use Prim.Native.Nat.{ℕ, compare, Ordering}
use Prim.Native.String.{String}
use mathlib.Core.Path.{◌≡◌, refl, sym, ◌∙◌}
use mathlib.Core.Logic.{◌⊎◌, inl, inr}
use mathlib.Core.Bool.{Bool, true, false}
use mathlib.Core.Option.{Option, none, some}
use text.Mathlib.Text.{◌==◌ as text_eq}
use text.Mathlib.TextEquality.{eq_iff}
use text.Mathlib.TextPositions.{eq_refl}

abbrev pub ltb : ℕ → ℕ → Bool
ltb a b = elim (compare a b) [ Ordering.lt ↦ true | _ ↦ false ]

abbrev pub leb : ℕ → ℕ → Bool
leb a b = elim (compare a b) [ Ordering.gt ↦ false | _ ↦ true ]

infix 50 ◌==◌
abbrev pub ◌==◌ : ℕ → ℕ → Bool
a == b = elim (compare a b) [ Ordering.eq ↦ true | _ ↦ false ]

infix 1 if◌then◌else◌
abbrev pub if◌then◌else◌ {ℓ} : {A : Type ℓ} → Bool → A → A → A
if true then x else y = x
if false then x else y = y

-- Equality of texts. It stays shut: proofs use `same→eq` and `same_of_eq`, runs unfold it.
unfoldable pub same : String → String → Bool
same s t = text_eq s t

pub same→eq : (s t : String) → same s t ≡ true → s ≡ t
unfolding same
same→eq s t = (eq_iff s t).0

pub same_refl : (s : String) → same s s ≡ true
unfolding same
same_refl s = eq_refl s

pub same_of_eq : (s t : String) → s ≡ t → same s t ≡ true
unfolding same
same_of_eq s t = (eq_iff s t).1

pub Bool-cases : (b : Bool) → (b ≡ true) ⊎ (b ≡ false)
Bool-cases true = inl refl
Bool-cases false = inr refl

pub Option-cases {ℓ} : {A : Type ℓ} (o : Option A) → (o ≡ none) ⊎ ((a : A) × (o ≡ some a))
Option-cases none = inl refl
Option-cases (some a) = inr (a, refl)

-- `x is not None`
abbrev pub is_some {ℓ} : {A : Type ℓ} → Option A → Bool
is_some none = false
is_some (some _) = true

pub same_comm : (s t : String) → same s t ≡ same t s
same_comm s t = elim (Bool-cases (same s t)) [
  | inl e ↦ e ∙ sym (same_of_eq t s (sym (same→eq s t e)))
  | inr e ↦ elim (Bool-cases (same t s)) [
    | inl k ↦ same_of_eq s t (sym (same→eq t s k)) ∙ sym k
    | inr k ↦ e ∙ sym k
  ]
]

pub taken {ℓ} :
    {A : Type ℓ} {z : A} (b : Bool) (x y : A) → b ≡ true → (if b then x else y) ≡ z → x ≡ z
taken true x y e h = h
taken false x y e h = absurd (cc)

-- The text of a test of truth, which an empty text does not pass.
abbrev pub truthy : Option String → Option String
truthy none = none
truthy (some k) = if same k "" then none else some k
