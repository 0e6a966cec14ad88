-- ===== src/Quality/Penalties.antt =====
-- qc/rules.py: the bounds of a score, and the violations it counts.
use servicecheck.Base.{
  ℕ, ◌+◌, ◌-◌, ◌≤◌, String, ◌≡◌, refl, sym, ap, ◌∙◌, subst, inl, inr, Bool, true, false, Option,
  none, some, List, [], ◌∷◌, arith, if◌then◌else◌, Bool-cases, taken, ok-inj, All, find, ok,
  >>=-eq-ok, ℤ, pos, pos_part, neg_part, ◌+ℤ◌,
}
use servicecheck.Quality.Models.{DateTime, QualityEvent, Violation, EventType}
use servicecheck.Quality.Rules.{
  QualityRule, or_key_error, if_active, in_force, has_type, require_aware, get, get_active,
  has_rule_id,
}
use servicecheck.Quality.Score.{
  referred, add_penalty, deduplicate_violations, penalties, calculate_score,
}

some-inj {ℓ} : {A : Type ℓ} {a b : A} → some a ≡ some b → a ≡ b
some-inj h = cc

-- A penalty that takes points and gives none.
abbrev pub IsDeduction : QualityRule → Type 0
IsDeduction rule = neg_part rule.penalty ≡ 0

All-find {ℓ κ} :
    {A : Type ℓ} (P : A → Type κ) (p : A → Bool) (xs : List A) (x : A)
    → All P xs
    → find p xs ≡ some x
    → P x
All-find P p [] x a h = absurd (cc)
All-find P p (y ∷ ys) x a h = elim (Bool-cases (p y)) [
  | inl e ↦ subst P (some-inj (sym (rw e refl) ∙ h)) a.0
  | inr e ↦ All-find P p ys x a.1 (sym (rw e refl) ∙ h)
]

or_key_error-eq-ok {ℓ} : {A : Type ℓ} (o : Option A) (a : A) → or_key_error o ≡ ok a → o ≡ some a
or_key_error-eq-ok (some b) a h = cc
or_key_error-eq-ok none a h = absurd (cc)

get-IsDeduction :
    (rules : List QualityRule) (i : String) (rule : QualityRule)
    → All IsDeduction rules
    → get rules i ≡ ok rule
    → IsDeduction rule
unfolding get
get-IsDeduction rules i rule a h =
    All-find IsDeduction (has_rule_id i) rules rule a (or_key_error-eq-ok _ rule h)

kept :
    (rule r : QualityRule) (b : Bool) → ok (if b then some rule else none) ≡ ok (some r) → rule ≡ r
kept rule r true h = cc
kept rule r false h = absurd (cc)

if_active_only :
    (type : EventType) (at : DateTime) (rule r : QualityRule)
    → if_active type at rule ≡ ok (some r)
    → rule ≡ r
if_active_only type at rule r h = elim (Bool-cases (has_type type rule)) [
  | inl e ↦
      let a = >>=-eq-ok (in_force at rule.effective_from rule.effective_to) _ (taken _ _ _ e h) in
      kept rule r a.0 a.2
  | inr e ↦ absurd (cc)
]

get_active-IsDeduction :
    (rules : List QualityRule) (i : String) (type : EventType) (at : DateTime) (rule : QualityRule)
    → All IsDeduction rules
    → get_active rules i type at ≡ ok (some rule)
    → IsDeduction rule
unfolding get_active
get_active-IsDeduction rules i type at rule a h =
    let b = >>=-eq-ok (get rules i) _ h in
    let c = >>=-eq-ok (require_aware at) _ b.2 in
    subst IsDeduction (if_active_only type c.0 b.0 rule c.2) (get-IsDeduction rules i b.0 a b.1)

+ℤ-neg_part : (a b : ℤ) → neg_part a ≡ 0 → neg_part b ≡ 0 → neg_part (a +ℤ b) ≡ 0
+ℤ-neg_part a b h k = ground arith

penalties-neg_part :
    (rules : List QualityRule) (at : DateTime) (events : List QualityEvent) (vs : List Violation)
    (total : ℤ)
    → All IsDeduction rules
    → penalties rules at events vs ≡ ok total
    → neg_part total ≡ 0
unfolding penalties
penalties-neg_part rules at events [] total a h = rw (sym (ok-inj h)) refl
penalties-neg_part rules at events (v ∷ vs) total a h =
    let b = >>=-eq-ok (get rules v.rule_id) _ h in
    let c = >>=-eq-ok (referred v events) _ b.2 in
    let d = >>=-eq-ok (get_active rules v.rule_id c.0.type at) _ c.2 in
    let e = >>=-eq-ok (penalties rules at events vs) _ d.2 in
    subst (λ t. neg_part t ≡ 0) (ok-inj e.2)
      (added d.0 e.0 (λ r f. get_active-IsDeduction rules v.rule_id c.0.type at r a (d.1 ∙ ap ok f))
        (penalties-neg_part rules at events vs e.0 a e.1))
  where
    added :
        (o : Option QualityRule) (t : ℤ)
        → ((r : QualityRule) → o ≡ some r → IsDeduction r)
        → neg_part t ≡ 0
        → neg_part (add_penalty o t) ≡ 0
    added none t f k = k
    added (some r) t f k = +ℤ-neg_part r.penalty t (f r refl) k

-- Where no rule has a negative penalty, a score that is computed lies between 0 and 100.
pub calculate_score_range :
    (violations : List Violation) (rules : List QualityRule) (at : DateTime)
    (events : List QualityEvent) (score : ℤ)
    → All IsDeduction rules
    → calculate_score violations rules at events ≡ ok score
    → (n : ℕ) × (score ≡ pos n) × (n ≤ 100)
unfolding calculate_score
calculate_score_range violations rules at events score a h =
    let b = >>=-eq-ok (penalties rules at events (deduplicate_violations violations events)) _ h in
    let z = penalties-neg_part rules at events _ b.0 a b.1 in
    (100 + neg_part b.0 - pos_part b.0, sym (ok-inj b.2), omega (arith, z))
