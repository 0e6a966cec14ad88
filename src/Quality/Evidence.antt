-- ===== src/Quality/Evidence.antt =====
-- qc/rag_support.py and qc/quality_gate.py: what a violation with support cites.
use mathlib.Core.List.{Memᴰ}
use mathlib.Core.List.Memᴰ
use servicecheck.Base.{
  ℕ, String, ◌≡◌, refl, sym, ap, ◌∙◌, subst, ◌⊎◌, inl, inr, Bool, true, false, not, ◌&&◌, ◌||◌,
  List, [], ◌∷◌, ◌++◌, arith, ltb, leb, if◌then◌else◌, same, Bool-cases, select, Result, ok,
  >>=-eq-ok,
}
use servicecheck.Quality.Models.{
  DateTime, QualityEvent, KnowledgeHit, Violation, QualityReport, is_in,
}
use servicecheck.Quality.Rules.{QualityRule}
use servicecheck.Quality.Support.{
  document_is_active, document_relates_to_rule, is_type_of, is_requested, supports, supporting_from,
  supporting_hits, score_one,
}
use servicecheck.Quality.Gate.{matching_hits, candidate_hits, is_empty}

-- A hit of the report that bears a violation: cited, strong, of the event's type, in force, and of
-- the rule.
pub record IsBacking (report : QualityReport) (at : DateTime) (minimum : ℕ) (v : Violation)
    (event : QualityEvent) (rule : QualityRule) (h : KnowledgeHit) : Type 0 where
  pub retrieved : Memᴰ h report.knowledge_hits
  pub cited : is_in h.document_id v.knowledge_document_ids ≡ true
  pub strong : ltb h.score minimum ≡ false
  pub of_type : is_type_of event h ≡ true
  pub active : document_is_active h at ≡ ok true
  pub related : document_relates_to_rule h rule ≡ true

Memᴰ-select {ℓ} :
    {A : Type ℓ} (p : A → Bool) (xs : List A) (h : A)
    → Memᴰ h (select p xs)
    → Memᴰ h xs × (p h ≡ true)
Memᴰ-select p [] h m = absurd (Memᴰ.not-nil m)
Memᴰ-select p (x ∷ xs) h m = elim (Bool-cases (p x)) [
  | inl e ↦ elim (Memᴰ.cases_cons (subst (Memᴰ h) (rw e refl) m)) [
    | inl f ↦ (Memᴰ.head f, ap p f ∙ e)
    | inr k ↦ (Memᴰ.tail (Memᴰ-select p xs h k).0, (Memᴰ-select p xs h k).1)
  ]
  | inr e ↦ let k = Memᴰ-select p xs h (subst (Memᴰ h) (rw e refl) m) in (Memᴰ.tail k.0, k.1)
]

Memᴰ-append {ℓ} : {A : Type ℓ} (xs ys : List A) (h : A) → Memᴰ h (xs ++ ys) → Memᴰ h xs ⊎ Memᴰ h ys
Memᴰ-append [] ys h m = inr m
Memᴰ-append (x ∷ xs) ys h m = elim (Memᴰ.cases_cons m) [
  | inl f ↦ inl (Memᴰ.head f)
  | inr k ↦ elim (Memᴰ-append xs ys h k) [ inl l ↦ inl (Memᴰ.tail l) | inr l ↦ inr l ]
]

candidate-retrieved :
    (report : QualityReport) (ds : List String) (h : KnowledgeHit)
    → Memᴰ h (candidate_hits report ds)
    → Memᴰ h report.knowledge_hits × (is_in h.document_id ds ≡ true)
candidate-retrieved report [] h m = absurd (Memᴰ.not-nil m)
candidate-retrieved report (d ∷ ds) h m = elim (Memᴰ-append (matching_hits report d) _ h m) [
  | inl k ↦
      let a = Memᴰ-select (λ x. same x.document_id d) report.knowledge_hits h k in
      (a.0, ground (arith, a.1))
  | inr k ↦ let a = candidate-retrieved report ds h k in (a.0, ground (arith, a.1))
]

-- The head of what supports did support.
supporting-first :
    (v : Violation) (event : QualityEvent) (rule : QualityRule) (at : DateTime) (minimum : ℕ)
    (xs hits : List KnowledgeHit)
    → supporting_from v event rule at minimum xs ≡ ok hits
    → is_empty hits ≡ false
    → (h : KnowledgeHit) × Memᴰ h xs × (supports v event rule at minimum h ≡ ok true)
unfolding supporting_from
supporting-first v event rule at minimum [] hits e n = absurd (cc)
supporting-first v event rule at minimum (x ∷ xs) hits e n =
    let a = >>=-eq-ok (supports v event rule at minimum x) _ e in
    let b = >>=-eq-ok (supporting_from v event rule at minimum xs) _ a.2 in
    elim (Bool-cases a.0) [
      | inl t ↦ (x, Memᴰ.head refl, a.1 ∙ ap ok t)
      | inr f ↦
          let c = supporting-first v event rule at minimum xs b.0 b.1 (ground (arith, f, b.2, n)) in
          (c.0, Memᴰ.tail c.1, c.2)
    ]

past_guard :
    (b : Bool) (r : Result Bool)
    → (if b then ok false else r) ≡ ok true
    → (b ≡ false) × (r ≡ ok true)
past_guard true r h = absurd (cc)
past_guard false r h = (refl, h)

both_true : (a b : Bool) → ok (a && b) ≡ ok true → (a ≡ true) × (b ≡ true)
both_true true b h = (refl, cc)
both_true false b h = absurd (cc)

none_of : (a b c : Bool) → (not a || b || not c) ≡ false → (b ≡ false) × (c ≡ true)
none_of a b c h = (ground arith, ground arith)

supports-holds :
    (v : Violation) (event : QualityEvent) (rule : QualityRule) (at : DateTime) (minimum : ℕ)
    (h : KnowledgeHit)
    → supports v event rule at minimum h ≡ ok true
    → (ltb h.score minimum ≡ false)
      × (is_type_of event h ≡ true)
      × (document_is_active h at ≡ ok true)
      × (document_relates_to_rule h rule ≡ true)
unfolding supports
supports-holds v event rule at minimum h e =
    let g = past_guard _ _ e in
    let n =
      none_of (is_requested v.knowledge_document_ids h) (ltb h.score minimum) (is_type_of event h)
        g.0 in
    let a = >>=-eq-ok (document_is_active h at) _ g.1 in
    let b = both_true a.0 (document_relates_to_rule h rule) a.2 in (n.0, n.1, a.1 ∙ ap ok b.0, b.1)

pub supporting-IsBacking :
    (report : QualityReport) (v : Violation) (event : QualityEvent) (rule : QualityRule)
    (at : DateTime) (minimum : ℕ) (hits : List KnowledgeHit)
    → supporting_hits v event rule at minimum (candidate_hits report v.knowledge_document_ids)
      ≡ ok hits
    → is_empty hits ≡ false
    → (h : KnowledgeHit) × IsBacking report at minimum v event rule h
unfolding supporting_hits
supporting-IsBacking report v event rule at minimum hits e n =
    elim (Bool-cases (leb minimum score_one)) [
      | inr f ↦ absurd (ground arith)
      | inl t ↦
          let a = supporting-first v event rule at minimum _ hits (sym (rw t refl) ∙ e) n in
          let b = supports-holds v event rule at minimum a.0 a.2 in
          let c = candidate-retrieved report v.knowledge_document_ids a.0 a.1 in
          (
            a.0,
            record {
              retrieved = c.0;
              cited = c.1;
              strong = b.0;
              of_type = b.1;
              active = b.2;
              related = b.3;
            },
          )
    ]
