-- ===== src/Quality/Passing.antt =====
-- qc/quality_gate.py: what a report that the gate passes satisfies.
use servicecheck.Base.{
  ℕ, ◌+◌, String, ◌≡◌, refl, sym, ap, ◌∙◌, Bool, true, false, not, ◌||◌, Option, none, some, List,
  [], ◌∷◌, ◌++◌, arith, ok-inj, is_some, any, All, Result, ok, err, >>=-eq-ok, same_int, Unique,
}
use servicecheck.Quality.Models.{DateTime, QualityEvent, KnowledgeHit, Violation, QualityReport}
use servicecheck.Quality.Rules.{QualityRule, get, get_active}
use servicecheck.Quality.Score.{ViolationKey, violation_key, same_key}
use servicecheck.Quality.Gate.{
  ReportPath, GateIssue, when, is_event_id, missing_turn, event_issues, has_event_id, at_violation,
  is_empty, document_issues, event_of, active_rule, supported,
}
use servicecheck.Quality.Evidence.{IsBacking, supporting-IsBacking}
use servicecheck.Quality.Check.{reference_issues, rule_issues, known_issues, violation_issues}

pub ++-eq-[] {ℓ} : {A : Type ℓ} (xs ys : List A) → (xs ++ ys) ≡ [] → (xs ≡ []) × (ys ≡ [])
++-eq-[] [] ys h = (refl, h)
++-eq-[] (x ∷ xs) ys h = absurd (cc)

pub when-eq-[] : (b : Bool) (c : String) (p : ReportPath) → when b c p ≡ [] → b ≡ false
when-eq-[] false c p h = refl
when-eq-[] true c p h = absurd (cc)

-- What the gate asks of an event, on its own.
abbrev pub IsGrounded : List String → QualityEvent → Type 0
IsGrounded valid e = (is_event_id e.event_id ≡ true) × (missing_turn valid e.turn_ids ≡ false)

pub not-true : (b : Bool) → not b ≡ false → b ≡ true
not-true true h = refl
not-true false h = absurd (cc)

-- The later of two events with one id.
abbrev pub repeats_event : QualityEvent → QualityEvent → Bool
repeats_event x y = has_event_id y.event_id x

abbrev pub repeats_violation : Violation → Violation → Bool
repeats_violation x y = same_key (violation_key y) (violation_key x)

any-eq-false {ℓ} :
    {A : Type ℓ} (p q : A → Bool) (xs : List A)
    → All (λ x. (p x || q x) ≡ false) xs
    → (any p xs ≡ false) × All (λ x. q x ≡ false) xs
any-eq-false p q [] h = (refl, tt)
any-eq-false p q (x ∷ xs) h = (
  ground (arith, any-eq-false p q xs h.1, h.0),
  (ground (arith, h.0), (any-eq-false p q xs h.1).1),
)

pub events-IsGrounded :
    (valid : List String) (i : ℕ) (earlier es : List QualityEvent)
    → event_issues valid i earlier es ≡ []
    → All (IsGrounded valid) es
      × All (λ e. any (has_event_id e.event_id) earlier ≡ false) es
      × Unique repeats_event es
unfolding event_issues
events-IsGrounded valid i earlier [] h = (tt, tt, tt)
events-IsGrounded valid i earlier (e ∷ es) h =
    let a = ++-eq-[] _ _ h in
    let b = ++-eq-[] _ _ a.1 in
    let c = ++-eq-[] _ _ b.1 in
    let rest = events-IsGrounded valid (i + 1) (e ∷ earlier) es c.1 in
    let apart =
      any-eq-false (repeats_event e) (λ x. any (has_event_id x.event_id) earlier) es rest.1 in
    (
      ((not-true _ (when-eq-[] _ _ _ b.0), when-eq-[] _ _ _ c.0), rest.0),
      (when-eq-[] _ _ _ a.0, apart.1),
      (apart.0, rest.2),
    )

-- What the gate asks of a violation, on its own.
pub record IsSupported (rules : List QualityRule) (report : QualityReport) (at : DateTime)
    (minimum : ℕ) (v : Violation) : Type 0 where
  pub event : QualityEvent
  pub refers : event_of report v ≡ some event
  pub rule : QualityRule
  pub known : get rules v.rule_id ≡ ok rule
  pub active : QualityRule
  pub in_force : get_active rules v.rule_id event.type at ≡ ok (some active)
  pub priced : same_int v.penalty rule.penalty ≡ true
  pub cites : is_empty v.knowledge_document_ids ≡ false
  pub hit : KnowledgeHit
  pub backs : IsBacking report at minimum v event rule hit

rule_list : Bool → Violation → QualityRule → ℕ → List GateIssue → List KnowledgeHit → List GateIssue
rule_list inactive v rule i documents hits =
    when inactive "INACTIVE_RULE" (at_violation i "ruleId")
    ++ (when (not (same_int v.penalty rule.penalty)) "INVALID_PENALTY" (at_violation i "penalty")
        ++ (when (is_empty v.knowledge_document_ids) "MISSING_POLICY_EVIDENCE"
              (at_violation i "knowledgeDocumentIds")
            ++ (documents
                ++ when (is_empty hits) "NO_ACTIVE_RULE_SUPPORT"
                    (at_violation i "knowledgeDocumentIds"))))

module _ (rules : List QualityRule) (report : QualityReport) (at : DateTime) (minimum i : ℕ)
    (v : Violation) where
  active-IsSupported :
      (event : QualityEvent) (rule : QualityRule) (active : Option QualityRule)
      (documents : List GateIssue) (hits : List KnowledgeHit)
      → event_of report v ≡ some event
      → get rules v.rule_id ≡ ok rule
      → get_active rules v.rule_id event.type at ≡ ok active
      → supported report at minimum v rule (some event) active ≡ ok hits
      → rule_list (not (is_some active)) v rule i documents hits ≡ []
      → IsSupported rules report at minimum v
  unfolding rule_list
  active-IsSupported event rule none documents hits fe fr fa fs z = absurd (cc)
  active-IsSupported event rule (some active) documents hits fe fr fa fs z =
      let b = ++-eq-[] _ _ z in
      let c = ++-eq-[] _ _ b.1 in
      let d = ++-eq-[] documents _ c.1 in
      let backing =
        supporting-IsBacking report v event rule at minimum hits fs (when-eq-[] _ _ _ d.1) in
      record {
        event = event;
        refers = fe;
        rule = rule;
        known = fr;
        active = active;
        in_force = fa;
        priced = not-true _ (when-eq-[] _ _ _ b.0);
        cites = when-eq-[] _ _ _ c.0;
        hit = backing.0;
        backs = backing.1;
      }

  rule_issues-IsSupported :
      (event : QualityEvent) (rule : QualityRule)
      → event_of report v ≡ some event
      → get rules v.rule_id ≡ ok rule
      → rule_issues rules report at minimum i v (some event) rule ≡ ok []
      → IsSupported rules report at minimum v
  unfolding rule_issues rule_list
  rule_issues-IsSupported event rule fe fr h =
      let a = >>=-eq-ok (active_rule rules at v (some event)) _ h in
      let b =
        >>=-eq-ok
          (document_issues report at minimum (at_violation i "knowledgeDocumentIds") (some event)
            v.knowledge_document_ids)
          _ a.2 in
      let c = >>=-eq-ok (supported report at minimum v rule (some event) a.0) _ b.2 in
      active-IsSupported event rule a.0 b.0 c.0 fe fr a.1 c.1 (ok-inj c.2)

  -- One round of the loop.
  known-IsSupported :
      (event : Option QualityEvent) (found : Result QualityRule)
      (r : List GateIssue × List Violation)
      → event_of report v ≡ event
      → get rules v.rule_id ≡ found
      → is_some event ≡ true
      → known_issues rules report at minimum i v event found ≡ ok r
      → r.0 ≡ []
      → IsSupported rules report at minimum v × (r.1 ≡ v ∷ [])
  known-IsSupported none found r fe fr s h z = absurd (cc)
  known-IsSupported (some event) (err e) r fe fr s h z = absurd (cc)
  known-IsSupported (some event) (ok rule) r fe fr s h z =
      let a = >>=-eq-ok (rule_issues rules report at minimum i v (some event) rule) _ h in
      let e = ok-inj a.2 in (rule_issues-IsSupported event rule fe fr (a.1 ∙ cc), cc)

-- The loop over the violations.
pub violations-IsSupported :
    (rules : List QualityRule) (report : QualityReport) (at : DateTime) (minimum : ℕ)
    (valid : List String) (i : ℕ) (seen : List ViolationKey) (vs : List Violation)
    (r : List GateIssue × List Violation)
    → violation_issues rules report at minimum valid i seen vs ≡ ok r
    → r.0 ≡ []
    → All
        (λ v.
          IsSupported rules report at minimum v × (missing_turn valid v.evidence_turn_ids ≡ false))
        vs
      × All (λ v. any (same_key (violation_key v)) seen ≡ false) vs
      × Unique repeats_violation vs
      × (r.1 ≡ vs)
unfolding violation_issues
violations-IsSupported rules report at minimum valid i seen [] r h z = (tt, tt, tt, cc)
violations-IsSupported rules report at minimum valid i seen (v ∷ vs) r h z =
    let a =
      >>=-eq-ok (known_issues rules report at minimum i v (event_of report v) (get rules v.rule_id))
        _ h in
    let b =
      >>=-eq-ok (violation_issues rules report at minimum valid (i + 1) (violation_key v ∷ seen) vs)
        _ a.2 in
    let e = ok-inj b.2 in
    let c =
      ++-eq-[] (reference_issues valid seen i v (event_of report v)) (a.0.0 ++ b.0.0)
        (ap (λ x. x.0) e ∙ z) in
    let d = ++-eq-[] a.0.0 b.0.0 c.1 in
    let f = ++-eq-[] _ _ c.0 in
    let g = ++-eq-[] _ _ f.1 in
    let this =
      known-IsSupported rules report at minimum i v (event_of report v) (get rules v.rule_id) a.0
        refl refl (not-true _ (when-eq-[] _ _ _ g.0)) a.1 d.0 in
    let rest =
      violations-IsSupported rules report at minimum valid (i + 1) (violation_key v ∷ seen) vs b.0
        b.1 d.1 in
    let apart =
      any-eq-false (repeats_violation v) (λ x. any (same_key (violation_key x)) seen) vs rest.1 in
    (
      ((this.0, when-eq-[] _ _ _ g.1), rest.0),
      (when-eq-[] _ _ _ f.0, apart.1),
      (apart.0, rest.2),
      rw (sym (ap (λ x. x.1) e), this.1, rest.3) refl,
    )
