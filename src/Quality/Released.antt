-- ===== src/Quality/Released.antt =====
-- qc/quality_gate.py: what the gate lets through.
use servicecheck.Base.{
  ℕ, ◌≡◌, refl, sym, ap, ◌∙◌, true, false, Option, List, [], ◌∷◌, arith, ◌==◌, taken, ok-inj,
  length, All, ok, >>=-eq-ok, ℤ, pos, negsuc, same_int, Unique,
}
use servicecheck.Quality.Models.{DateTime, QualityReport, TranscriptTurn, PendingIssue}
use servicecheck.Quality.Rules.{QualityRule}
use servicecheck.Quality.Score.{calculate_score}
use servicecheck.Quality.Gate.{GateResult, missing_turn, event_issues, is_empty}
use servicecheck.Quality.Check.{
  violation_issues, score_issues, check, turn_ids_of, threshold, pending_issues,
}
use servicecheck.Quality.Passing.{
  ++-eq-[], when-eq-[], not-true, IsGrounded, repeats_event, repeats_violation, events-IsGrounded,
  IsSupported, violations-IsSupported,
}
use servicecheck.Quality.Settled.{IsSettled, disposition-IsSettled}

same_int→eq : (a b : ℤ) → same_int a b ≡ true → a ≡ b
same_int→eq (pos m) (pos n) h = ground arith
same_int→eq (pos m) (negsuc n) h = absurd (ground arith)
same_int→eq (negsuc m) (pos n) h = absurd (ground arith)
same_int→eq (negsuc m) (negsuc n) h = ground arith

-- What a report must be to leave without a person's review.
pub record IsJustified (rules : List QualityRule) (report : QualityReport)
    (transcript : List TranscriptTurn) (at : DateTime) (minimum : ℕ) : Type 0 where
  pub events : All (IsGrounded (turn_ids_of transcript)) report.events
  pub events_apart : Unique repeats_event report.events
  pub violations :
      All
        (λ v.
          IsSupported rules report at minimum v
          × (missing_turn (turn_ids_of transcript) v.evidence_turn_ids ≡ false))
        report.violations
  pub violations_apart : Unique repeats_violation report.violations
  pub score : calculate_score report.violations rules at report.events ≡ ok report.score
  pub resolved : report.pending_review_issues ≡ []
  pub settled : IsSettled report

pending_none : (ps : List PendingIssue) → pending_issues ps ≡ [] → ps ≡ []
pending_none [] h = refl
pending_none (p ∷ ps) h = absurd (cc)

length_self : (n : ℕ) → (n == n) ≡ true
length_self n = ground arith

empty_of {ℓ} : {A : Type ℓ} (xs : List A) → is_empty xs ≡ true → xs ≡ []
empty_of [] h = refl
empty_of (x ∷ xs) h = absurd (cc)

score-holds :
    (rules : List QualityRule) (report : QualityReport) (at : DateTime)
    → score_issues rules report at report.violations ≡ ok []
    → calculate_score report.violations rules at report.events ≡ ok report.score
unfolding score_issues
score-holds rules report at h =
    let a =
      >>=-eq-ok (calculate_score report.violations rules at report.events) _
        (taken _ _ _ (length_self (length report.violations)) h) in
    a.1 ∙ ap ok (sym (same_int→eq report.score a.0 (not-true _ (when-eq-[] _ _ _ (ok-inj a.2)))))

-- A report that the gate passes is justified: its events have distinct ids of the prescribed form
-- and cite turns of the transcript, each of its violations refers to an event, is of a known rule
-- in force with that rule's penalty, and is backed by a retrieved hit of at least the threshold, no
-- violation repeats another, the score is the one computed, nothing is pending, and the disposition
-- agrees with the violations.
pub passed-IsJustified :
    (rules : List QualityRule) (own : ℕ) (report : QualityReport) (transcript : List TranscriptTurn)
    (at : DateTime) (given : Option ℕ) (result : GateResult)
    → check rules own report transcript at given ≡ ok result
    → result.passed ≡ true
    → IsJustified rules report transcript at (threshold own given)
unfolding check
passed-IsJustified rules own report transcript at given result h p =
    let valid = turn_ids_of transcript in
    let a =
      >>=-eq-ok
        (violation_issues rules report at (threshold own given) valid 0 [] report.violations) _ h in
    let b = >>=-eq-ok (score_issues rules report at a.0.1) _ a.2 in
    let none_found = empty_of _ (ap (λ r. r.passed) (ok-inj b.2) ∙ p) in
    let c = ++-eq-[] (event_issues valid 0 [] report.events) _ none_found in
    let d = ++-eq-[] a.0.0 _ c.1 in
    let e = ++-eq-[] b.0 _ d.1 in
    let f = ++-eq-[] (pending_issues report.pending_review_issues) _ e.1 in
    let events = events-IsGrounded valid 0 [] report.events c.0 in
    let violations =
      violations-IsSupported rules report at (threshold own given) valid 0 [] report.violations a.0
        a.1 d.0 in
    record {
      events = events.0;
      events_apart = events.2;
      violations = violations.0;
      violations_apart = violations.2;
      score =
          score-holds rules report at
            (ap (score_issues rules report at) (sym violations.3) ∙ b.1 ∙ ap ok e.0);
      resolved = pending_none report.pending_review_issues f.0;
      settled = disposition-IsSettled report f.1;
    }
