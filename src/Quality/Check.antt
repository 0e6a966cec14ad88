-- ===== src/Quality/Check.antt =====
-- qc/quality_gate.py, `QualityGate.check`: the loop over the violations, the report as a whole, and
-- the result.
use servicecheck.Base.{
  ℕ, ◌+◌, String, Bool, true, false, not, ◌&&◌, Option, none, some, List, [], ◌∷◌, ◌++◌, map, ◌==◌,
  if◌then◌else◌, is_some, length, any, Result, ok, err, ◌>>=◌, same_int,
}
use servicecheck.Quality.Models.{
  DateTime, QualityEvent, Violation, QualityReport, TranscriptTurn, AuditSnapshot, PendingIssue,
  coded, text, ClaimFactStatus, not_checked, ReviewDisposition, auto_pass, auto_violation,
  human_review_required,
}
use servicecheck.Quality.Rules.{QualityRule, get}
use servicecheck.Quality.Score.{ViolationKey, violation_key, same_key, calculate_score}
use servicecheck.Quality.Gate.{
  at_violation, at_report, GateIssue, GateResult, when, missing_turn, event_issues, is_empty,
  document_issues, event_of, active_rule, supported,
}

-- What is said of a violation before its rule is looked up.
abbrev pub reference_issues :
    List String → List ViolationKey → ℕ → Violation → Option QualityEvent → List GateIssue
reference_issues valid seen index v event =
    when (any (same_key (violation_key v)) seen) "DUPLICATE_VIOLATION" (at_violation index "")
    ++ (when (not (is_some event)) "MISSING_EVENT_REFERENCE" (at_violation index "eventId")
        ++ when (missing_turn valid v.evidence_turn_ids) "MISSING_TRANSCRIPT_EVIDENCE"
            (at_violation index "evidenceTurnIds"))

-- What is said of a violation whose rule is known.
unfoldable pub rule_issues :
    List QualityRule
    → QualityReport
    → DateTime
    → ℕ
    → ℕ
    → Violation
    → Option QualityEvent
    → QualityRule
    → Result (List GateIssue)
rule_issues rules report at minimum index v event rule = active_rule rules at v event >>= λ active.
    document_issues report at minimum (at_violation index "knowledgeDocumentIds") event
      v.knowledge_document_ids
    >>= λ documents. supported report at minimum v rule event active >>= λ hits. ok (
        when (is_some event && not (is_some active)) "INACTIVE_RULE" (at_violation index "ruleId")
        ++ (when (not (same_int v.penalty rule.penalty)) "INVALID_PENALTY"
              (at_violation index "penalty")
            ++ (when (is_empty v.knowledge_document_ids) "MISSING_POLICY_EVIDENCE"
                  (at_violation index "knowledgeDocumentIds")
                ++ (documents
                    ++ when (is_empty hits) "NO_ACTIVE_RULE_SUPPORT"
                        (at_violation index "knowledgeDocumentIds")))))

-- `scorable.append(violation)`, for a violation whose rule and event are known
abbrev pub scored : Option QualityEvent → Violation → List Violation
scored none v = []
scored (some event) v = v ∷ []

-- The rest of a round, with what `rules.get` gave.
abbrev pub known_issues :
    List QualityRule
    → QualityReport
    → DateTime
    → ℕ
    → ℕ
    → Violation
    → Option QualityEvent
    → Result QualityRule
    → Result (List GateIssue × List Violation)
known_issues rules report at minimum index v event (err e) =
    ok (when true "UNKNOWN_RULE" (at_violation index "ruleId"), [])
known_issues rules report at minimum index v event (ok rule) =
    rule_issues rules report at minimum index v event rule >>= λ issues. ok (issues, scored event v)

-- The loop over the violations: their issues and `scorable`.
unfoldable pub violation_issues :
    List QualityRule
    → QualityReport
    → DateTime
    → ℕ
    → List String
    → ℕ
    → List ViolationKey
    → List Violation
    → Result (List GateIssue × List Violation)
violation_issues rules report at minimum valid index seen [] = ok ([], [])
violation_issues rules report at minimum valid index seen (v ∷ vs) =
    known_issues rules report at minimum index v (event_of report v) (get rules v.rule_id)
    >>= λ first.
        violation_issues rules report at minimum valid (index + 1) (violation_key v ∷ seen) vs
        >>= λ rest. ok (
          reference_issues valid seen index v (event_of report v) ++ (first.0 ++ rest.0),
          first.1 ++ rest.1,
        )

unfoldable pub score_issues :
    List QualityRule → QualityReport → DateTime → List Violation → Result (List GateIssue)
score_issues rules report at scorable =
    if length scorable == length report.violations
    then (calculate_score scorable rules at report.events >>= λ expected.
        ok (when (not (same_int report.score expected)) "INVALID_SCORE" (at_report "score")))
    else ok []

abbrev pub or_code : Option String → String
or_code none = "NO_ACTIVE_RULE_SUPPORT"
or_code (some c) = c

abbrev pub pending_code : PendingIssue → String
pending_code (coded c event rule) = or_code c
pending_code (text s) = s

abbrev pub pending_issues : List PendingIssue → List GateIssue
pending_issues [] = []
pending_issues (p ∷ ps) =
    record { code = pending_code p; report_path = at_report "summary.pendingReviewIssues" }
    ∷ pending_issues ps

abbrev pub is_disposition : ReviewDisposition → ReviewDisposition → Bool
is_disposition auto_pass auto_pass = true
is_disposition auto_violation auto_violation = true
is_disposition human_review_required human_review_required = true
is_disposition _ _ = false

-- `report.auditSnapshot and report.auditSnapshot.errors`
abbrev pub has_audit_errors : Option AuditSnapshot → Bool
has_audit_errors none = false
has_audit_errors (some snapshot) = not (is_empty snapshot.errors)

abbrev pub is_not_checked : ClaimFactStatus → Bool
is_not_checked not_checked = true
is_not_checked _ = false

abbrev pub conflict : Bool → List GateIssue
conflict c = when c "DISPOSITION_CONFLICT" (at_report "disposition")

unfoldable pub disposition_issues : QualityReport → List GateIssue
disposition_issues report =
    let human = is_disposition report.disposition human_review_required in
    let passes = is_disposition report.disposition auto_pass in
    let convicts = is_disposition report.disposition auto_violation in
    let audit = has_audit_errors report.audit_snapshot in
    conflict human
    ++ (conflict (not (is_empty report.violations) && passes)
        ++ (conflict (is_empty report.violations && convicts)
            ++ (conflict (any (λ e. e.ambiguous) report.events && not human)
                ++ (when audit "AUDIT_ERROR_REQUIRES_REVIEW" (at_report "auditSnapshot.errors")
                    ++ (conflict (audit && not human)
                        ++ when (not (is_not_checked report.business_fact))
                            "BUSINESS_FACT_OUT_OF_SCOPE" (at_report "businessFact.status"))))))

abbrev pub turn_ids_of : List TranscriptTurn → List String
turn_ids_of turns = map (λ t. t.turn_id) turns

abbrev pub gate_result : List GateIssue → GateResult
gate_result issues = record { passed = is_empty issues; issues = issues }

-- The gate's threshold, unless the call gives one.
abbrev pub threshold : ℕ → Option ℕ → ℕ
threshold own none = own
threshold own (some m) = m

unfoldable pub check :
    List QualityRule
    → ℕ
    → QualityReport
    → List TranscriptTurn
    → DateTime
    → Option ℕ
    → Result GateResult
check rules own report transcript at given =
    violation_issues rules report at (threshold own given) (turn_ids_of transcript) 0 []
      report.violations
    >>= λ found. score_issues rules report at found.1 >>= λ score. ok (
        gate_result (
          event_issues (turn_ids_of transcript) 0 [] report.events
          ++ (found.0
              ++ (score
                  ++ (pending_issues report.pending_review_issues ++ disposition_issues report)))))
