-- ===== src/Quality/Samples.antt =====
-- A concrete report, runs of the gate on it, and the theorems at these inputs.
use servicecheck.Base.{
  Unique, ℕ, ◌≤◌, String, ◌≡◌, refl, true, false, none, some, [], ◌∷◌, same, ok, ℤ, pos,
}
use servicecheck.Quality.Models.{
  aware, threat_or_coercion, missing, date, QualityEvent, KnowledgeHit, Violation, QualityReport,
  TranscriptTurn, not_checked, auto_violation, auto_pass, ReviewDisposition,
}
use servicecheck.Quality.Rules.{QualityRule, get, get_active}
use servicecheck.Quality.Support.{
  document_is_active, document_relates_to_rule, supports, supporting_from, supporting_hits,
}
use servicecheck.Quality.Score.{
  calculate_score, penalties, deduplicate_violations, merge_all, merge, insert_sorted, sort,
}
use servicecheck.Quality.Gate.{
  is_event_id, event_issues, document_issues, GateIssue, at_report, at_violation,
}
use servicecheck.Quality.Check.{
  rule_issues, violation_issues, score_issues, disposition_issues, check,
}
use servicecheck.Quality.Deduplicated.{same_keys, deduplicate_violations-Unique}
use servicecheck.Quality.Penalties.{calculate_score_range}
use servicecheck.Quality.Released.{passed-IsJustified, IsJustified}

abbrev coercion_rule : QualityRule
coercion_rule = record {
  rule_id = "QR-1";
  name = "No threats";
  event_types = threat_or_coercion ∷ [];
  description = "An agent does not threaten.";
  penalty = pos 30;
  version = "1";
  effective_from = aware 100;
  effective_to = none;
  source_document_id = "DOC-1";
}

abbrev threat : QualityEvent
threat = record {
  event_id = "EVT-0123456789ABCDEF0123456789ABCDEF";
  type = threat_or_coercion;
  statement = "We will come to your house.";
  turn_ids = "T1" ∷ [];
  confidence = 900000;
  ambiguous = false;
}

abbrev policy_hit : KnowledgeHit
policy_hit = record {
  document_id = "DOC-1";
  title = "Conduct";
  content = "No threats.";
  version = "1";
  score = 800000;
  metadata = record {
    event_type = some "THREAT_OR_COERCION";
    document_status = some "published";
    effective_from = date (aware 50);
    effective_to = missing;
    related_rule_ids = [];
    rule_ids = [];
  };
  query_source = none;
}

abbrev threat_violation : Violation
threat_violation = record {
  event_id = some "EVT-0123456789ABCDEF0123456789ABCDEF";
  rule_id = "QR-1";
  rule_name = "No threats";
  penalty = pos 30;
  evidence_turn_ids = "T1" ∷ [];
  knowledge_document_ids = "DOC-1" ∷ [];
  explanation = "The agent threatened a visit.";
  suggestion = "Do not.";
}

abbrev report_with : ℤ → ReviewDisposition → QualityReport
report_with s d = record {
  call_id = "C1";
  score = s;
  events = threat ∷ [];
  violations = threat_violation ∷ [];
  knowledge_hits = policy_hit ∷ [];
  audit_snapshot = none;
  business_fact = not_checked;
  disposition = d;
  pending_review_issues = [];
}

abbrev first_turn : TranscriptTurn
first_turn = record { turn_id = "T1"; speaker = "agent"; text = "..."; start = 0; end = 10 }

gate_passes :
    check
      (coercion_rule ∷ [])
      500000
      (report_with (pos 70) auto_violation)
      (first_turn ∷ [])
      (aware 200)
      none
    ≡ ok record { passed = true; issues = [] }
unfolding check violation_issues rule_issues score_issues disposition_issues event_issues
    document_issues is_event_id get get_active document_is_active document_relates_to_rule supports
    supporting_from supporting_hits calculate_score penalties deduplicate_violations merge_all same
gate_passes = refl

abbrev issue_of : String → String → GateIssue
issue_of c p = record { code = c; report_path = at_report p }

gate_refuses :
    check
      (coercion_rule ∷ [])
      500000
      (report_with (pos 100) auto_pass)
      (first_turn ∷ [])
      (aware 200)
      none
    ≡ ok record {
      passed = false;
      issues =
          issue_of "INVALID_SCORE" "score" ∷ issue_of "DISPOSITION_CONFLICT" "disposition" ∷ [];
    }
unfolding check violation_issues rule_issues score_issues disposition_issues event_issues
    document_issues is_event_id get get_active document_is_active document_relates_to_rule supports
    supporting_from supporting_hits calculate_score penalties deduplicate_violations merge_all same
gate_refuses = refl

-- A violation is not supported by a document below the threshold.
gate_threshold :
    check
      (coercion_rule ∷ [])
      500000
      (report_with (pos 70) auto_violation)
      (first_turn ∷ [])
      (aware 200)
      (some 900000)
    ≡ ok record {
      passed = false;
      issues =
          record {
            code = "RAG_BELOW_THRESHOLD";
            report_path = at_violation 0 "knowledgeDocumentIds";
          }
          ∷ record {
            code = "NO_ACTIVE_RULE_SUPPORT";
            report_path = at_violation 0 "knowledgeDocumentIds";
          }
          ∷ [];
    }
unfolding check violation_issues rule_issues score_issues disposition_issues event_issues
    document_issues is_event_id get get_active document_is_active document_relates_to_rule supports
    supporting_from supporting_hits calculate_score penalties deduplicate_violations merge_all same
gate_threshold = refl

passed-IsJustified_example :
    IsJustified
      (coercion_rule ∷ [])
      (report_with (pos 70) auto_violation)
      (first_turn ∷ [])
      (aware 200)
      500000
passed-IsJustified_example =
    passed-IsJustified (coercion_rule ∷ []) 500000 (report_with (pos 70) auto_violation)
      (first_turn ∷ []) (aware 200) none record { passed = true; issues = [] } gate_passes refl

score_of_one :
    calculate_score (threat_violation ∷ []) (coercion_rule ∷ []) (aware 200) (threat ∷ [])
    ≡ ok (pos 70)
unfolding calculate_score penalties deduplicate_violations merge_all merge insert_sorted sort get
    get_active same
score_of_one = refl

calculate_score_range_example : (n : ℕ) × (pos 70 ≡ pos n) × (n ≤ 100)
calculate_score_range_example =
    calculate_score_range (threat_violation ∷ []) (coercion_rule ∷ []) (aware 200) (threat ∷ [])
      (pos 70) (refl, tt) score_of_one

-- A violation that is reported twice is counted once.
counted_once :
    calculate_score
      (threat_violation ∷ threat_violation ∷ [])
      (coercion_rule ∷ [])
      (aware 200)
      (threat ∷ [])
    ≡ ok (pos 70)
unfolding calculate_score penalties deduplicate_violations merge_all merge insert_sorted sort get
    get_active same
counted_once = refl

deduplicate_violations-Unique_example :
    Unique same_keys
      (deduplicate_violations (threat_violation ∷ threat_violation ∷ []) (threat ∷ []))
deduplicate_violations-Unique_example =
    deduplicate_violations-Unique (threat_violation ∷ threat_violation ∷ []) (threat ∷ [])
