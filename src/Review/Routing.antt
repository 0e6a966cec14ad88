-- ===== src/Review/Routing.antt =====
-- qc/review_service.py: which runs get a review task, and the reasons of the task. An error keeps its
-- stage as a text, and the report is as the quality gate reads it.
use servicecheck.Base.{
  String, Bool, true, false, ◌&&◌, Option, none, some, List, [], ◌∷◌, ◌++◌, map, if◌then◌else◌,
  same, truthy, any, select,
}
use servicecheck.Quality.Gate.{is_empty}
use servicecheck.Review.Tables.{RouteReason}
use servicecheck.Quality.Models.{
  ReviewDisposition, QualityEvent, AnalysisError, AuditSnapshot, PendingIssue, QualityReport,
}

abbrev pub is_auto : ReviewDisposition → Bool
is_auto ReviewDisposition.human_review_required = false
is_auto _ = true

abbrev pub requires_review : ReviewDisposition → Bool
requires_review ReviewDisposition.human_review_required = true
requires_review _ = false

unfoldable pub needs_review_task : String → Option QualityReport → Bool
needs_review_task status none = false
needs_review_task status (some report) =
    if same status "FAILED"
    then false
    else if same status "COMPLETED" && is_auto report.disposition
    then false
    else if same status "PARTIAL"
    then true
    else requires_review report.disposition

abbrev pub same_optional : Option String → Option String → Bool
same_optional none none = true
same_optional (some a) (some b) = same a b
same_optional _ _ = false

-- `key in seen`: the key of a reason is all of it but the path, and `seen` has the keys of `reasons`.
unfoldable pub same_key : RouteReason → RouteReason → Bool
same_key a b =
    same a.code b.code
    && same a.stage b.stage
    && same_optional a.event_id b.event_id
    && same_optional a.rule_id b.rule_id

-- `add`
unfoldable pub add_reason : RouteReason → List RouteReason → List RouteReason
add_reason r reasons = if any (same_key r) reasons then reasons else reasons ++ r ∷ []

unfoldable pub add_all : List RouteReason → List RouteReason → List RouteReason
add_all [] reasons = reasons
add_all (r ∷ rs) reasons = add_all rs (add_reason r reasons)

abbrev pub plain_reason : String → String → RouteReason
plain_reason code stage = record {
  code = code;
  stage = stage;
  event_id = none;
  rule_id = none;
  report_path = none;
}

abbrev pub error_reason : AnalysisError → RouteReason
error_reason e = plain_reason e.code e.stage

abbrev pub event_reason : QualityEvent → RouteReason
event_reason e = record (plain_reason "AMBIGUOUS_EVENT" "EVENT_EXTRACTION") {
  event_id = some e.event_id;
}

abbrev pub audit_reason : RouteReason
audit_reason = plain_reason "AUDIT_ERROR_REQUIRES_REVIEW" "AUDIT"

-- The second loop and the test after it.
unfoldable pub audit_reasons : Option AuditSnapshot → List RouteReason
audit_reasons none = []
audit_reasons (some snapshot) =
    map error_reason snapshot.errors ++ (if is_empty snapshot.errors then [] else audit_reason ∷ [])

abbrev pub code_or_gate : Option String → String
code_or_gate none = "QUALITY_GATE_FAILED"
code_or_gate (some code) = code

abbrev pub issue_reason : PendingIssue → RouteReason
issue_reason (PendingIssue.coded code event rule) = record {
  code = code_or_gate (truthy code);
  stage = "QUALITY_GATE";
  event_id = event;
  rule_id = rule;
  report_path = some "summary.pendingReviewIssues";
}
issue_reason (PendingIssue.text t) = plain_reason t "QUALITY_GATE"

abbrev pub review_reason : RouteReason
review_reason = plain_reason "HUMAN_REVIEW_REQUIRED" "QUALITY_GATE"

-- The arguments of the calls of `add` for a report, in their order.
unfoldable pub found_in : QualityReport → List RouteReason
found_in report =
    map event_reason (select QualityEvent.ambiguous report.events)
    ++ audit_reasons report.audit_snapshot
    ++ map issue_reason report.pending_review_issues

-- `if ... and not reasons: add("HUMAN_REVIEW_REQUIRED", ...)`
unfoldable pub add_if_bare : Bool → List RouteReason → List RouteReason
add_if_bare required reasons =
    if required && is_empty reasons then add_reason review_reason reasons else reasons

abbrev pub report_reasons : Option QualityReport → List RouteReason → List RouteReason
report_reasons none reasons = reasons
report_reasons (some report) reasons =
    add_if_bare (requires_review report.disposition) (add_all (found_in report) reasons)

unfoldable pub compute_route_reasons :
    String → Option QualityReport → List AnalysisError → List RouteReason
compute_route_reasons status report errors =
    add_if_bare (same status "PARTIAL")
      (report_reasons report (add_all (map error_reason errors) []))
