-- ===== src/Review/RoutedSamples.antt =====
-- The reasons of a report with an ambiguous event, and the theorems at it.
use servicecheck.Base.{◌≡◌, refl, true, false, none, some, [], ◌∷◌, same, pos}
use servicecheck.Quality.Gate.{is_empty}
use servicecheck.Quality.Models.{
  EventType, ClaimFactStatus, ReviewDisposition, QualityEvent, AnalysisError, PendingIssue,
  QualityReport,
}
use servicecheck.Review.Routing.{
  error_reason, event_reason, issue_reason, needs_review_task, add_all, compute_route_reasons,
  same_key, add_reason, found_in, audit_reasons, add_if_bare,
}
use servicecheck.Review.Routed.{
  IsRouted, compute_route_reasons-IsRouted, needs_review_task-HasReason,
}

abbrev unclear : QualityEvent
unclear = record {
  event_id = "E1";
  type = EventType.debt_denial;
  statement = "It is not mine.";
  turn_ids = "T1" ∷ [];
  confidence = 400000;
  ambiguous = true;
}

abbrev issue : PendingIssue
issue = PendingIssue.coded (some "") (some "E1") none

abbrev unclear_report : QualityReport
unclear_report = record {
  call_id = "C1";
  score = pos 100;
  events = unclear ∷ [];
  violations = [];
  knowledge_hits = [];
  audit_snapshot = none;
  business_fact = ClaimFactStatus.not_checked;
  disposition = ReviewDisposition.human_review_required;
  pending_review_issues = issue ∷ issue ∷ [];
}

abbrev no_documents : AnalysisError
no_documents = record {
  code = "RAG_TIMEOUT";
  stage = "RAG";
  message = "";
  retryable = true;
  attempts = 2;
}

-- The second of two equal issues adds nothing.
three_reasons :
    compute_route_reasons "COMPLETED" (some unclear_report) (no_documents ∷ [])
    ≡ error_reason no_documents ∷ event_reason unclear ∷ issue_reason issue ∷ []
unfolding compute_route_reasons add_all add_reason add_if_bare found_in audit_reasons same_key same
three_reasons = refl

unclear_is_routed : needs_review_task "COMPLETED" (some unclear_report) ≡ true
unfolding needs_review_task same
unclear_is_routed = refl

compute_route_reasons-IsRouted_example :
    IsRouted
      (some unclear_report)
      (no_documents ∷ [])
      (compute_route_reasons "COMPLETED" (some unclear_report) (no_documents ∷ []))
compute_route_reasons-IsRouted_example =
    compute_route_reasons-IsRouted "COMPLETED" (some unclear_report) (no_documents ∷ [])

needs_review_task-HasReason_example :
    is_empty (compute_route_reasons "COMPLETED" (some unclear_report) (no_documents ∷ [])) ≡ false
needs_review_task-HasReason_example =
    needs_review_task-HasReason "COMPLETED" (some unclear_report) (no_documents ∷ [])
      unclear_is_routed
