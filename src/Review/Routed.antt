-- ===== src/Review/Routed.antt =====
-- The reasons that `compute_route_reasons` (qc/review_service.py) gives.
use servicecheck.Base.{
  String, ◌≡◌, refl, ap, subst, ◌⊎◌, inl, inr, Bool, true, false, not, ◌||◌, Option, none, some,
  List, [], ◌∷◌, ◌++◌, map, arith, if◌then◌else◌, same, truthy, Bool-cases, All, All-map_impl,
  All-split, select, Unique,
}
use mathlib.Core.List.{Mem}
use servicecheck.Quality.Gate.{is_empty}
use servicecheck.Quality.Models.{
  QualityEvent, AnalysisError, AuditSnapshot, PendingIssue, QualityReport,
}
use servicecheck.Review.Tables.{RouteReason}
use servicecheck.Review.Routing.{
  requires_review, needs_review_task, same_key, add_reason, add_all, error_reason, event_reason,
  audit_reason, audit_reasons, code_or_gate, issue_reason, review_reason, found_in, add_if_bare,
  report_reasons, compute_route_reasons,
}
use servicecheck.Review.Reasons.{
  IsListed, add_all-keeps, add_all-IsListed, add_all-Unique, add_if_bare-keeps, add_if_bare-Unique,
  ReasonKey, reason_key, IsListed-Mem, AreDistinct, Unique-AreDistinct,
}

abbrev found_in_maybe : Option QualityReport → List RouteReason
found_in_maybe none = []
found_in_maybe (some report) = found_in report

-- What the calls of `add` guarantee.
abbrev Adds : Option QualityReport → List AnalysisError → List RouteReason → Type 0
Adds report errors reasons =
    Unique same_key reasons
    × All (IsListed reasons) (map error_reason errors)
    × All (IsListed reasons) (found_in_maybe report)

report_reasons-Adds :
    (report : Option QualityReport) (errors : List AnalysisError)
    → Adds report errors (report_reasons report (add_all (map error_reason errors) []))
report_reasons-Adds none errors = (
  add_all-Unique (map error_reason errors) [] tt,
  add_all-IsListed (map error_reason errors) [],
  tt,
)
report_reasons-Adds (some report) errors =
    let bare = requires_review report.disposition in
    let first = add_all (map error_reason errors) [] in
    let all = add_all (found_in report) first in
    (
      add_if_bare-Unique bare all
          (add_all-Unique (found_in report) first (add_all-Unique (map error_reason errors) [] tt)),
      All-map_impl (IsListed first) (IsListed (add_if_bare bare all))
          (λ r h. add_if_bare-keeps bare r all (add_all-keeps r (found_in report) first h))
          (map error_reason errors) (add_all-IsListed (map error_reason errors) []),
      All-map_impl (IsListed all) (IsListed (add_if_bare bare all))
          (λ r h. add_if_bare-keeps bare r all h) (found_in report)
          (add_all-IsListed (found_in report) first),
    )

compute_route_reasons-Adds :
    (status : String) (report : Option QualityReport) (errors : List AnalysisError)
    → Adds report errors (compute_route_reasons status report errors)
unfolding compute_route_reasons
compute_route_reasons-Adds status report errors =
    let reasons = report_reasons report (add_all (map error_reason errors) []) in
    let (unique, given, found) = report_reasons-Adds report errors in
    let partial = same status "PARTIAL" in
    let keep =
      All-map_impl (IsListed reasons) (IsListed (add_if_bare partial reasons))
        (λ r h. add_if_bare-keeps partial r reasons h) in
    (
      add_if_bare-Unique partial reasons unique,
      keep (map error_reason errors) given,
      keep (found_in_maybe report) found,
    )

-- The code of a pending issue: its own, unless that is missing or empty.
abbrev issue_code : Option String → String
issue_code none = "QUALITY_GATE_FAILED"
issue_code (some code) = if same code "" then "QUALITY_GATE_FAILED" else code

abbrev issue_key : PendingIssue → ReasonKey
issue_key (PendingIssue.coded code event rule) = (issue_code code, "QUALITY_GATE", event, rule)
issue_key (PendingIssue.text t) = (t, "QUALITY_GATE", none, none)

-- An error has a reason of its code and stage.
abbrev HaveReasons : List ReasonKey → List AnalysisError → Type 0
HaveReasons keys errors = All (λ e. Mem (e.code, e.stage, none, none) keys) errors

abbrev EventReasons : List ReasonKey → List QualityEvent → Type 0
EventReasons keys events =
    All
      (λ (e : QualityEvent).
        (e.ambiguous ≡ false)
        ⊎ Mem ("AMBIGUOUS_EVENT", "EVENT_EXTRACTION", some e.event_id, none) keys)
      events

abbrev AuditReasons : List ReasonKey → Option AuditSnapshot → Type 0
AuditReasons keys none = Unit
AuditReasons keys (some snapshot) =
    HaveReasons keys snapshot.errors
    × ((snapshot.errors ≡ []) ⊎ Mem ("AUDIT_ERROR_REQUIRES_REVIEW", "AUDIT", none, none) keys)

abbrev ReportReasons : List ReasonKey → Option QualityReport → Type 0
ReportReasons keys none = Unit
ReportReasons keys (some report) =
    EventReasons keys report.events
    × AuditReasons keys report.audit_snapshot
    × All (λ i. Mem (issue_key i) keys) report.pending_review_issues

-- What the reasons of a run owe to its errors and its report.
abbrev pub IsRouted : Option QualityReport → List AnalysisError → List RouteReason → Type 0
IsRouted report errors reasons =
    AreDistinct reasons
    × HaveReasons (map reason_key reasons) errors
    × ReportReasons (map reason_key reasons) report

module _ (reasons : List RouteReason) where
  errors-HaveReasons :
      (errors : List AnalysisError)
      → All (IsListed reasons) (map error_reason errors)
      → HaveReasons (map reason_key reasons) errors
  errors-HaveReasons [] h = tt
  errors-HaveReasons (e ∷ es) h =
      (IsListed-Mem reasons (error_reason e) h.0, errors-HaveReasons es h.1)

  events-EventReasons :
      (events : List QualityEvent)
      → All (IsListed reasons) (map event_reason (select QualityEvent.ambiguous events))
      → EventReasons (map reason_key reasons) events
  events-EventReasons [] h = tt
  events-EventReasons (e ∷ es) h = elim (Bool-cases e.ambiguous) [
    | inl a ↦
        let k = rw a at h in
        (inr (IsListed-Mem reasons (event_reason e) k.0), events-EventReasons es k.1)
    | inr a ↦ let k = rw a at h in (inl a, events-EventReasons es k)
  ]

  audit-AuditReasons :
      (audit : Option AuditSnapshot)
      → All (IsListed reasons) (audit_reasons audit)
      → AuditReasons (map reason_key reasons) audit
  unfolding audit_reasons
  audit-AuditReasons none h = tt
  audit-AuditReasons (some snapshot) h =
      let (own, last) = All-split (IsListed reasons) (map error_reason snapshot.errors) _ h in
      (errors-HaveReasons snapshot.errors own, last_one snapshot.errors last)
    where
      last_one :
          (errors : List AnalysisError)
          → All (IsListed reasons) (if is_empty errors then [] else audit_reason ∷ [])
          → (errors ≡ [])
            ⊎ Mem ("AUDIT_ERROR_REQUIRES_REVIEW", "AUDIT", none, none) (map reason_key reasons)
      last_one [] k = inl refl
      last_one (e ∷ es) k = inr (IsListed-Mem reasons audit_reason k.0)

  same_code : (code : Option String) → code_or_gate (truthy code) ≡ issue_code code
  same_code none = refl
  same_code (some code) = elim (Bool-cases (same code "")) [ inl e ↦ rw e refl | inr e ↦ rw e refl ]

  same_issue : (i : PendingIssue) → reason_key (issue_reason i) ≡ issue_key i
  same_issue (PendingIssue.coded code event rule) =
      ap (λ c. (c, "QUALITY_GATE", event, rule)) (same_code code)
  same_issue (PendingIssue.text t) = refl

  issues-listed :
      (issues : List PendingIssue)
      → All (IsListed reasons) (map issue_reason issues)
      → All (λ i. Mem (issue_key i) (map reason_key reasons)) issues
  issues-listed [] h = tt
  issues-listed (i ∷ is) h = (
    subst (λ k. Mem k (map reason_key reasons)) (same_issue i)
        (IsListed-Mem reasons (issue_reason i) h.0),
    issues-listed is h.1,
  )

  found-ReportReasons :
      (report : Option QualityReport)
      → All (IsListed reasons) (found_in_maybe report)
      → ReportReasons (map reason_key reasons) report
  unfolding found_in
  found-ReportReasons none h = tt
  found-ReportReasons (some report) h =
      let troubles = map event_reason (select QualityEvent.ambiguous report.events) in
      let audit = audit_reasons report.audit_snapshot in
      let (first, issues) =
        All-split (IsListed reasons) (troubles ++ audit)
          (map issue_reason report.pending_review_issues) h in
      let (events, errors) = All-split (IsListed reasons) troubles audit first in
      (
        events-EventReasons report.events events,
        audit-AuditReasons report.audit_snapshot errors,
        issues-listed report.pending_review_issues issues,
      )

-- No two reasons that compute_route_reasons gives have the same code, stage, event and rule, and
-- among them are: for every error it is given one of its code and stage; and of the report, one for
-- every ambiguous event, one for every error of the audit and one for the audit if it has errors,
-- and one for every pending issue, with its code (QUALITY_GATE_FAILED if it has none), event and rule.
pub compute_route_reasons-IsRouted :
    (status : String) (report : Option QualityReport) (errors : List AnalysisError)
    → IsRouted report errors (compute_route_reasons status report errors)
compute_route_reasons-IsRouted status report errors =
    let reasons = compute_route_reasons status report errors in
    let (unique, given, found) = compute_route_reasons-Adds status report errors in
    (
      Unique-AreDistinct reasons unique,
      errors-HaveReasons reasons errors given,
      found-ReportReasons reasons report found,
    )

add_reason-not_empty :
    (r : RouteReason) (xs : List RouteReason) → is_empty (add_reason r xs) ≡ false
unfolding add_reason
add_reason-not_empty r [] = refl
add_reason-not_empty r (x ∷ xs) = ground arith

add_if_bare-not_empty :
    (b : Bool) (xs : List RouteReason)
    → (b || not (is_empty xs)) ≡ true
    → is_empty (add_if_bare b xs) ≡ false
unfolding add_if_bare
add_if_bare-not_empty b xs h = ground (arith, add_reason-not_empty review_reason xs)

-- When needs_review_task asks for a review of a run, compute_route_reasons gives a reason at least.
pub needs_review_task-HasReason :
    (status : String) (report : Option QualityReport) (errors : List AnalysisError)
    → needs_review_task status report ≡ true
    → is_empty (compute_route_reasons status report errors) ≡ false
unfolding compute_route_reasons needs_review_task
needs_review_task-HasReason status none errors h = absurd (cc)
needs_review_task-HasReason status (some report) errors h =
    let found = add_all (found_in report) (add_all (map error_reason errors) []) in
    add_if_bare-not_empty (same status "PARTIAL")
      (add_if_bare (requires_review report.disposition) found)
      (ground (arith, add_if_bare-not_empty (requires_review report.disposition) found))
