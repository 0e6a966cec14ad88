-- ===== src/Agent/Executor.antt =====
-- qc/agent_loop.py: the working memory of the loop, and `QualityLoopExecutor`. The summaries of
-- observations and the log of decisions are left out, since only the texts of prompts are made of them. The
-- search of knowledge and the audit client are parameters, by the number of the call.
use servicecheck.Base.{
  ℕ, ◌+◌, min, max, String, Bool, false, ◌&&◌, Option, none, some, List, [], ◌∷◌, ◌++◌, map, ltb,
  ◌==◌, if◌then◌else◌, same, truthy, length, any, all, select, find, or_else, update, Result, ok,
  ◌>>=◌,
}
use servicecheck.Quality.Models.{
  DateTime, ClaimFactStatus, ReviewDisposition, TranscriptTurn, QualityEvent, EventType,
  KnowledgeHit, AuditSnapshot, Violation, QualityReport, is_in,
}
use servicecheck.Quality.Rules.{QualityRule}
use servicecheck.Quality.Score.{calculate_score}
use servicecheck.Quality.Check.{turn_ids_of}
use servicecheck.Agent.Window.{select_focus_event, build_evidence_window, is_ambiguous}

pub record LoopContext : Type 0 where
  pub report : QualityReport
  pub transcript : List TranscriptTurn
  pub reason : String
  pub call_started_at : DateTime
  pub gaps : List String
  pub focus_event_id : Option String
  pub focus_turn_ids : List String
  pub evidence_window : List TranscriptTurn
  pub evidence_radius : ℕ

-- The types that `PlannerDecision.validate_type` allows.
pub data PlannerAction : Type 0 where
  expand_context search_knowledge query_action_audit revise_report finalize : PlannerAction

pub record PlannerDecision : Type 0 where
  pub type : PlannerAction
  pub reason : String

pub record Tools : Type 0 where
  pub search : ℕ → String → EventType → DateTime → ℕ → Result (List KnowledgeHit)
  pub fetch_snapshot : ℕ → String → Result AuditSnapshot
  pub rules : List QualityRule

abbrev pub is_event : String → QualityEvent → Bool
is_event id e = same e.event_id id

abbrev pub named_event : Option String → List QualityEvent → Option QualityEvent
named_event none events = none
named_event (some id) events = find (is_event id) events

-- `_focus_event`
unfoldable pub focus_event : LoopContext → Option QualityEvent
focus_event c =
    or_else (named_event (truthy c.focus_event_id) c.report.events) (select_focus_event c.report)

abbrev pub turns_or : List String → Option QualityEvent → List String
turns_or [] none = []
turns_or [] (some e) = e.turn_ids
turns_or (t ∷ ts) focus = t ∷ ts

-- `decision.get("radius") or context.evidenceRadius or 2`, since a decision has no radius; then one
-- circle more, six at most.
abbrev pub wider : ℕ → ℕ
wider r = min (max ((if r == 0 then 2 else r) + 1) 1) 6

-- `_expand_context`
unfoldable pub expand : LoopContext → LoopContext
expand c =
    let focus = turns_or c.focus_turn_ids (focus_event c) in
    record c {
      evidence_radius = wider c.evidence_radius;
      focus_turn_ids = focus;
      evidence_window = build_evidence_window c.transcript focus (wider c.evidence_radius);
    }

abbrev pub is_document : KnowledgeHit → KnowledgeHit → Bool
is_document h g = same g.document_id h.document_id

abbrev pub replace_hit : KnowledgeHit → KnowledgeHit → KnowledgeHit
replace_hit h g = h

-- `existing[hit.documentId] = hit`
abbrev pub merge_hit : List KnowledgeHit → KnowledgeHit → List KnowledgeHit
merge_hit hits h =
    if any (is_document h) hits then update (is_document h) (replace_hit h) hits else hits ++ h ∷ []

abbrev pub merge_hits : List KnowledgeHit → List KnowledgeHit → List KnowledgeHit
merge_hits hits [] = hits
merge_hits hits (h ∷ hs) = merge_hits (merge_hit hits h) hs

abbrev pub with_source : String → KnowledgeHit → KnowledgeHit
with_source source h = record h { query_source = some source }

abbrev pub query_of : Option String → QualityEvent → String × String
query_of none e = (e.statement, "event_statement")
query_of (some reason) e = (reason, "planner_reason")

abbrev pub found_hits : String → List KnowledgeHit → LoopContext → LoopContext
found_hits source hits c = record c {
  report = record c.report {
    knowledge_hits =
        merge_hits (merge_hits [] c.report.knowledge_hits) (map (with_source source) hits);
  };
}

abbrev pub search_for :
    Tools → ℕ → String × String → QualityEvent → LoopContext → Result LoopContext
search_for tools k (query, source) e c =
    tools.search k query e.type c.call_started_at 5 >>= λ hits. ok (found_hits source hits c)

-- `_search_knowledge`
abbrev pub search_focus :
    Tools → ℕ → String → LoopContext → Option QualityEvent → Result LoopContext
search_focus tools k reason c none = ok c
search_focus tools k reason c (some e) = search_for tools k (query_of (truthy (some reason)) e) e c

abbrev pub has_evidence : List String → Violation → Bool
has_evidence valid v =
    ltb 0 (length v.evidence_turn_ids) && all (λ t. is_in t valid) v.evidence_turn_ids

abbrev pub audit_failed : Option AuditSnapshot → Bool
audit_failed none = false
audit_failed (some a) = ltb 0 (length a.errors)

abbrev pub disposition_of : List Violation → QualityReport → ReviewDisposition
disposition_of (v ∷ vs) report = ReviewDisposition.auto_violation
disposition_of [] report =
    if audit_failed report.audit_snapshot
    then ReviewDisposition.human_review_required
    else if any is_ambiguous report.events
    then ReviewDisposition.human_review_required
    else ReviewDisposition.auto_pass

-- `_revise_report`
unfoldable pub revise : Tools → LoopContext → Result LoopContext
revise tools c =
    let kept = select (has_evidence (turn_ids_of c.transcript)) c.report.violations in
    calculate_score kept tools.rules c.call_started_at c.report.events >>= λ score. ok (record c {
      report = record c.report {
        violations = kept;
        score = score;
        business_fact = ClaimFactStatus.not_checked;
        disposition = disposition_of kept c.report;
      };
    })

unfoldable pub execute : Tools → ℕ → PlannerDecision → LoopContext → Result LoopContext
unfolding focus_event expand revise
execute tools k d c = elim d.type [
  | expand_context ↦ ok (expand c)
  | search_knowledge ↦ search_focus tools k d.reason c (focus_event c)
  | query_action_audit ↦
      (tools.fetch_snapshot k c.report.call_id >>= λ snapshot.
      ok (record c { report = record c.report { audit_snapshot = some snapshot } }))
  | revise_report ↦ revise tools c
  | finalize ↦ ok c
]
