-- ===== src/Agent/Samples.antt =====
-- Runs of the agent loop over a report with a violation that cites no turn of the call, and the theorems at
-- these inputs.
use servicecheck.Base.{
  ℕ, String, ◌≡◌, refl, none, [], ◌∷◌, ◌==◌, if◌then◌else◌, same, value_error, ok, err, pos,
}
use servicecheck.Quality.Models.{
  aware, ClaimFactStatus, ReviewDisposition, QualityReport, TranscriptTurn, Violation,
}
use servicecheck.Quality.Score.{calculate_score}
use servicecheck.Quality.Gate.{GateResult}
use servicecheck.Quality.Check.{check}
use servicecheck.Agent.Window.{select_focus_event}
use servicecheck.Agent.Executor.{LoopContext, PlannerAction, Tools, revise, execute}
use servicecheck.Agent.Loop.{
  pass, report_revision_required, EvaluatorDecision, plan, act, observe, evaluate, finalized,
  replan, completed, LoopResult, AgentLoop, run,
}
use servicecheck.Agent.Trusted.{IsTrusted, run-IsTrusted}
use servicecheck.Agent.Revised.{IsRevised, revise-IsRevised}
use servicecheck.Quality.Rules.{get, get_active}
use servicecheck.Quality.Score.{penalties, deduplicate_violations, merge_all}
use servicecheck.Quality.Gate.{event_issues, document_issues}
use servicecheck.Quality.Check.{violation_issues, rule_issues, score_issues, disposition_issues}

abbrev turn : String → TranscriptTurn
turn id = record { turn_id = id; speaker = "AGENT"; text = "hello"; start = 0; end = 1 }

abbrev groundless : Violation
groundless = record {
  event_id = none;
  rule_id = "R1";
  rule_name = "rule";
  penalty = pos 10;
  evidence_turn_ids = "T9" ∷ [];
  knowledge_document_ids = [];
  explanation = "";
  suggestion = "";
}

abbrev draft : QualityReport
draft = record {
  call_id = "C1";
  score = pos 90;
  events = [];
  violations = groundless ∷ [];
  knowledge_hits = [];
  audit_snapshot = none;
  business_fact = ClaimFactStatus.unverified;
  disposition = ReviewDisposition.auto_violation;
  pending_review_issues = [];
}

abbrev start : LoopContext
start = record {
  report = draft;
  transcript = turn "T1" ∷ turn "T2" ∷ [];
  reason = "check";
  call_started_at = aware 1000;
  gaps = [];
  focus_event_id = none;
  focus_turn_ids = [];
  evidence_window = [];
  evidence_radius = 2;
}

abbrev tools : Tools
tools = record { search = λ k q e a n. ok []; fetch_snapshot = λ k id. err value_error; rules = [] }

-- The context is widened, then the report is revised.
abbrev plans : ℕ → PlannerAction
plans i = if i == 1 then PlannerAction.expand_context else PlannerAction.revise_report

abbrev opinion : GateResult → EvaluatorDecision
opinion g =
    if g.passed
    then (record { verdict = pass; issues = [] })
    else (record { verdict = report_revision_required; issues = "T9" ∷ [] })

abbrev agent : ℕ → AgentLoop
agent most = record {
  planner = λ i c. ok (record { type = plans i; reason = "why" });
  evaluator = λ i c g. ok (opinion g);
  tools = tools;
  gate_threshold = 0;
  elapsed = λ i. i;
  max_iterations = most;
  max_tool_calls = 8;
  timeout = 90;
}

abbrev clean : QualityReport
clean = record draft {
  violations = [];
  score = pos 100;
  business_fact = ClaimFactStatus.not_checked;
  disposition = ReviewDisposition.auto_pass;
}

abbrev outcome : LoopResult
outcome = record {
  status = completed;
  report = clean;
  iterations = 2;
  tool_calls = 1;
  trace =
      (1, plan)
      ∷ (1, act)
      ∷ (1, observe)
      ∷ (1, evaluate)
      ∷ (1, replan)
      ∷ (2, plan)
      ∷ (2, act)
      ∷ (2, observe)
      ∷ (2, evaluate)
      ∷ (2, finalized)
      ∷ [];
  errors = [];
}

two_rounds : run (agent 3) start ≡ ok outcome
unfolding run execute check violation_issues rule_issues score_issues disposition_issues
    event_issues document_issues get get_active calculate_score penalties deduplicate_violations
    merge_all same select_focus_event
two_rounds = refl

run-IsTrusted_example : IsTrusted (agent 3) start.transcript start.call_started_at 0 3 outcome
run-IsTrusted_example = run-IsTrusted (agent 3) start two_rounds

revised_draft : revise tools start ≡ ok (record start { report = clean })
unfolding revise calculate_score penalties deduplicate_violations merge_all same
revised_draft = refl

revise-IsRevised_example : IsRevised tools start (record start { report = clean })
revise-IsRevised_example = revise-IsRevised tools start revised_draft
