-- ===== src/Agent/Loop.antt =====
-- qc/agent_loop.py, `BoundedAgentLoop.run`. The planner, the evaluator and the clock are parameters, by the
-- number of the iteration; details of the trace are left out.
use servicecheck.Base.{
  ℕ, zero, suc, ◌+◌, String, Bool, true, false, ◌&&◌, ◌||◌, Option, none, some, List, [], ◌∷◌, ◌++◌,
  leb, if◌then◌else◌, truthy, or_else, Result, ok, ◌>>=◌,
}
use servicecheck.Quality.Models.{QualityEvent, QualityReport, AnalysisError}
use servicecheck.Quality.Gate.{GateResult}
use servicecheck.Quality.Check.{check}
use servicecheck.Agent.Window.{select_focus_event, build_evidence_window}
use servicecheck.Agent.Executor.{LoopContext, PlannerAction, PlannerDecision, Tools, execute}

-- The verdicts that `EvaluatorDecision.validate_verdict` allows.
pub data Verdict : Type 0 where
  pass needs_more_context rule_ambiguity report_revision_required human_review_required : Verdict

pub record EvaluatorDecision : Type 0 where
  pub verdict : Verdict
  pub issues : List String

pub data TracePhase : Type 0 where
  plan act observe evaluate finalized replan : TracePhase

pub data LoopStatus : Type 0 where
  completed human_review : LoopStatus

pub record LoopResult : Type 0 where
  pub status : LoopStatus
  pub report : QualityReport
  pub iterations : ℕ
  pub tool_calls : ℕ
  pub trace : List (ℕ × TracePhase)
  pub errors : List AnalysisError

-- The limits and collaborators of a loop. `elapsed` is the time since the start at an iteration.
pub record AgentLoop : Type 0 where
  pub planner : ℕ → LoopContext → Result PlannerDecision
  pub evaluator : ℕ → LoopContext → GateResult → Result EvaluatorDecision
  pub tools : Tools
  pub gate_threshold : ℕ
  pub elapsed : ℕ → ℕ
  pub max_iterations : ℕ
  pub max_tool_calls : ℕ
  pub timeout : ℕ

abbrev pub focused : Option QualityEvent → LoopContext → LoopContext
focused none c = c
focused (some e) c = record c {
  focus_event_id = or_else (truthy c.focus_event_id) (some e.event_id);
  focus_turn_ids = elim c.focus_turn_ids [ [] ↦ e.turn_ids | t ∷ ts ↦ t ∷ ts ];
}

abbrev pub with_window : LoopContext → LoopContext
with_window c = record c {
  evidence_window = elim c.evidence_window [
    | [] ↦ build_evidence_window c.transcript c.focus_turn_ids c.evidence_radius
    | t ∷ ts ↦ t ∷ ts
  ];
}

-- `_ensure_working_memory`
unfoldable pub ensure_working_memory : LoopContext → LoopContext
ensure_working_memory c = with_window (focused (select_focus_event c.report) c)

-- `decision["type"] not in no_tool_actions`, counted
abbrev pub count_tool : PlannerAction → ℕ → ℕ
count_tool PlannerAction.revise_report n = n
count_tool PlannerAction.finalize n = n
count_tool _ n = n + 1

abbrev pub budget_error : ℕ → AnalysisError
budget_error iterations = record {
  code = "LOOP_BUDGET_EXHAUSTED";
  stage = "AGENT_LOOP";
  message = "Agent Loop 未能在预算内取得可信结论";
  retryable = false;
  attempts = iterations;
}

abbrev pub exhausted : ℕ → ℕ → LoopContext → List (ℕ × TracePhase) → LoopResult
exhausted iterations calls c trace = record {
  status = human_review;
  report = c.report;
  iterations = iterations;
  tool_calls = calls;
  trace = trace;
  errors = budget_error iterations ∷ [];
}

abbrev pub finished : ℕ → ℕ → LoopContext → List (ℕ × TracePhase) → LoopResult
finished i calls c trace = record {
  status = completed;
  report = c.report;
  iterations = i;
  tool_calls = calls;
  trace = trace;
  errors = [];
}

abbrev pub is_pass : Verdict → Bool
is_pass pass = true
is_pass _ = false

abbrev pub is_human_review : Verdict → Bool
is_human_review human_review_required = true
is_human_review _ = false

-- What follows the iterations before: the tool calls, the context and the trace.
abbrev pub Next : Type 0
Next = ℕ → LoopContext → List (ℕ × TracePhase) → Result LoopResult

-- After the evaluation.
abbrev pub concluded :
    ℕ
    → ℕ
    → LoopContext
    → List (ℕ × TracePhase)
    → GateResult
    → EvaluatorDecision
    → Next
    → Result LoopResult
concluded i calls c trace gate e next =
    let trace' = trace ++ (i, evaluate) ∷ [] in
    if gate.passed && is_pass e.verdict
    then ok (finished i calls c (trace' ++ (i, finalized) ∷ []))
    else if is_human_review e.verdict
    then ok (exhausted i calls c trace')
    else next calls (record c { gaps = e.issues }) (trace' ++ (i, replan) ∷ [])

abbrev pub checked :
    AgentLoop → ℕ → ℕ → LoopContext → List (ℕ × TracePhase) → Next → Result LoopResult
checked l i calls c trace next =
    check l.tools.rules l.gate_threshold c.report c.transcript c.call_started_at none >>= λ gate.
    l.evaluator i c gate >>= λ e. concluded i calls c trace gate e next

-- One iteration.
abbrev pub iterate :
    AgentLoop → ℕ → ℕ → LoopContext → List (ℕ × TracePhase) → Next → Result LoopResult
iterate l i calls c trace next = l.planner i c >>= λ d. execute l.tools i d c >>= λ c'.
    checked l i (count_tool d.type calls) c' (trace ++ (i, plan) ∷ (i, act) ∷ (i, observe) ∷ [])
      next

abbrev pub is_over_budget : AgentLoop → ℕ → ℕ → Bool
is_over_budget l i calls = leb l.timeout (l.elapsed i) || leb l.max_tool_calls calls

-- The loop, with the number of iterations left; `i` iterations are done.
unfoldable pub iterations :
    AgentLoop → ℕ → ℕ → ℕ → LoopContext → List (ℕ × TracePhase) → Result LoopResult
iterations l zero i calls c trace = ok (exhausted i calls c trace)
iterations l (suc k) i calls c trace =
    if is_over_budget l (i + 1) calls
    then ok (exhausted i calls c trace)
    else iterate l (i + 1) calls c trace
        (λ calls' c' trace'. iterations l k (i + 1) calls' c' trace')

unfoldable pub run : AgentLoop → LoopContext → Result LoopResult
unfolding iterations ensure_working_memory
run l c = iterations l l.max_iterations 0 0 (ensure_working_memory c) []
