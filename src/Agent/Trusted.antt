-- ===== src/Agent/Trusted.antt =====
-- What a result of the agent loop (qc/agent_loop.py) means, and the budgets it keeps.
use servicecheck.Base.{
  ℕ, zero, suc, ◌+◌, ◌≤◌, ◌<◌, String, ◌≡◌, refl, ◌∙◌, subst, inl, inr, ◌&&◌, Option, none, some,
  List, [], ◌∷◌, ◌++◌, arith, truthy, Bool-cases, ok-inj, select, ok, >>=-eq-ok,
}
use servicecheck.Quality.Models.{DateTime, QualityEvent, TranscriptTurn}
use servicecheck.Quality.Score.{calculate_score}
use servicecheck.Quality.Gate.{GateResult}
use servicecheck.Quality.Check.{check, turn_ids_of}
use servicecheck.Quality.Released.{passed-IsJustified, IsJustified}
use servicecheck.Agent.Window.{select_focus_event}
use servicecheck.Agent.Executor.{
  LoopContext, PlannerAction, Tools, focus_event, expand, query_of, search_focus, has_evidence,
  revise, execute,
}
use servicecheck.Agent.Loop.{
  EvaluatorDecision, TracePhase, plan, act, observe, evaluate, replan, LoopStatus, completed,
  human_review, LoopResult, AgentLoop, focused, ensure_working_memory, count_tool, budget_error,
  exhausted, is_pass, is_human_review, Next, concluded, iterate, is_over_budget, iterations, run,
}

-- The parts of the context that no action changes.
abbrev pub SameCall : LoopContext → LoopContext → Type 0
SameCall c c' = (c'.transcript ≡ c.transcript) × (c'.call_started_at ≡ c.call_started_at)

search_focus-SameCall :
    (tools : Tools) (k : ℕ) (reason : String) (c : LoopContext) (o : Option QualityEvent)
    {c' : LoopContext}
    → search_focus tools k reason c o ≡ ok c'
    → SameCall c c'
search_focus-SameCall tools k reason c none h = rw⁻¹ (ok-inj h) (refl, refl)
search_focus-SameCall tools k reason c (some e) h =
    let (hits, found, same_c) =
      >>=-eq-ok (tools.search k (query_of (truthy (some reason)) e).0 e.type c.call_started_at 5) _
        h in
    rw⁻¹ (ok-inj same_c) (refl, refl)

action-SameCall :
    (tools : Tools) (k : ℕ) (a : PlannerAction) (reason : String) (c : LoopContext)
    {c' : LoopContext}
    → execute tools k (record { type = a; reason = reason }) c ≡ ok c'
    → SameCall c c'
unfolding execute expand revise
action-SameCall tools k PlannerAction.expand_context reason c h = rw⁻¹ (ok-inj h) (refl, refl)
action-SameCall tools k PlannerAction.search_knowledge reason c h =
    search_focus-SameCall tools k reason c (focus_event c) h
action-SameCall tools k PlannerAction.query_action_audit reason c h =
    let (a, found, same_c) = >>=-eq-ok (tools.fetch_snapshot k c.report.call_id) _ h in
    rw⁻¹ (ok-inj same_c) (refl, refl)
action-SameCall tools k PlannerAction.revise_report reason c h =
    let (s, found, same_c) =
      >>=-eq-ok
        (calculate_score (select (has_evidence (turn_ids_of c.transcript)) c.report.violations)
          tools.rules c.call_started_at c.report.events)
        _ h in
    rw⁻¹ (ok-inj same_c) (refl, refl)
action-SameCall tools k PlannerAction.finalize reason c h = rw⁻¹ (ok-inj h) (refl, refl)

count_tool_bound : (a : PlannerAction) (n : ℕ) → count_tool a n ≤ n + 1
count_tool_bound PlannerAction.expand_context n = omega arith
count_tool_bound PlannerAction.search_knowledge n = omega arith
count_tool_bound PlannerAction.query_action_audit n = omega arith
count_tool_bound PlannerAction.revise_report n = omega arith
count_tool_bound PlannerAction.finalize n = omega arith

module _ (l : AgentLoop) (t : List TranscriptTurn) (at : DateTime) where
  -- A COMPLETED result has a justified report and no error; another has the error of the budget.
  abbrev pub MeansAt : LoopStatus → LoopResult → Type 0
  MeansAt completed r = IsJustified l.tools.rules r.report t at l.gate_threshold × (r.errors ≡ [])
  MeansAt human_review r = r.errors ≡ budget_error r.iterations ∷ []

  pub record IsTrusted (lo hi : ℕ) (r : LoopResult) : Type 0 where
    pub at_least : lo ≤ r.iterations
    pub at_most : r.iterations ≤ hi
    pub tools_bound : r.tool_calls ≤ l.max_tool_calls
    pub tools_each : r.tool_calls ≤ r.iterations
    pub means : MeansAt r.status r

  abbrev OfCall : LoopContext → Type 0
  OfCall c = (c.transcript ≡ t) × (c.call_started_at ≡ at)

  abbrev Continues : ℕ → ℕ → Next → Type 0
  Continues i hi next =
      (calls : ℕ) (c : LoopContext) (trace : List (ℕ × TracePhase)) (r : LoopResult)
      → calls ≤ i
      → calls ≤ l.max_tool_calls
      → OfCall c
      → next calls c trace ≡ ok r
      → IsTrusted i hi r

  exhausted-IsTrusted :
      (i hi calls : ℕ) (c : LoopContext) (trace : List (ℕ × TracePhase))
      → i ≤ hi
      → calls ≤ i
      → calls ≤ l.max_tool_calls
      → IsTrusted i hi (exhausted i calls c trace)
  exhausted-IsTrusted i hi calls c trace h a b = record {
    at_least = omega arith;
    at_most = h;
    tools_bound = b;
    tools_each = a;
    means = refl;
  }

  concluded-IsTrusted :
      (i hi calls : ℕ) (c : LoopContext) (trace : List (ℕ × TracePhase)) (gate : GateResult)
      (e : EvaluatorDecision) (next : Next) {r : LoopResult}
      → i ≤ hi
      → calls ≤ i
      → calls ≤ l.max_tool_calls
      → OfCall c
      → check l.tools.rules l.gate_threshold c.report c.transcript c.call_started_at none ≡ ok gate
      → Continues i hi next
      → concluded i calls c trace gate e next ≡ ok r
      → IsTrusted i hi r
  concluded-IsTrusted i hi calls c trace gate e next {r} h a b same_call checks rest k =
      elim (Bool-cases (gate.passed && is_pass e.verdict)) [
        | inl p ↦ subst (IsTrusted i hi) (ok-inj (rw p at k)) (record {
          at_least = omega arith;
          at_most = h;
          tools_bound = b;
          tools_each = a;
          means = (
            passed-IsJustified l.tools.rules l.gate_threshold c.report t at none gate
                (rw (same_call.0, same_call.1) at checks) (ground arith),
            refl,
          );
        })
        | inr p ↦ elim (Bool-cases (is_human_review e.verdict)) [
          | inl q ↦
              subst (IsTrusted i hi) (ok-inj (rw (p, q) at k))
                (exhausted-IsTrusted i hi calls c (trace ++ (i, evaluate) ∷ []) h a b)
          | inr q ↦
              rest calls (record c { gaps = e.issues })
                ((trace ++ (i, evaluate) ∷ []) ++ (i, replan) ∷ []) r a b same_call (rw (p, q) at k)
        ]
      ]

  iterate-IsTrusted :
      (i hi calls : ℕ) (c : LoopContext) (trace : List (ℕ × TracePhase)) (next : Next)
      {r : LoopResult}
      → i ≤ hi
      → calls < i
      → calls < l.max_tool_calls
      → OfCall c
      → Continues i hi next
      → iterate l i calls c trace next ≡ ok r
      → IsTrusted i hi r
  iterate-IsTrusted i hi calls c trace next h a b same_call rest k =
      let (d, decided, k1) = >>=-eq-ok (l.planner i c) _ k in
      let (c', acted, k2) = >>=-eq-ok (execute l.tools i d c) _ k1 in
      let (gate, checks, k3) =
        >>=-eq-ok
          (check l.tools.rules l.gate_threshold c'.report c'.transcript c'.call_started_at none) _
          k2 in
      let (e, evaluated, k4) = >>=-eq-ok (l.evaluator i c' gate) _ k3 in
      let bound = count_tool_bound d.type calls in
      let kept = action-SameCall l.tools i d.type d.reason c acted in
      concluded-IsTrusted i hi (count_tool d.type calls) c'
        (trace ++ (i, plan) ∷ (i, act) ∷ (i, observe) ∷ []) gate e next h (omega (arith, bound))
        (omega (arith, bound)) (kept.0 ∙ same_call.0, kept.1 ∙ same_call.1) checks rest k4

  weaken : (i hi hi' : ℕ) (r : LoopResult) → hi ≡ hi' → IsTrusted (i + 1) hi r → IsTrusted i hi' r
  weaken i hi hi' r e s = record {
    at_least = omega (arith, s.at_least);
    at_most = omega (arith, s.at_most, e);
    tools_bound = s.tools_bound;
    tools_each = s.tools_each;
    means = s.means;
  }

  iterations-IsTrusted :
      (k i calls : ℕ) (c : LoopContext) (trace : List (ℕ × TracePhase)) {r : LoopResult}
      → calls ≤ i
      → calls ≤ l.max_tool_calls
      → OfCall c
      → iterations l k i calls c trace ≡ ok r
      → IsTrusted i (i + k) r
  unfolding iterations
  iterations-IsTrusted zero i calls c trace a b same_call h =
      subst (IsTrusted i (i + 0)) (ok-inj h)
        (exhausted-IsTrusted i (i + 0) calls c trace (omega arith) a b)
  iterations-IsTrusted (suc k) i calls c trace {r} a b same_call h =
      elim (Bool-cases (is_over_budget l (i + 1) calls)) [
        | inl o ↦
            subst (IsTrusted i (i + suc k)) (ok-inj (rw o at h))
              (exhausted-IsTrusted i (i + suc k) calls c trace (omega arith) a b)
        | inr o ↦ weaken i (i + 1 + k) (i + suc k) r (omega arith) (
            iterate-IsTrusted (i + 1) (i + 1 + k) calls c trace
              (λ calls' c' trace'. iterations l k (i + 1) calls' c' trace') (omega arith)
              (omega arith) (ground arith) same_call
              (λ calls' c' trace' r' a' b' s' h'.
                iterations-IsTrusted k (i + 1) calls' c' trace' a' b' s' h')
              (rw o at h))
      ]

focused-SameCall : (o : Option QualityEvent) (c : LoopContext) → SameCall c (focused o c)
focused-SameCall none c = (refl, refl)
focused-SameCall (some e) c = (refl, refl)

-- A result of `run`, whatever the planner, the evaluator, the tools and the clock do: it takes at most the
-- limits of iterations and of tool calls, and at most one tool call per iteration. When it is COMPLETED, its
-- report is justified as the gate demands of the transcript at the start of the call, and there is no error;
-- otherwise it asks for review, with the one error that the budget is exhausted.
pub run-IsTrusted :
    (l : AgentLoop) (c : LoopContext) {r : LoopResult}
    → run l c ≡ ok r
    → IsTrusted l c.transcript c.call_started_at 0 l.max_iterations r
unfolding run ensure_working_memory
run-IsTrusted l c {r} h =
    let kept = focused-SameCall (select_focus_event c.report) c in
    let s =
      iterations-IsTrusted l c.transcript c.call_started_at l.max_iterations 0 0
        (ensure_working_memory c) [] (omega arith) (omega arith) kept h in
    record {
      at_least = s.at_least;
      at_most = omega (arith, s.at_most);
      tools_bound = s.tools_bound;
      tools_each = s.tools_each;
      means = s.means;
    }
