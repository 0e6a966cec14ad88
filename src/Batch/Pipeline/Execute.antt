-- ===== src/Batch/Pipeline/Execute.antt =====
-- qc/batch/pipeline.py, `execute_stage`: one stage of one file, with its budgets and retries.
use servicecheck.Base.{
  ℕ, zero, suc, ◌+◌, ◌-◌, String, ◌⊎◌, inl, inr, Bool, true, false, not, ◌&&◌, ◌||◌, Option, none,
  some, List, [], ◌∷◌, ltb, leb, if◌then◌else◌, ok, err, pos,
}
use servicecheck.Batch.Models.{StageName, StageStatus, transcode, asr, emotion, qc}
use servicecheck.Batch.Store.Tables.{StageRow, Db, Outcome}
use servicecheck.Batch.Store.Stages.{
  StageError, get_stage_checkpoint, begin_stage, fail_stage, invalidate_stages, same_stage_status,
}
use servicecheck.Batch.Pipeline.Retry.{
  Raised, structured, StageFailure, classify_error, RetryPolicy, should_retry, attempt_limit,
}
use servicecheck.Batch.Pipeline.Checkpoint.{
  Surroundings, World, tick, with_db, BatchStageFailure, Ended, returned, failed, crashed,
  out_of_fuel, given, load, complete,
}

-- _DOWNSTREAM; the stages that are no key of it are never executed.
abbrev pub downstream : StageName → List StageName
downstream transcode = asr ∷ emotion ∷ qc ∷ []
downstream asr = qc ∷ []
downstream _ = []

-- The budgets of a stage; a missing policy retries at once.
pub record Budget : Type 0 where
  pub max_attempts : ℕ
  pub retry_policy : Option RetryPolicy
  pub stage_timeout : Option ℕ
  pub run_deadline_at : Option ℕ

abbrev pub policy_of : Budget → RetryPolicy
policy_of b = elim b.retry_policy [
  | none ↦ record {
    max_attempts = pos b.max_attempts;
    initial_delay = pos 0;
    max_delay = pos 0;
    jitter = pos 0;
  }
  | some p ↦ p
]

-- `limit is not None and instant >= limit`
abbrev pub reached : Option ℕ → ℕ → Bool
reached none t = false
reached (some d) t = leb d t

abbrev pub exceeded : Option ℕ → ℕ → Bool
exceeded none t = false
exceeded (some d) t = ltb d t

abbrev pub deadline_code : String
deadline_code = "RUN_DEADLINE_EXCEEDED"

abbrev pub deadline_message : String
deadline_message = "单文件处理超过总时间预算"

abbrev pub deadline_raised : Raised
deadline_raised = structured deadline_code deadline_message false

abbrev pub timeout_raised : Raised
timeout_raised = structured "STAGE_TIMEOUT" "阶段执行超过时间预算" true

abbrev pub call : World → World
call w = record w { calls = w.calls + 1 }

abbrev pub or_text : String → Option String → String
or_text d none = d
or_text d (some s) = s

-- `value or default`
abbrev pub text_or : String → Option String → String
text_or d o = or_text d (given o)

abbrev pub is_true : Option Bool → Bool
is_true none = false
is_true (some b) = b

module _ {V : Type 0} (env : Surroundings V) (b : Budget) (n : ℕ) (stage : StageName)
    (version : String) where
  -- The action, once called: `started` is when the attempt began.
  abbrev pub after_call : ℕ → Raised ⊎ V → World → (Raised ⊎ V) × World
  after_call started (inl e) w = (inl e, w)
  after_call started (inr v) w =
      let finished = env.monotonic w.readings in
      if reached b.run_deadline_at finished
      then (inl deadline_raised, tick w)
      else if exceeded b.stage_timeout (finished - started)
      then (inl timeout_raised, tick w)
      else complete env n stage version (finished - started) v (tick w)

  -- The body of the `try`.
  abbrev pub attempt : ℕ → World → (Raised ⊎ V) × World
  attempt started w =
      if reached b.run_deadline_at started
      then (inl deadline_raised, w)
      else after_call started (env.action w.calls) (call w)

  abbrev pub failure_of : StageFailure → ℕ → BatchStageFailure
  failure_of c attempts = record {
    code = c.code;
    stage = c.stage;
    message = c.message;
    retryable = c.retryable;
    attempts = attempts;
  }

  abbrev pub error_of : StageFailure → ℕ → StageError
  error_of c duration = record {
    error_code = c.code;
    retryable = c.retryable;
    error = c.message;
    duration_ms = duration;
  }

  -- `if retry_policy.should_retry(...): continue` and `raise failure`
  abbrev pub again_or_fail : (World → Ended V) → ℕ → StageFailure → World → Bool → Ended V
  again_or_fail again attempts c w true = again w
  again_or_fail again attempts c w false = failed (failure_of c attempts) w

  -- The body of the `except`, after `checkpoints.fail`.
  abbrev pub retried : (World → Ended V) → ℕ → StageFailure → World → Outcome (Unit {0}) → Ended V
  retried again attempts c w (err e) = crashed e w
  retried again attempts c w (ok (_, d)) =
      again_or_fail again attempts c (with_db d w) (should_retry (policy_of b) c attempts)

  abbrev pub settle : (World → Ended V) → ℕ → ℕ → (Raised ⊎ V) × World → Ended V
  settle again attempts started (inr v, w) = returned v w
  settle again attempts started (inl e, w) =
      let c = classify_error e stage in
      retried again attempts c (tick w) (
        fail_stage n stage (error_of c (env.monotonic w.readings - started))
          (env.utc_now w.readings) w.db)

  abbrev pub round : (World → Ended V) → World → ℕ × Db → Ended V
  round again w (attempts, d) =
      settle again attempts (env.monotonic w.readings)
        (attempt (env.monotonic w.readings) (tick (with_db d w)))

  -- `while True`, for as many rounds as the fuel allows; the pause between them is left out.
  unfoldable pub attempts_loop : ℕ → World → Ended V
  attempts_loop zero w = out_of_fuel w
  attempts_loop (suc fuel) w =
      round (attempts_loop fuel) w (begin_stage n stage (env.utc_now w.readings) w.db)

  abbrev pub from_start : ℕ → World → Ended V
  from_start fuel w = attempts_loop fuel (with_db (invalidate_stages n (downstream stage) w.db) w)

  abbrev pub is_exhausted : StageRow → Bool
  is_exhausted r =
      same_stage_status r.status StageStatus.failed
      && (not (is_true r.retryable) || leb b.max_attempts r.attempts)

  abbrev pub previous_failure : StageRow → BatchStageFailure
  previous_failure r = record {
    code = text_or "INTERNAL_ERROR" r.error_code;
    stage = stage;
    message = text_or "批量阶段失败" r.error;
    retryable = is_true r.retryable;
    attempts = r.attempts;
  }

  abbrev pub unless_spent : ℕ → World → StageRow → Bool → Ended V
  unless_spent fuel w r true = failed (previous_failure r) w
  unless_spent fuel w r false = from_start fuel w

  abbrev pub from_previous : ℕ → World → Option StageRow → Ended V
  from_previous fuel w none = from_start fuel w
  from_previous fuel w (some r) = unless_spent fuel w r (is_exhausted r)

  abbrev pub from_cache : ℕ → World → Option V → Ended V
  from_cache fuel w (some v) = returned v w
  from_cache fuel w none = from_previous fuel w (get_stage_checkpoint n stage w.db)

  abbrev pub loaded : ℕ → World → Ended V
  loaded fuel w = from_cache fuel w (load env n stage version w.db)

  abbrev pub before_deadline : ℕ → World → Option ℕ → Ended V
  before_deadline fuel w none = loaded fuel w
  before_deadline fuel w (some d) = elim (leb d (env.monotonic w.readings)) [
    | true ↦
        failed
          record {
            code = deadline_code;
            stage = stage;
            message = deadline_message;
            retryable = false;
            attempts = 0;
          }
          (tick w)
    | false ↦ loaded fuel (tick w)
  ]

  -- The fuel is the limit of the attempts.
  unfoldable pub execute_stage : World → Ended V
  unfolding attempts_loop
  execute_stage w = before_deadline (attempt_limit (policy_of b)) w b.run_deadline_at
