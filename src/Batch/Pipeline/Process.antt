-- ===== src/Batch/Pipeline/Process.antt =====
-- qc/batch/pipeline.py, `process_file`: one file through its four stages. The audio runner, the quality
-- service, the artifact store, the JSON of requests and results and the validation of requests are
-- parameters.
use servicecheck.Base.{
  ℕ, ◌+◌, max, String, ◌⊎◌, inl, inr, Bool, true, false, Option, none, some, if◌then◌else◌,
  value_error, ℤ, pos_part,
}
use servicecheck.Batch.Models.{BatchFileStatus, StageName, transcode, asr, emotion, qc}
use servicecheck.Batch.Pipeline.Retry.{Raised, structured, RetryPolicy}
use servicecheck.Batch.Pipeline.Checkpoint.{
  Surroundings, World, tick, BatchStageFailure, Ended, returned, failed, crashed, out_of_fuel,
  Stored,
}
use servicecheck.Batch.Pipeline.Execute.{Budget, execute_stage}
use servicecheck.Batch.Pipeline.Analysis.{AnalysisResult, validate_quality_result, final_status}

pub record FileResult : Type 0 where
  pub status : BatchFileStatus
  pub request_json : String
  pub result_json : String
  pub failed_reason : Option BatchStageFailure
  pub llm_request_count : ℕ

-- The artifacts of one kind of value.
pub record Artifacts (V : Type 0) : Type 0 where
  pub read : String → String → String → Option V
  pub put : V → String → Raised ⊎ Stored V

-- What the run of a file uses. The number is that of the call.
pub record Services (Wav Turns Emotion : Type 0) : Type 0 where
  pub monotonic : ℕ → ℕ
  pub utc_now : ℕ → ℕ
  pub wavs : Artifacts Wav
  pub transcripts : Artifacts Turns
  pub emotions : Artifacts Emotion
  pub analyses : Artifacts AnalysisResult
  pub producer_version : StageName → String
  pub run_transcode : ℕ → Raised ⊎ Wav
  pub run_asr : Wav → ℕ → Raised ⊎ Turns
  pub run_emotion : Wav → ℕ → Raised ⊎ Emotion
  pub analyze : Turns → ℕ → Raised ⊎ AnalysisResult
  pub is_request : Turns → Bool
  pub request_json : Turns → String
  pub result_json : AnalysisResult → String

pub record Limits : Type 0 where
  pub max_attempts : ℤ
  pub retry_policy : Option RetryPolicy
  pub stage_timeout : Option ℕ
  pub run_deadline : Option ℕ

abbrev pub failed_result : String → BatchStageFailure → FileResult
failed_result request f = record {
  status = BatchFileStatus.failed_final;
  request_json = request;
  result_json = "";
  failed_reason = some f;
  llm_request_count = 0;
}

-- A stage under `except BatchStageFailure`.
abbrev pub then_run :
    {A : Type 0} → String → Ended A → (A → World → Ended FileResult) → Ended FileResult
then_run request (returned v w) next = next v w
then_run request (failed f w) next = returned (failed_result request f) w
then_run request (crashed e w) next = crashed e w
then_run request (out_of_fuel w) next = out_of_fuel w

abbrev pub bind_raised : {A B : Type 0} → Raised ⊎ A → (A → Raised ⊎ B) → Raised ⊎ B
bind_raised (inl e) f = inl e
bind_raised (inr a) f = f a

module _ {Wav Turns Emotion : Type 0} (s : Services Wav Turns Emotion) (limits : Limits)
    (n : ℕ) where
  abbrev pub surroundings_of : {V : Type 0} → Artifacts V → (ℕ → Raised ⊎ V) → Surroundings V
  surroundings_of artifacts work = record {
    monotonic = s.monotonic;
    utc_now = s.utc_now;
    read_artifact = λ stage. artifacts.read;
    put_artifact = λ stage. artifacts.put;
    action = work;
  }

  -- `max(1, int(max_attempts))`
  abbrev pub budget : Option ℕ → Budget
  budget deadline = record {
    max_attempts = max 1 (pos_part limits.max_attempts);
    retry_policy = limits.retry_policy;
    stage_timeout = limits.stage_timeout;
    run_deadline_at = deadline;
  }

  abbrev pub run_stage :
      {V : Type 0}
      → Option ℕ
      → StageName
      → String
      → Artifacts V
      → (ℕ → Raised ⊎ V)
      → World
      → Ended V
  run_stage deadline stage version artifacts work w =
      execute_stage (surroundings_of artifacts work) (budget deadline) n stage version w

  -- The transcript, if it makes a valid request.
  abbrev pub checked_asr : Wav → ℕ → Raised ⊎ Turns
  checked_asr wav k = bind_raised (s.run_asr wav k) (λ t.
      if s.is_request t then inr t else inl (structured "MODEL_INVALID_OUTPUT" "ASR 输出结构非法" false))

  abbrev pub run_quality : Turns → ℕ → Raised ⊎ AnalysisResult
  run_quality turns k = bind_raised (s.analyze turns k) validate_quality_result

  abbrev pub finish : Turns → AnalysisResult → World → Ended FileResult
  finish turns a w =
      returned
        record {
          status = final_status a.status a.report;
          request_json = s.request_json turns;
          result_json = s.result_json a;
          failed_reason = none;
          llm_request_count = 1;
        }
        w

  abbrev pub quality_stage : Option ℕ → Turns → World → Ended FileResult
  quality_stage deadline turns w =
      then_run (s.request_json turns)
        (run_stage deadline qc "batch-qc-v1" s.analyses (run_quality turns) w) (finish turns)

  -- The request is built outside of a stage: a transcript that makes none raises a ValueError.
  abbrev pub request_or_raise : Option ℕ → Turns → World → Bool → Ended FileResult
  request_or_raise deadline turns w true = quality_stage deadline turns w
  request_or_raise deadline turns w false = crashed value_error w

  abbrev pub emotion_stage : Option ℕ → Wav → Turns → World → Ended FileResult
  emotion_stage deadline wav turns w =
      then_run ""
        (run_stage deadline emotion (s.producer_version emotion) s.emotions (s.run_emotion wav) w)
        (λ _ w'. request_or_raise deadline turns w' (s.is_request turns))

  abbrev pub asr_stage : Option ℕ → Wav → World → Ended FileResult
  asr_stage deadline wav w =
      then_run ""
        (run_stage deadline asr (s.producer_version asr) s.transcripts (checked_asr wav) w)
        (λ turns w'. emotion_stage deadline wav turns w')

  abbrev pub from_deadline : Option ℕ → World → Ended FileResult
  from_deadline deadline w =
      then_run ""
        (run_stage deadline transcode (s.producer_version transcode) s.wavs s.run_transcode w)
        (λ wav w'. asr_stage deadline wav w')

  abbrev pub with_deadline : Option ℕ → World → Ended FileResult
  with_deadline none w = from_deadline none w
  with_deadline (some t) w = from_deadline (some (s.monotonic w.readings + t)) (tick w)

  unfoldable pub process_file : World → Ended FileResult
  process_file w = with_deadline limits.run_deadline w
