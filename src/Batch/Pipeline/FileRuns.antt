-- ===== src/Batch/Pipeline/FileRuns.antt =====
-- A concrete run of a file, and the theorem on it.
use servicecheck.Base.{
  ℕ, zero, suc, ◌+◌, ◌*◌, String, ◌≡◌, refl, ◌⊎◌, inl, inr, Bool, true, Option, none, some, [],
  same, pos,
}
use servicecheck.Quality.Models.{QualityReport, not_checked, auto_pass}
use servicecheck.Batch.Models.{BatchFileStatus}
use servicecheck.Batch.Store.Tables.{empty_db}
use servicecheck.Batch.Store.Validity.{empty_db-IsValid}
use servicecheck.Batch.Store.Stages.{
  latest, get_stage_checkpoint, begin_stage, complete_stage, fail_stage, invalidate_stages,
}
use servicecheck.Batch.Pipeline.Retry.{Raised, timeout, classify_error, should_retry}
use servicecheck.Batch.Pipeline.Checkpoint.{World, Ended, returned, load}
use servicecheck.Batch.Pipeline.Execute.{attempts_loop, execute_stage}
use servicecheck.Batch.Pipeline.Analysis.{AnalysisResult, ExecutionStatus, validate_quality_result}
use servicecheck.Batch.Pipeline.Process.{FileResult, Artifacts, Services, Limits, process_file}
use servicecheck.Batch.Pipeline.Processed.{FileEnds, process_file-FileEnds}

abbrev clean_report : QualityReport
clean_report = record {
  call_id = "C1";
  score = pos 100;
  events = [];
  violations = [];
  knowledge_hits = [];
  audit_snapshot = none;
  business_fact = not_checked;
  disposition = auto_pass;
  pending_review_issues = [];
}

abbrev analysis_with : ExecutionStatus → AnalysisResult
analysis_with s = record { run_id = "R1"; status = s; report = some clean_report; errors = [] }

abbrev keep_nothing : {V : Type 0} → String → Artifacts V
keep_nothing uri = record {
  read = λ u d v. none;
  put = λ value version. inr record { uri = uri; sha256 = "0"; value = value };
}

-- The speech recognition times out once: it is the second call of the run.
abbrev slow_asr : ℕ → Raised ⊎ Bool
slow_asr (suc zero) = inl (timeout "rate limit")
slow_asr k = inr true

abbrev services : ExecutionStatus → Services Bool Bool Bool
services s = record {
  monotonic = λ k. k * 5;
  utc_now = λ k. 1000 + k;
  wavs = keep_nothing "w";
  transcripts = keep_nothing "t";
  emotions = keep_nothing "e";
  analyses = keep_nothing "a";
  producer_version = λ stage. "v1";
  run_transcode = λ k. inr true;
  run_asr = λ wav. slow_asr;
  run_emotion = λ wav k. inr true;
  analyze = λ turns k. inr (analysis_with s);
  is_request = λ turns. turns;
  request_json = λ turns. "request";
  result_json = λ a. "result";
}

abbrev limits : Limits
limits = record {
  max_attempts = pos 3;
  retry_policy = none;
  stage_timeout = some 100;
  run_deadline = some 1000;
}

abbrev fresh : World
fresh = record { db = empty_db; readings = 0; calls = 0 }

abbrev status_of : Ended FileResult → Option BatchFileStatus × ℕ
status_of (returned r w) = (some r.status, w.calls)
status_of _ = (none, 0)

-- A complete analysis ends DONE, after five calls; a partial one is for review, and a failed one fails.
three_files :
    (status_of (process_file (services ExecutionStatus.completed) limits 1 fresh)
      ≡ (some BatchFileStatus.done, 5))
    × (status_of (process_file (services ExecutionStatus.partial) limits 1 fresh)
        ≡ (some BatchFileStatus.human_review, 5))
    × (status_of (process_file (services ExecutionStatus.failed) limits 1 fresh)
        ≡ (some BatchFileStatus.failed_final, 5))
unfolding process_file execute_stage attempts_loop load latest get_stage_checkpoint begin_stage
    complete_stage fail_stage invalidate_stages classify_error should_retry validate_quality_result
    empty_db same
three_files = (refl, refl, refl)

process_file-FileEnds_example :
    FileEnds
      (services ExecutionStatus.completed)
      limits
      1
      12
      (process_file (services ExecutionStatus.completed) limits 1 fresh)
process_file-FileEnds_example =
    process_file-FileEnds (services ExecutionStatus.completed) limits 1 fresh empty_db-IsValid
