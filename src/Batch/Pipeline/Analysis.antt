-- ===== src/Batch/Pipeline/Analysis.antt =====
-- qc/batch/pipeline.py, `_validate_quality_result`, and the status that `process_file` gives a file.
use servicecheck.Base.{
  String, ◌⊎◌, inl, inr, Bool, true, false, Option, none, some, List, [], ◌∷◌, if◌then◌else◌, all,
}
use servicecheck.Quality.Models.{AnalysisError, QualityReport, human_review_required}
use servicecheck.Batch.Models.{BatchFileStatus}
use servicecheck.Batch.Pipeline.Retry.{Raised, structured}

pub data ExecutionStatus : Type 0 where
  running completed partial failed : ExecutionStatus

pub record AnalysisResult : Type 0 where
  pub run_id : String
  pub status : ExecutionStatus
  pub report : Option QualityReport
  pub errors : List AnalysisError

abbrev pub require_review : QualityReport → QualityReport
require_review r = record r { disposition = human_review_required }

abbrev pub report_missing : Raised
report_missing = structured "QC_REPORT_MISSING" "质检结果缺少报告" false

abbrev pub analysis_failed : List AnalysisError → Raised
analysis_failed [] = structured "QC_FAILED" "质检分析失败" false
analysis_failed (e ∷ es) = structured e.code e.message (all (λ x. x.retryable) (e ∷ es))

abbrev pub validated :
    AnalysisResult → ExecutionStatus → Option QualityReport → Raised ⊎ AnalysisResult
validated a ExecutionStatus.completed none = inl report_missing
validated a ExecutionStatus.completed (some r) = inr a
validated a ExecutionStatus.partial none = inl report_missing
validated a ExecutionStatus.partial (some r) = inr (record a { report = some (require_review r) })
validated a ExecutionStatus.failed o = inl (analysis_failed a.errors)
validated a ExecutionStatus.running o = inl (structured "QC_INVALID_STATUS" "质检结果状态非法" false)

unfoldable pub validate_quality_result : AnalysisResult → Raised ⊎ AnalysisResult
validate_quality_result a = validated a a.status a.report

abbrev pub asks_review : Option QualityReport → Bool
asks_review none = false
asks_review (some r) = elim r.disposition [ human_review_required ↦ true | _ ↦ false ]

abbrev pub final_status : ExecutionStatus → Option QualityReport → BatchFileStatus
final_status ExecutionStatus.partial o = BatchFileStatus.human_review
final_status _ o = if asks_review o then BatchFileStatus.human_review else BatchFileStatus.done
