-- ===== src/Batch/Store/Tables.antt =====
-- The tables of qc/batch/store.py (`_initialize`), with the counters of AUTOINCREMENT, and the
-- effects of an operation: a transaction that is rolled back when the operation raises.
-- Rows stand in the order of their ids, which is the order of insertion.
use servicecheck.Base.{ℕ, String, Bool, Option, List, [], Result}
use servicecheck.Batch.Models.{BatchFileStatus, StageName, StageStatus}

pub record BatchRow : Type 0 where
  pub batch_id : String
  pub source : String
  pub created_at : ℕ
  pub started_at : ℕ
  pub total : ℕ

pub record FileRow : Type 0 where
  pub file_id : ℕ
  pub batch_id : String
  pub source_uri : String
  pub call_id : Option String
  pub idempotency_key : String
  pub status : BatchFileStatus
  pub failed_reason : Option String
  pub request_json : Option String
  pub result_json : Option String

pub record StageRow : Type 0 where
  pub id : ℕ
  pub file_id : ℕ
  pub stage : StageName
  pub status : StageStatus
  pub started_at : Option ℕ
  pub finished_at : Option ℕ
  pub duration_ms : ℕ
  pub attempts : ℕ
  pub artifact_uri : Option String
  pub sha256 : Option String
  pub producer_version : Option String
  pub error_code : Option String
  pub retryable : Option Bool
  pub error : Option String

pub record ExportRow : Type 0 where
  pub export_id : ℕ
  pub batch_id : String
  pub format : String
  pub artifact_uri : String
  pub status : StageStatus
  pub sha256 : Option String
  pub producer_version : String
  pub error_code : Option String

pub record Db : Type 0 where
  pub batches : List BatchRow
  pub files : List FileRow
  pub stages : List StageRow
  pub exports : List ExportRow
  pub next_file : ℕ
  pub next_stage : ℕ
  pub next_export : ℕ

unfoldable pub empty_db : Db
empty_db = record {
  batches = [];
  files = [];
  stages = [];
  exports = [];
  next_file = 1;
  next_stage = 1;
  next_export = 1;
}

-- What an operation returns, with the tables after it.
abbrev pub Outcome : Type 0 → Type 0
Outcome A = Result (A × Db)
