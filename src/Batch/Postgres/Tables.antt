-- ===== src/Batch/Postgres/Tables.antt =====
-- The tables of `PostgresBatchStore`, from qc/orm_models.py, with the foreign keys that its
-- transactions meet. Rows stand in the order of insertion. A decoded JSON document is its text with
-- the `runId` of an object. Of the tables of calls and of runs only the keys are kept.
use servicecheck.Base.{ℕ, String, Bool, true, Option, none, some, List, ◌==◌, same, any}
use servicecheck.Batch.Board.ItemStore.{DeadLetter}
use servicecheck.Batch.Models.{BatchFileStatus, FileRecord}
use servicecheck.Batch.Store.Tables.{StageRow, ExportRow}
use servicecheck.Review.Tables.{ReviewDb}

pub data JobStatus : Type 0 where
  created queued running partial completed failed : JobStatus

pub record JobRow : Type 0 where
  pub batch_id : String
  pub source : String
  pub status : JobStatus
  pub total : ℕ
  pub created_at : ℕ
  pub started_at : Option ℕ
  pub finished_at : Option ℕ
  pub source_snapshot : Option (String × List FileRecord)

pub record Json : Type 0 where
  pub text : String
  pub run_id : Option String

pub record ItemRow : Type 0 where
  pub item_id : ℕ
  pub batch_id : String
  pub source_uri : String
  pub source_sha256 : Option String
  pub source_size : Option ℕ
  pub call_id : Option String
  pub idempotency_key : String
  pub status : BatchFileStatus
  pub failed_reason : Option String
  pub request_snapshot : Option Json
  pub result_snapshot : Option Json
  pub qc_run_id : Option String
  pub created_at : ℕ
  pub updated_at : ℕ

pub data OutboxStatus : Type 0 where
  pending published failed : OutboxStatus

-- The payload of an event, less the constants of its schema.
pub record ItemPayload : Type 0 where
  pub event_id : String
  pub batch_id : String
  pub item_id : ℕ
  pub idempotency_key : String

pub record OutboxRow : Type 0 where
  pub event_id : String
  pub payload : ItemPayload
  pub status : OutboxStatus
  pub attempts : ℕ
  pub available_at : ℕ
  pub published_at : Option ℕ
  pub redis_message_id : Option String
  pub last_error : Option String
  pub created_at : ℕ
  pub updated_at : ℕ

pub record CreationRow : Type 0 where
  pub idempotency_key : String
  pub batch_id : String
  pub request_hash : String
  pub created_at : ℕ

pub record DeadLetterRow : Type 0 where
  pub batch_id : String
  pub item_id : ℕ
  pub letter : DeadLetter
  pub created_at : ℕ

pub record PgDb : Type 0 where
  pub jobs : List JobRow
  pub items : List ItemRow
  pub stages : List StageRow
  pub exports : List ExportRow
  pub outbox : List OutboxRow
  pub requests : List CreationRow
  pub dead_letters : List DeadLetterRow
  pub calls : List String
  pub runs : List String
  pub reviews : ReviewDb
  pub next_item : ℕ
  pub next_stage : ℕ
  pub next_export : ℕ

abbrev pub is_job : String → JobRow → Bool
is_job b j = same j.batch_id b

abbrev pub is_item : ℕ → ItemRow → Bool
is_item n i = i.item_id == n

abbrev pub is_event : String → OutboxRow → Bool
is_event e o = same o.event_id e

-- A nullable foreign key.
abbrev pub refers : Option String → List String → Bool
refers none keys = true
refers (some k) keys = any (same k) keys
