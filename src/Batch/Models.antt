-- ===== src/Batch/Models.antt =====
-- qc/batch/models.py: the statuses of a file and of a stage, the stage order and the allowed
-- transitions, and the records that the stores take. Times are instants counted in milliseconds
-- since the epoch.
use servicecheck.Base.{ℕ, String, ◌≡◌, Bool, true, false, Option, List, [], ◌∷◌, arith, ◌==◌}

pub data BatchFileStatus : Type 0 where
  pending running interrupted done failed_final dead_letter human_review : BatchFileStatus

pub data StageName : Type 0 where
  transcode asr emotion event_extract rag audit qc loop : StageName

pub data StageStatus : Type 0 where
  pending running done failed : StageStatus

-- Of the metadata, the fields that a store keeps.
pub record FileRecord : Type 0 where
  pub source_uri : String
  pub idempotency_key : String
  pub call_id : Option String
  pub sha256 : Option String
  pub size : Option ℕ

pub record BatchMeta : Type 0 where
  pub batch_id : String
  pub source : String
  pub total : ℕ
  pub created_at : ℕ

pub record StageRecord : Type 0 where
  pub stage : StageName
  pub status : StageStatus
  pub started_at : Option ℕ
  pub finished_at : Option ℕ
  pub duration_ms : ℕ
  pub attempts : ℕ
  pub artifact_uri : Option String
  pub sha256 : Option String
  pub producer_version : Option String
  pub error_code : Option String
  pub retryable : Option Bool
  pub error : Option String

-- Equality of enum members.
abbrev pub status_code : BatchFileStatus → ℕ
status_code BatchFileStatus.pending = 0
status_code BatchFileStatus.running = 1
status_code BatchFileStatus.interrupted = 2
status_code BatchFileStatus.done = 3
status_code BatchFileStatus.failed_final = 4
status_code BatchFileStatus.dead_letter = 5
status_code BatchFileStatus.human_review = 6

abbrev pub same_status : BatchFileStatus → BatchFileStatus → Bool
same_status s t = status_code s == status_code t

abbrev pub stage_code : StageName → ℕ
stage_code transcode = 0
stage_code asr = 1
stage_code emotion = 2
stage_code event_extract = 3
stage_code rag = 4
stage_code audit = 5
stage_code qc = 6
stage_code loop = 7

abbrev pub same_stage : StageName → StageName → Bool
same_stage s t = stage_code s == stage_code t

pub same_status→eq : (s t : BatchFileStatus) → same_status s t ≡ true → s ≡ t
same_status→eq s t h = ground arith

pub same_stage→eq : (s t : StageName) → same_stage s t ≡ true → s ≡ t
same_stage→eq s t h = ground arith

pub same_stage_refl : (s : StageName) → same_stage s s ≡ true
same_stage_refl s = ground arith

-- `target in VALID_FILE_TRANSITIONS[current]`
abbrev pub valid_transition : BatchFileStatus → BatchFileStatus → Bool
valid_transition BatchFileStatus.pending BatchFileStatus.running = true
valid_transition BatchFileStatus.interrupted BatchFileStatus.running = true
valid_transition BatchFileStatus.running BatchFileStatus.done = true
valid_transition BatchFileStatus.running BatchFileStatus.human_review = true
valid_transition BatchFileStatus.running BatchFileStatus.failed_final = true
valid_transition BatchFileStatus.running BatchFileStatus.interrupted = true
valid_transition _ _ = false

abbrev pub pipeline_stages : List StageName
pipeline_stages = transcode ∷ asr ∷ emotion ∷ event_extract ∷ rag ∷ audit ∷ qc ∷ []
