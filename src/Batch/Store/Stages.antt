-- ===== src/Batch/Store/Stages.antt =====
-- The operations of `BatchStore` on the table `file_stages`, and the reads that join it.
use servicecheck.Base.{
  ℕ, ◌+◌, String, Bool, true, false, ◌&&◌, Option, none, some, List, [], ◌∷◌, ◌++◌, map, ◌==◌,
  if◌then◌else◌, any, select, find, find_last, update, count, key_error, state_conflict, Result, ok,
  err, ◌>>=◌,
}
use servicecheck.Batch.Models.{
  StageName, StageStatus, pending, running, done, failed, StageRecord, same_stage, pipeline_stages,
}
use servicecheck.Batch.Store.Tables.{FileRow, StageRow, Db, Outcome}

abbrev pub stage_status_code : StageStatus → ℕ
stage_status_code StageStatus.pending = 0
stage_status_code StageStatus.running = 1
stage_status_code StageStatus.done = 2
stage_status_code StageStatus.failed = 3

abbrev pub same_stage_status : StageStatus → StageStatus → Bool
same_stage_status s t = stage_status_code s == stage_status_code t

abbrev pub is_for : ℕ → StageName → StageRow → Bool
is_for n stage r = r.file_id == n && same_stage r.stage stage

-- `ORDER BY id DESC LIMIT 1`
unfoldable pub latest : ℕ → StageName → Db → Option StageRow
latest n stage db = find_last (is_for n stage) db.stages

abbrev started : StageStatus → Bool
started StageStatus.pending = false
started _ = true

-- `_stage_row`: a row of an old database with no count was tried once.
abbrev pub normal_attempts : StageRow → ℕ
normal_attempts r = if r.attempts == 0 && started r.status then 1 else r.attempts

abbrev pub stage_row : StageRow → StageRow
stage_row r = record r { attempts = normal_attempts r }

abbrev map_row : Option StageRow → Option StageRow
map_row none = none
map_row (some r) = some (stage_row r)

unfoldable pub get_stage_checkpoint : ℕ → StageName → Db → Option StageRow
unfolding latest
get_stage_checkpoint n stage db = map_row (latest n stage db)

abbrev pub new_stage : ℕ → ℕ → StageRecord → StageRow
new_stage i n s = record {
  id = i;
  file_id = n;
  stage = s.stage;
  status = s.status;
  started_at = s.started_at;
  finished_at = s.finished_at;
  duration_ms = s.duration_ms;
  attempts = s.attempts;
  artifact_uri = s.artifact_uri;
  sha256 = s.sha256;
  producer_version = s.producer_version;
  error_code = s.error_code;
  retryable = s.retryable;
  error = s.error;
}

abbrev pub insert_stage : StageRow → Db → Db
insert_stage r db = record db { stages = db.stages ++ r ∷ []; next_stage = db.next_stage + 1 }

unfoldable pub record_stage : ℕ → StageRecord → Db → Db
record_stage n s db = insert_stage (new_stage db.next_stage n s) db

abbrev pub first_run : StageName → ℕ → StageRecord
first_run stage now = record {
  stage = stage;
  status = running;
  started_at = some now;
  finished_at = none;
  duration_ms = 0;
  attempts = 1;
  artifact_uri = none;
  sha256 = none;
  producer_version = none;
  error_code = none;
  retryable = none;
  error = none;
}

abbrev pub run_again : ℕ → ℕ → StageRow → StageRow
run_again now n r = record r {
  status = running;
  started_at = some now;
  finished_at = none;
  duration_ms = 0;
  attempts = n;
  artifact_uri = none;
  sha256 = none;
  producer_version = none;
  error_code = none;
  retryable = none;
  error = none;
}

abbrev pub row_is : ℕ → StageRow → Bool
row_is i r = r.id == i

abbrev pub begin_from : ℕ → StageName → ℕ → Db → Option StageRow → ℕ × Db
begin_from n stage now db none =
    (1, insert_stage (new_stage db.next_stage n (first_run stage now)) db)
begin_from n stage now db (some r) =
    let attempts = normal_attempts r + 1 in
    (attempts, record db { stages = update (row_is r.id) (run_again now attempts) db.stages })

unfoldable pub begin_stage : ℕ → StageName → ℕ → Db → ℕ × Db
unfolding latest
begin_stage n stage now db = begin_from n stage now db (latest n stage db)

-- WHERE id = ? AND status = 'RUNNING'
abbrev pub runs : ℕ → StageRow → Bool
runs i r = r.id == i && same_stage_status r.status running

abbrev pub update_running : (StageRow → StageRow) → Db → Option StageRow → Outcome (Unit {0})
update_running change db none = err state_conflict
update_running change db (some r) =
    if count (runs r.id) db.stages == 1
    then ok (tt, record db { stages = update (runs r.id) change db.stages })
    else err state_conflict

pub record Artifact : Type 0 where
  pub artifact_uri : String
  pub sha256 : String
  pub producer_version : String
  pub duration_ms : ℕ

abbrev pub set_done : Artifact → ℕ → StageRow → StageRow
set_done a now r = record r {
  status = done;
  finished_at = some now;
  duration_ms = a.duration_ms;
  artifact_uri = some a.artifact_uri;
  sha256 = some a.sha256;
  producer_version = some a.producer_version;
  error_code = none;
  retryable = none;
  error = none;
}

unfoldable pub complete_stage : ℕ → StageName → Artifact → ℕ → Db → Outcome (Unit {0})
unfolding get_stage_checkpoint
complete_stage n stage a now db =
    update_running (set_done a now) db (get_stage_checkpoint n stage db)

pub record StageError : Type 0 where
  pub error_code : String
  pub retryable : Bool
  pub error : String
  pub duration_ms : ℕ

abbrev pub set_failed : StageError → ℕ → StageRow → StageRow
set_failed e now r = record r {
  status = failed;
  finished_at = some now;
  duration_ms = e.duration_ms;
  error_code = some e.error_code;
  retryable = some e.retryable;
  error = some e.error;
}

unfoldable pub fail_stage : ℕ → StageName → StageError → ℕ → Db → Outcome (Unit {0})
unfolding get_stage_checkpoint
fail_stage n stage e now db = update_running (set_failed e now) db (get_stage_checkpoint n stage db)

abbrev pub set_invalid : StageRow → StageRow
set_invalid r = record r {
  status = pending;
  artifact_uri = none;
  sha256 = none;
  producer_version = none;
  finished_at = none;
  error_code = none;
  retryable = none;
  error = none;
}

abbrev pub invalidate_row : Db → Option StageRow → Db
invalidate_row db none = db
invalidate_row db (some r) = record db { stages = update (row_is r.id) set_invalid db.stages }

unfoldable pub invalidate_stages : ℕ → List StageName → Db → Db
unfolding latest
invalidate_stages n [] db = db
invalidate_stages n (stage ∷ stages) db =
    invalidate_stages n stages (invalidate_row db (latest n stage db))

-- The dictionary of `_file_row_with_stages`.
pub record FileView : Type 0 where
  pub row : FileRow
  pub stages : List StageRow

unfoldable pub file_row_with_stages : Db → FileRow → FileView
file_row_with_stages db f = record {
  row = f;
  stages = map stage_row (select (λ r. r.file_id == f.file_id) db.stages);
}

abbrev pub or_key_error {ℓ} : {A : Type ℓ} → Option A → Result A
or_key_error (some a) = ok a
or_key_error none = err key_error

unfoldable pub get_file : ℕ → Db → Result FileView
unfolding file_row_with_stages
get_file n db =
    or_key_error (find (λ f. f.file_id == n) db.files) >>= λ f. ok (file_row_with_stages db f)

abbrev pub is_done_for : ℕ → StageName → StageRow → Bool
is_done_for n stage r =
    r.file_id == n && same_stage_status r.status done && same_stage r.stage stage

-- `for stage in reversed(PIPELINE_STAGES): if stage in completed_names: return stage`
abbrev last_in : (StageName → Bool) → List StageName → Option StageName
last_in completed = find_last completed

unfoldable pub last_completed_stage : ℕ → Db → Option StageName
last_completed_stage n db = last_in (λ s. any (is_done_for n s) db.stages) pipeline_stages
