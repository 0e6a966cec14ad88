-- ===== src/Batch/Postgres/Stages.antt =====
-- The stages of `PostgresBatchStore`: a run of a stage is a row of its own, and its checkpoint is the
-- latest row. A change of a loaded row is written by its primary key.
use servicecheck.Base.{
  ℕ, ◌+◌, Option, none, some, List, [], ◌∷◌, ◌++◌, if◌then◌else◌, any, find_last, update, key_error,
  state_conflict, integrity_error, ok, err,
}
use servicecheck.Batch.Models.{StageName, running, StageRecord, pipeline_stages}
use servicecheck.Batch.Store.Tables.{StageRow}
use servicecheck.Batch.Store.Stages.{
  same_stage_status, is_for, row_is, new_stage, first_run, Artifact, set_done, StageError,
  set_failed, set_invalid, is_done_for,
}
use servicecheck.Batch.Postgres.Tables.{PgDb, is_item}
use servicecheck.Batch.Postgres.Jobs.{PgOutcome}

-- `_latest_stage`
unfoldable pub latest_stage : ℕ → StageName → PgDb → Option StageRow
latest_stage n stage db = find_last (is_for n stage) db.stages

abbrev pub insert_row : StageRow → PgDb → PgDb
insert_row r db = record db { stages = db.stages ++ r ∷ []; next_stage = db.next_stage + 1 }

-- A stage of an item that is not there violates a foreign key.
unfoldable pub record_stage : ℕ → StageRecord → PgDb → PgOutcome (Unit {0})
record_stage n s db =
    if any (is_item n) db.items
    then ok (tt, insert_row (new_stage db.next_stage n s) db)
    else err integrity_error

unfoldable pub get_stage_checkpoint : ℕ → StageName → PgDb → Option StageRow
unfolding latest_stage
get_stage_checkpoint n stage db = latest_stage n stage db

abbrev pub attempts_before : Option StageRow → ℕ
attempts_before none = 0
attempts_before (some r) = r.attempts

abbrev pub next_run : StageName → ℕ → ℕ → StageRecord
next_run stage now n = record (first_run stage now) { attempts = n }

unfoldable pub begin_stage : ℕ → StageName → ℕ → PgDb → PgOutcome ℕ
unfolding latest_stage
begin_stage n stage now db =
    let attempts = attempts_before (latest_stage n stage db) + 1 in
    if any (is_item n) db.items
    then ok (attempts, insert_row (new_stage db.next_stage n (next_run stage now attempts)) db)
    else err key_error

abbrev pub change_row : (StageRow → StageRow) → StageRow → PgDb → PgDb
change_row change r db = record db { stages = update (row_is r.id) change db.stages }

abbrev pub change_running : (StageRow → StageRow) → PgDb → Option StageRow → PgOutcome (Unit {0})
change_running change db none = err state_conflict
change_running change db (some r) =
    if same_stage_status r.status running
    then ok (tt, change_row change r db)
    else err state_conflict

unfoldable pub complete_stage : ℕ → StageName → Artifact → ℕ → PgDb → PgOutcome (Unit {0})
unfolding latest_stage
complete_stage n stage a now db = change_running (set_done a now) db (latest_stage n stage db)

unfoldable pub fail_stage : ℕ → StageName → StageError → ℕ → PgDb → PgOutcome (Unit {0})
unfolding latest_stage
fail_stage n stage e now db = change_running (set_failed e now) db (latest_stage n stage db)

abbrev pub invalidate_one : PgDb → Option StageRow → PgDb
invalidate_one db none = db
invalidate_one db (some r) = change_row set_invalid r db

unfoldable pub invalidate_stages : ℕ → List StageName → PgDb → PgDb
unfolding latest_stage
invalidate_stages n [] db = db
invalidate_stages n (stage ∷ stages) db =
    invalidate_stages n stages (invalidate_one db (latest_stage n stage db))

unfoldable pub last_completed_stage : ℕ → PgDb → Option StageName
last_completed_stage n db = find_last (λ s. any (is_done_for n s) db.stages) pipeline_stages
