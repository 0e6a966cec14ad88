-- ===== src/Batch/Postgres/StageRuns.antt =====
-- Runs of stages on the batch of two records in the tables of `PostgresBatchStore`.
use servicecheck.Base.{◌≡◌, refl, true, key_error, state_conflict, ok, err}
use servicecheck.Batch.Models.{StageName}
use servicecheck.Batch.Store.Stages.{StageError}
use servicecheck.Batch.Postgres.Tables.{PgDb}
use servicecheck.Batch.Postgres.Stages.{get_stage_checkpoint, begin_stage, fail_stage, latest_stage}
use servicecheck.Batch.Postgres.Checkpoints.{begun_db, StageRuns, begin_stage-StageRuns}
use servicecheck.Batch.Postgres.Samples.{two_items}

-- The first item after one run of ASR that failed.
abbrev timeout_error : StageError
timeout_error = record { error_code = "TIMEOUT"; retryable = true; error = "slow"; duration_ms = 9 }

abbrev ran_once : PgDb
ran_once = begun_db 1 StageName.asr 20 two_items

failing : (r : PgDb) × (fail_stage 1 StageName.asr timeout_error 21 ran_once ≡ ok (tt, r))
unfolding fail_stage latest_stage
failing = (_, refl)

second_run : (r : PgDb) × (begin_stage 1 StageName.asr 22 ran_once ≡ ok (2, r))
unfolding begin_stage latest_stage get_stage_checkpoint
second_run = (_, refl)

no_item : begin_stage 9 StageName.asr 20 two_items ≡ err key_error
unfolding begin_stage
no_item = refl

never_begun : fail_stage 1 StageName.asr timeout_error 21 two_items ≡ err state_conflict
unfolding fail_stage latest_stage
never_begun = refl

begin_stage-StageRuns_example : StageRuns 1 StageName.asr 22 ran_once
begin_stage-StageRuns_example = begin_stage-StageRuns 1 StageName.asr 22 ran_once refl
