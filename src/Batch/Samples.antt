-- ===== src/Batch/Samples.antt =====
-- Concrete tables of a batch, runs on them, and the theorems at these inputs.
use servicecheck.Base.{
  ℕ, ◌+◌, ◌≡◌, refl, true, false, none, some, List, [], ◌∷◌, arith, same, length, find, value_error,
  state_conflict, ok, err, after,
}
use servicecheck.Batch.Models.{
  BatchFileStatus, pending, running, interrupted, done, human_review, failed_final, dead_letter,
  asr, qc, StageStatus, FileRecord, BatchMeta,
}
use servicecheck.Batch.Store.Tables.{FileRow, StageRow, Db, empty_db}
use servicecheck.Batch.Store.Files.{
  StatusArg, member, raw, claim_file, finalize_file, has_id, status_value, parse_status,
}
use servicecheck.Batch.Store.Stages.{
  Artifact, StageError, begin_stage, complete_stage, fail_stage, get_stage_checkpoint, FileView,
  last_completed_stage,
}
use servicecheck.Batch.Store.Exports.{batch_summary, list_files}
use servicecheck.Batch.Ingest.{ingest, resume_from}
use servicecheck.Batch.Store.Commands.{Command, exec, run}
use servicecheck.Batch.Store.Transitions.{Follows}
use servicecheck.Batch.Store.Validity.{IsValid}
use servicecheck.Batch.Store.Terminal.{exec-Follows, run_final}
use servicecheck.Batch.Store.Invariant.{exec-IsValid}
use servicecheck.Batch.Store.Exclusive.{claim_exclusive, finalize_once, claims}
use servicecheck.Batch.Store.Checkpoints.{begin_stage-IsFresh, IsFresh, attempts_of}
use servicecheck.Batch.Store.Completion.{
  complete_stage-Settles, fail_stage-Settles, stages-Apart, Settles, IsDone, IsFailed,
}
use servicecheck.Batch.Store.Counts.{ingest_twice}
use servicecheck.Batch.Store.Restart.{batch_summary_total, resume_from_counts}

abbrev night : BatchMeta
night = record { batch_id = "night"; source = "audio"; total = 2; created_at = 10 }

abbrev first_call : FileRecord
first_call = record {
  source_uri = "a.wav";
  idempotency_key = "k1";
  call_id = none;
  sha256 = none;
  size = none;
}

abbrev second_call : FileRecord
second_call = record {
  source_uri = "b.wav";
  idempotency_key = "k2";
  call_id = some "C2";
  sha256 = none;
  size = none;
}

abbrev first_file : BatchFileStatus → FileRow
first_file s = record {
  file_id = 1;
  batch_id = "night";
  source_uri = "a.wav";
  call_id = none;
  idempotency_key = "k1";
  status = s;
  failed_reason = none;
  request_json = none;
  result_json = none;
}

abbrev second_file : FileRow
second_file = record {
  file_id = 2;
  batch_id = "night";
  source_uri = "b.wav";
  call_id = some "C2";
  idempotency_key = "k2";
  status = done;
  failed_reason = none;
  request_json = some "{}";
  result_json = some "{}";
}

abbrev asr_row : StageStatus → StageRow
asr_row s = record {
  id = 1;
  file_id = 1;
  stage = asr;
  status = s;
  started_at = some 20;
  finished_at = none;
  duration_ms = 0;
  attempts = 1;
  artifact_uri = none;
  sha256 = none;
  producer_version = none;
  error_code = none;
  retryable = none;
  error = none;
}

abbrev night_db : BatchFileStatus → StageStatus → Db
night_db s q = record {
  batches =
      record { batch_id = "night"; source = "audio"; created_at = 10; started_at = 10; total = 2 }
      ∷ [];
  files = first_file s ∷ second_file ∷ [];
  stages = asr_row q ∷ [];
  exports = [];
  next_file = 3;
  next_stage = 2;
  next_export = 1;
}

night_db-IsValid : (s : BatchFileStatus) (q : StageStatus) → IsValid (night_db s q)
unfolding same
night_db-IsValid s q = record {
  files_ascend = omega arith;
  stages_ascend = omega arith;
  exports_ascend = omega arith;
  batches_unique = (refl, tt);
  keys_unique = (refl, (refl, tt));
  exports_unique = tt;
}

abbrev transcript : Artifact
transcript = record {
  artifact_uri = "batch/night/1/transcript.json";
  sha256 = "ab12";
  producer_version = "asr-v1";
  duration_ms = 900;
}

abbrev timeout : StageError
timeout = record {
  error_code = "UPSTREAM_TIMEOUT";
  retryable = true;
  error = "timeout";
  duration_ms = 300;
}

-- A status that is no member is refused, and a file that runs is not claimed.
claim_unknown :
    claim_file 1 (raw "SLEEPING") (night_db pending StageStatus.running) ≡ err value_error
unfolding claim_file status_value parse_status same
claim_unknown = refl

claimed :
    claim_file 1 (raw "PENDING") (night_db pending StageStatus.running)
    ≡ ok (true, night_db running StageStatus.running)
unfolding claim_file status_value parse_status same
claimed = refl

last_stage : last_completed_stage 1 (night_db running StageStatus.done) ≡ some asr
unfolding last_completed_stage
last_stage = refl

exec-Follows_example :
    Follows
      (night_db pending StageStatus.running).files
      (exec (Command.claims_file 1 (raw "PENDING")) (night_db pending StageStatus.running)).files
exec-Follows_example =
    exec-Follows (Command.claims_file 1 (raw "PENDING")) (night_db pending StageStatus.running)

abbrev meddling : List Command
meddling =
    Command.claims_file 2 (raw "DONE")
    ∷ Command.finalizes_file 2 (member failed_final) "" "" none
    ∷ Command.sets_file_status 2 (member interrupted) (some "late")
    ∷ Command.marks_interrupted_running "night"
    ∷ []

run_final_example :
    find (has_id 2) (run meddling (night_db running StageStatus.running)).files ≡ some second_file
run_final_example =
    run_final meddling (night_db running StageStatus.running) 2 second_file refl refl

exec-IsValid_example :
    IsValid (exec (Command.adds_file "night" first_call) (night_db pending StageStatus.running))
exec-IsValid_example =
    exec-IsValid (Command.adds_file "night" first_call) (night_db pending StageStatus.running)
      (night_db-IsValid pending StageStatus.running)

abbrev rivals : List (ℕ × StatusArg)
rivals = (1, raw "INTERRUPTED") ∷ (2, raw "PENDING") ∷ []

claim_exclusive_example :
    claim_file 1 (raw "INTERRUPTED") (run (claims rivals) (night_db running StageStatus.running))
    ≡ ok (false, run (claims rivals) (night_db running StageStatus.running))
claim_exclusive_example =
    claim_exclusive (night_db pending StageStatus.running) 1 (raw "PENDING") (raw "INTERRUPTED")
      rivals {s = interrupted} (night_db-IsValid pending StageStatus.running) claimed
      (unfold status_value parse_status same in refl)

finalize_once_example :
    (d : Db) × (finalize_file 1
        (member human_review)
        "req"
        "res"
        none
        (night_db running StageStatus.running)
      ≡ ok (tt, d))
    × (finalize_file 1 (member done) "req" "res2" none d ≡ err state_conflict)
    × ((f : FileRow) × (find (has_id 1) d.files ≡ some f)
        × (f.status ≡ human_review)
        × (f.request_json ≡ some "req")
        × (f.result_json ≡ some "res")
        × (f.failed_reason ≡ none))
finalize_once_example =
    finalize_once (night_db pending StageStatus.running) 1 (raw "PENDING") human_review done "req"
      "res" "req" "res2" none none (night_db-IsValid pending StageStatus.running) claimed refl refl

begin_stage-IsFresh_example :
    ((begin_stage 1 asr 30 (night_db running StageStatus.failed)).0
      ≡ attempts_of (get_stage_checkpoint 1 asr (night_db running StageStatus.failed)) + 1)
    × ((r : StageRow) × (get_stage_checkpoint 1 asr
            (begin_stage 1 asr 30 (night_db running StageStatus.failed)).1
          ≡ some r)
        × IsFresh (begin_stage 1 asr 30 (night_db running StageStatus.failed)).0 30 r)
begin_stage-IsFresh_example = begin_stage-IsFresh 1 asr 30 (night_db running StageStatus.failed)

complete_stage-Settles_example :
    Settles 1 asr
      (IsDone transcript 40)
      (night_db running StageStatus.running)
      (complete_stage 1 asr transcript 40 (night_db running StageStatus.running))
complete_stage-Settles_example =
    complete_stage-Settles 1 asr transcript 40 (night_db running StageStatus.running)
      (night_db-IsValid running StageStatus.running)

fail_stage-Settles_example :
    Settles 1 asr
      (IsFailed timeout 40)
      (night_db running StageStatus.done)
      (fail_stage 1 asr timeout 40 (night_db running StageStatus.done))
fail_stage-Settles_example =
    fail_stage-Settles 1 asr timeout 40 (night_db running StageStatus.done)
      (night_db-IsValid running StageStatus.done)

stages-Apart_example :
    let db = night_db running StageStatus.running in
    (get_stage_checkpoint 1 asr (begin_stage 1 qc 50 db).1 ≡ get_stage_checkpoint 1 asr db)
    × (get_stage_checkpoint 1 asr (after (complete_stage 1 qc transcript 50 db) db)
        ≡ get_stage_checkpoint 1 asr db)
    × (get_stage_checkpoint 1 asr (after (fail_stage 1 qc timeout 50 db) db)
        ≡ get_stage_checkpoint 1 asr db)
stages-Apart_example =
    stages-Apart 1 qc 1 asr 50 transcript timeout (night_db running StageStatus.running)
      (night_db-IsValid running StageStatus.running) refl

abbrev both_calls : List FileRecord
both_calls = first_call ∷ second_call ∷ first_call ∷ []

ingest_twice_example :
    (n : ℕ) × (d : Db) × (ingest "night" both_calls night empty_db ≡ ok (n, d))
    × (length d.files ≡ length empty_db.files + n)
    × (ingest "night" both_calls night d ≡ ok (0, d))
ingest_twice_example = ingest_twice night both_calls empty_db

batch_summary_total_example :
    let s = batch_summary "night" (night_db running StageStatus.running) in
    (s.total ≡ length (list_files "night" [] (night_db running StageStatus.running)))
    × (s.total
        ≡ s.by_status pending
          + s.by_status running
          + s.by_status interrupted
          + s.by_status done
          + s.by_status human_review
          + s.by_status failed_final
          + s.by_status dead_letter)
    × ((t : BatchFileStatus)
        → s.by_status t
          ≡ length (list_files "night" (t ∷ []) (night_db running StageStatus.running)))
batch_summary_total_example = batch_summary_total "night" (night_db running StageStatus.running)

resume_from_counts_example :
    let db = night_db running StageStatus.running in
    (fs : List FileView) × (d : Db) × (resume_from "night" db ≡ ok (fs, d))
    × ((batch_summary "night" d).by_status running ≡ 0)
    × (length fs
        ≡ (batch_summary "night" db).by_status pending
          + (batch_summary "night" db).by_status interrupted
          + (batch_summary "night" db).by_status running)
    × ((s : BatchFileStatus)
        → (s ≡ running → ⊥)
        → (s ≡ interrupted → ⊥)
        → (batch_summary "night" d).by_status s ≡ (batch_summary "night" db).by_status s)
resume_from_counts_example = resume_from_counts "night" (night_db running StageStatus.running)
