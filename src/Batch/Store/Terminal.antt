-- ===== src/Batch/Store/Terminal.antt =====
-- The status machine of `batch_files` under every operation, and its terminal statuses.
use servicecheck.Base.{ℕ, ◌≡◌, ap, ◌∙◌, true, some, List, [], ◌∷◌, arith, find}
use servicecheck.Batch.Store.Tables.{FileRow, Db}
use servicecheck.Batch.Store.Files.{has_id, is_final}
use servicecheck.Batch.Store.Stages.{record_stage}
use servicecheck.Batch.Store.Commands.{Command, exec, run}
use servicecheck.Batch.Store.Transitions.{
  Moves, Follows, Follows-refl, find-Follows, mark_interrupted_running-Follows, claim_file-Follows,
  set_file_status-Follows, finalize_file-Follows, add_file-Follows,
}
use servicecheck.Batch.Store.Untouched.{
  files-create_batch, files-create_batch_if_absent, files-begin_stage, files-complete_stage,
  files-fail_stage, files-invalidate_stages, files-begin_export, files-complete_export,
  files-fail_export,
}

Follows-of_eq : (xs ys : List FileRow) → ys ≡ xs → Follows xs ys
Follows-of_eq xs ys e = rw e (Follows-refl xs)

-- Whatever operation is called, returning or raising: each row of batch_files is still there, with
-- its id, batch, source and idempotency key, and is either the same row or has its status moved
-- along VALID_FILE_TRANSITIONS; any further row is new and PENDING.
pub exec-Follows : (c : Command) (db : Db) → Follows db.files (exec c db).files
unfolding exec
exec-Follows (Command.creates_batch m) db = Follows-of_eq _ _ (files-create_batch m db)
exec-Follows (Command.creates_batch_if_absent m) db =
    Follows-of_eq _ _ (files-create_batch_if_absent m db)
exec-Follows (Command.adds_file b r) db = add_file-Follows db b r
exec-Follows (Command.claims_file n s) db = claim_file-Follows db n s
exec-Follows (Command.sets_file_status n s r) db = set_file_status-Follows db n s r
exec-Follows (Command.finalizes_file n s q r w) db = finalize_file-Follows db n s q r w
exec-Follows (Command.marks_interrupted_running b) db = mark_interrupted_running-Follows db b
exec-Follows (Command.records_stage n s) db = unfold record_stage in (Follows-refl db.files)
exec-Follows (Command.begins_stage n s now) db = Follows-of_eq _ _ (files-begin_stage n s now db)
exec-Follows (Command.completes_stage n s a now) db =
    Follows-of_eq _ _ (files-complete_stage n s a now db)
exec-Follows (Command.fails_stage n s e now) db = Follows-of_eq _ _ (files-fail_stage n s e now db)
exec-Follows (Command.invalidates_stages n ss) db =
    Follows-of_eq _ _ (files-invalidate_stages n ss db)
exec-Follows (Command.begins_export k v) db = Follows-of_eq _ _ (files-begin_export k v db)
exec-Follows (Command.completes_export k v d) db =
    Follows-of_eq _ _ (files-complete_export k v d db)
exec-Follows (Command.fails_export k v c) db = Follows-of_eq _ _ (files-fail_export k v c db)

Moves-final : (f g : FileRow) → is_final f.status ≡ true → Moves f g → g ≡ f
Moves-final f g h m = ground arith

-- A file in a terminal status keeps its row, results included, through every run of operations.
pub run_final :
    (cs : List Command) (db : Db) (n : ℕ) (f : FileRow)
    → find (has_id n) db.files ≡ some f
    → is_final f.status ≡ true
    → find (has_id n) (run cs db).files ≡ some f
unfolding run
run_final [] db n f e h = e
run_final (c ∷ cs) db n f e h =
    let (g, found, moved) = find-Follows n db.files (exec c db).files f (exec-Follows c db) e in
    run_final cs (exec c db) n f (found ∙ ap some (Moves-final f g h moved)) h
