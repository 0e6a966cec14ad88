-- ===== src/Batch/Store/Commands.antt =====
-- The writing operations of `BatchStore` as data, so that what every operation keeps is one
-- statement over all of them, and runs are lists of them.
use servicecheck.Base.{ℕ, String, Option, List, [], ◌∷◌, after}
use servicecheck.Batch.Models.{StageName, FileRecord, BatchMeta, StageRecord}
use servicecheck.Batch.Store.Tables.{Db}
use servicecheck.Batch.Store.Files
use servicecheck.Batch.Store.Files.{StatusArg}
use servicecheck.Batch.Store.Stages
use servicecheck.Batch.Store.Stages.{Artifact, StageError}
use servicecheck.Batch.Store.Exports
use servicecheck.Batch.Store.Exports.{ExportKey}

pub data Command : Type 0 where
  creates_batch : BatchMeta → Command
  creates_batch_if_absent : BatchMeta → Command
  adds_file : String → FileRecord → Command
  claims_file : ℕ → StatusArg → Command
  sets_file_status : ℕ → StatusArg → Option String → Command
  finalizes_file : ℕ → StatusArg → String → String → Option String → Command
  marks_interrupted_running : String → Command
  records_stage : ℕ → StageRecord → Command
  begins_stage : ℕ → StageName → ℕ → Command
  completes_stage : ℕ → StageName → Artifact → ℕ → Command
  fails_stage : ℕ → StageName → StageError → ℕ → Command
  invalidates_stages : ℕ → List StageName → Command
  begins_export : ExportKey → String → Command
  completes_export : ExportKey → String → String → Command
  fails_export : ExportKey → String → String → Command

-- The tables after a call, whether it returns or raises.
unfoldable pub exec : Command → Db → Db
exec (creates_batch m) db = after (Files.create_batch m db) db
exec (creates_batch_if_absent m) db = after (Files.create_batch_if_absent m db) db
exec (adds_file b r) db = after (Files.add_file b r db) db
exec (claims_file n s) db = after (Files.claim_file n s db) db
exec (sets_file_status n s r) db = after (Files.set_file_status n s r db) db
exec (finalizes_file n s q r w) db = after (Files.finalize_file n s q r w db) db
exec (marks_interrupted_running b) db = after (Files.mark_interrupted_running b db) db
exec (records_stage n s) db = Stages.record_stage n s db
exec (begins_stage n s now) db = (Stages.begin_stage n s now db).1
exec (completes_stage n s a now) db = after (Stages.complete_stage n s a now db) db
exec (fails_stage n s e now) db = after (Stages.fail_stage n s e now db) db
exec (invalidates_stages n ss) db = Stages.invalidate_stages n ss db
exec (begins_export k v) db = Exports.begin_export k v db
exec (completes_export k v d) db = after (Exports.complete_export k v d db) db
exec (fails_export k v c) db = Exports.fail_export k v c db

unfoldable pub run : List Command → Db → Db
run [] db = db
run (c ∷ cs) db = run cs (exec c db)
