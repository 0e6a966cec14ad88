-- ===== src/Batch/Store/Untouched.antt =====
-- The operations of `BatchStore` that leave `batch_files` as it is.
use servicecheck.Base.{ℕ, String, ◌≡◌, refl, ◌∙◌, Option, none, some, List, [], ◌∷◌, arith, after}
use servicecheck.Batch.Models.{StageName}
use servicecheck.Batch.Store.Tables.{StageRow, Db}
use servicecheck.Batch.Store.Files.{create_batch, create_batch_if_absent}
use servicecheck.Batch.Store.Stages.{
  begin_stage, complete_stage, fail_stage, invalidate_stages, latest, get_stage_checkpoint,
  invalidate_row, update_running,
}
use servicecheck.Batch.Store.Exports.{begin_export, complete_export, fail_export, ExportKey}

files-update_running :
    (f : StageRow → StageRow) (db : Db) (r : Option StageRow)
    → (after (update_running f db r) db).files ≡ db.files
files-update_running f db r = ground arith

pub files-invalidate_stages :
    (n : ℕ) (ss : List StageName) (db : Db) → (invalidate_stages n ss db).files ≡ db.files
unfolding invalidate_stages
files-invalidate_stages n [] db = refl
files-invalidate_stages n (s ∷ ss) db =
    files-invalidate_stages n ss (invalidate_row db (latest n s db))
    ∙ files-invalidate_row db (latest n s db)
  where
    files-invalidate_row : (d : Db) (r : Option StageRow) → (invalidate_row d r).files ≡ d.files
    files-invalidate_row d none = refl
    files-invalidate_row d (some r) = refl

pub files-create_batch : (m : _) (db : Db) → (after (create_batch m db) db).files ≡ db.files
unfolding create_batch
files-create_batch m db = ground arith

pub files-create_batch_if_absent :
    (m : _) (db : Db) → (after (create_batch_if_absent m db) db).files ≡ db.files
unfolding create_batch_if_absent
files-create_batch_if_absent m db = ground arith

pub files-begin_stage :
    (n : ℕ) (s : StageName) (now : ℕ) (db : Db) → (begin_stage n s now db).1.files ≡ db.files
unfolding begin_stage
files-begin_stage n s now db = ground arith

pub files-complete_stage :
    (n : ℕ) (s : StageName) (a : _) (now : ℕ) (db : Db)
    → (after (complete_stage n s a now db) db).files ≡ db.files
unfolding complete_stage
files-complete_stage n s a now db = files-update_running _ db (get_stage_checkpoint n s db)

pub files-fail_stage :
    (n : ℕ) (s : StageName) (e : _) (now : ℕ) (db : Db)
    → (after (fail_stage n s e now db) db).files ≡ db.files
unfolding fail_stage
files-fail_stage n s e now db = files-update_running _ db (get_stage_checkpoint n s db)

pub files-begin_export :
    (k : ExportKey) (v : String) (db : Db) → (begin_export k v db).files ≡ db.files
unfolding begin_export
files-begin_export k v db = ground arith

pub files-complete_export :
    (k : ExportKey) (v d : String) (db : Db)
    → (after (complete_export k v d db) db).files ≡ db.files
unfolding complete_export
files-complete_export k v d db = ground arith

pub files-fail_export :
    (k : ExportKey) (v c : String) (db : Db) → (fail_export k v c db).files ≡ db.files
unfolding fail_export
files-fail_export k v c db = ground arith
