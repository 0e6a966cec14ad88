-- ===== src/Batch/Ingest.antt =====
-- qc/batch/orchestrator.py, `BatchOrchestrator.ingest` and the choice of files in `resume` and
-- `_process`. What the source discovers is the list of records.
use servicecheck.Base.{
  ℕ, ◌+◌, String, Bool, true, ◌||◌, List, [], ◌∷◌, if◌then◌else◌, select, ok, ◌>>=◌,
}
use servicecheck.Batch.Models.{FileRecord, BatchMeta, pending, interrupted, same_status}
use servicecheck.Batch.Store.Tables.{Db, Outcome}
use servicecheck.Batch.Store.Files.{create_batch_if_absent, add_file, mark_interrupted_running}
use servicecheck.Batch.Store.Stages.{FileView}
use servicecheck.Batch.Store.Exports.{list_files, resume_candidates}

-- `for record in source.discover(): if self.store.add_file(...): added += 1`
unfoldable pub add_all : String → List FileRecord → ℕ → Db → Outcome ℕ
add_all batch [] added db = ok (added, db)
add_all batch (r ∷ rs) added db = add_file batch r db >>= λ (fresh, db').
    add_all batch rs (if fresh then added + 1 else added) db'

unfoldable pub ingest : String → List FileRecord → BatchMeta → Db → Outcome ℕ
ingest batch records meta db =
    create_batch_if_absent meta db >>= λ (_, db'). add_all batch records 0 db'

abbrev waits : FileView → Bool
waits f = same_status f.row.status pending || same_status f.row.status interrupted

-- The files that `_process` hands to the workers, with the tables they are read from.
unfoldable pub candidates : Bool → String → Db → List FileView
candidates resume batch db =
    if resume then resume_candidates batch db else select waits (list_files batch [] db)

unfoldable pub resume_from : String → Db → Outcome (List FileView)
unfolding candidates
resume_from batch db =
    mark_interrupted_running batch db >>= λ (_, db'). ok (candidates true batch db', db')
