-- ===== src/Batch/Postgres/Exports.antt =====
-- The table `batch_exports` of `PostgresBatchStore`, and the times of a batch.
use servicecheck.Base.{
  ℕ, ◌+◌, String, ◌&&◌, Option, none, some, [], ◌∷◌, ◌++◌, ◌==◌, if◌then◌else◌, any, find, update,
  count, state_conflict, integrity_error, ok, err,
}
use servicecheck.Batch.Models.{BatchFileStatus, running, failed, same_status}
use servicecheck.Batch.Store.Tables.{ExportRow}
use servicecheck.Batch.Store.Exports.{
  ExportKey, has_export_key, new_export, set_export, export_runs, set_exported,
}
use servicecheck.Batch.Postgres.Tables.{JobRow, PgDb, is_job}
use servicecheck.Batch.Postgres.Jobs.{PgOutcome, in_job}

-- INSERT ... ON CONFLICT ON CONSTRAINT uq_batch_exports_identity DO UPDATE; the batch is a foreign key.
abbrev pub upsert_export :
    ExportKey → ExportRow → (ExportRow → ExportRow) → PgDb → PgOutcome (Unit {0})
upsert_export k row change db =
    if any (has_export_key k) db.exports
    then ok (tt, record db { exports = update (has_export_key k) change db.exports })
    else if any (is_job k.batch_id) db.jobs
    then ok (tt, record db { exports = db.exports ++ row ∷ []; next_export = db.next_export + 1 })
    else err integrity_error

unfoldable pub begin_export : ExportKey → String → PgDb → PgOutcome (Unit {0})
begin_export k version db =
    upsert_export k (new_export db.next_export k running version none)
      (set_export running version none) db

unfoldable pub complete_export : ExportKey → String → String → PgDb → PgOutcome (Unit {0})
complete_export k version digest db =
    if count (export_runs k) db.exports == 1
    then ok (
      tt,
      record db { exports = update (export_runs k) (set_exported version digest) db.exports },
    )
    else err state_conflict

unfoldable pub fail_export : ExportKey → String → String → PgDb → PgOutcome (Unit {0})
fail_export k version code db =
    upsert_export k (new_export db.next_export k failed version (some code))
      (set_export failed version (some code)) db

unfoldable pub get_export_record : ExportKey → PgDb → Option ExportRow
get_export_record k db = find (has_export_key k) db.exports

abbrev started_of : Option JobRow → Option ℕ
started_of none = none
started_of (some j) = j.started_at

abbrev finished_of : Option JobRow → Option ℕ
finished_of none = none
finished_of (some j) = j.finished_at

unfoldable pub batch_started_at : String → PgDb → Option ℕ
batch_started_at b db = started_of (find (is_job b) db.jobs)

unfoldable pub batch_finished_at : String → PgDb → Option ℕ
batch_finished_at b db = finished_of (find (is_job b) db.jobs)

-- One entry of `by_status`.
unfoldable pub count_status : String → BatchFileStatus → PgDb → ℕ
count_status b s db = count (λ i. in_job b i && same_status i.status s) db.items

-- `total`, the sum of the groups.
unfoldable pub batch_total : String → PgDb → ℕ
batch_total b db = count (in_job b) db.items
