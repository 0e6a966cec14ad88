-- ===== src/Batch/Store/Exports.antt =====
-- The operations of `BatchStore` on the table `batch_exports`, and the summaries of a batch.
use servicecheck.Base.{
  ℕ, ◌+◌, String, Bool, true, not, ◌&&◌, ◌||◌, Option, none, some, List, [], ◌∷◌, ◌++◌, map, ltb,
  ◌==◌, if◌then◌else◌, same, any, select, find, update, count, state_conflict, ok, err,
}
use servicecheck.Batch.Models.{
  BatchFileStatus, StageStatus, running, done, failed, pending, interrupted, same_status,
}
use servicecheck.Batch.Store.Tables.{BatchRow, FileRow, StageRow, ExportRow, Db, Outcome}
use servicecheck.Batch.Store.Files.{is_final}
use servicecheck.Batch.Store.Stages.{same_stage_status, FileView, file_row_with_stages}

-- The columns of UNIQUE(batch_id, format, artifact_uri).
pub record ExportKey : Type 0 where
  pub batch_id : String
  pub format : String
  pub artifact_uri : String

abbrev pub has_export_key : ExportKey → ExportRow → Bool
has_export_key k e =
    same e.batch_id k.batch_id && same e.format k.format && same e.artifact_uri k.artifact_uri

-- INSERT ... ON CONFLICT DO UPDATE
abbrev pub upsert : ExportKey → ExportRow → (ExportRow → ExportRow) → Db → Db
upsert k row change db =
    if any (has_export_key k) db.exports
    then record db { exports = update (has_export_key k) change db.exports }
    else record db { exports = db.exports ++ row ∷ []; next_export = db.next_export + 1 }

abbrev pub new_export : ℕ → ExportKey → StageStatus → String → Option String → ExportRow
new_export n k s version code = record {
  export_id = n;
  batch_id = k.batch_id;
  format = k.format;
  artifact_uri = k.artifact_uri;
  status = s;
  sha256 = none;
  producer_version = version;
  error_code = code;
}

abbrev pub set_export : StageStatus → String → Option String → ExportRow → ExportRow
set_export s version code e = record e {
  status = s;
  sha256 = none;
  producer_version = version;
  error_code = code;
}

unfoldable pub begin_export : ExportKey → String → Db → Db
begin_export k version db =
    upsert k (new_export db.next_export k running version none) (set_export running version none) db

abbrev pub export_runs : ExportKey → ExportRow → Bool
export_runs k e = has_export_key k e && same_stage_status e.status running

abbrev pub set_exported : String → String → ExportRow → ExportRow
set_exported version digest e = record e {
  status = done;
  sha256 = some digest;
  producer_version = version;
  error_code = none;
}

unfoldable pub complete_export : ExportKey → String → String → Db → Outcome (Unit {0})
complete_export k version digest db =
    if count (export_runs k) db.exports == 1
    then ok (
      tt,
      record db { exports = update (export_runs k) (set_exported version digest) db.exports },
    )
    else err state_conflict

unfoldable pub fail_export : ExportKey → String → String → Db → Db
fail_export k version code db =
    upsert k (new_export db.next_export k failed version (some code))
      (set_export failed version (some code)) db

unfoldable pub get_export_record : ExportKey → Db → Option ExportRow
get_export_record k db = find (has_export_key k) db.exports

abbrev pub in_batch : String → FileRow → Bool
in_batch batch f = same f.batch_id batch

-- `if statuses: ... AND status IN (...)`
abbrev pub has_any_of : List BatchFileStatus → FileRow → Bool
has_any_of [] f = true
has_any_of (s ∷ ss) f = any (same_status f.status) (s ∷ ss)

unfoldable pub list_files : String → List BatchFileStatus → Db → List FileView
unfolding file_row_with_stages
list_files batch statuses db =
    map (file_row_with_stages db) (select (λ f. in_batch batch f && has_any_of statuses f) db.files)

abbrev pub is_resumable : String → FileRow → Bool
is_resumable batch f =
    same f.batch_id batch && (same_status f.status pending || same_status f.status interrupted)

unfoldable pub resume_candidates : String → Db → List FileView
unfolding file_row_with_stages
resume_candidates batch db = map (file_row_with_stages db) (select (is_resumable batch) db.files)

abbrev pub in_batch_with : String → BatchFileStatus → FileRow → Bool
in_batch_with batch s f = same f.batch_id batch && same_status f.status s

-- `batch_summary`: `by_status` as the function from a status to its count.
pub record Summary : Type 0 where
  pub total : ℕ
  pub by_status : BatchFileStatus → ℕ

unfoldable pub batch_summary : String → Db → Summary
batch_summary batch db = record {
  total = count (in_batch batch) db.files;
  by_status = λ s. count (in_batch_with batch s) db.files;
}

abbrev is_active : String → FileRow → Bool
is_active batch f = same f.batch_id batch && not (is_final f.status)

-- SQL's MAX, over a column with NULLs.
abbrev max_of : Option ℕ → Option ℕ → Option ℕ
max_of none b = b
max_of (some a) none = some a
max_of (some a) (some b) = if ltb a b then some b else some a

abbrev max_finished : List StageRow → Option ℕ
max_finished [] = none
max_finished (r ∷ rs) = max_of r.finished_at (max_finished rs)

abbrev started_of : Option BatchRow → Option ℕ
started_of none = none
started_of (some b) = some b.started_at

unfoldable pub batch_started_at : String → Db → Option ℕ
batch_started_at batch db = started_of (find (λ b. same b.batch_id batch) db.batches)

unfoldable pub batch_finished_at : String → Db → Option ℕ
batch_finished_at batch db =
    if ltb 0 (count (is_active batch) db.files)
    then none
    else max_finished
        (select (λ r. any (λ f. f.file_id == r.file_id && in_batch batch f) db.files) db.stages)
