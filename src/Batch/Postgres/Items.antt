-- ===== src/Batch/Postgres/Items.antt =====
-- The items of `PostgresBatchStore`: their insertion, claims and changes of status.
use servicecheck.Base.{
  ℕ, String, Bool, true, false, ◌&&◌, Option, none, some, List, [], ◌∷◌, map, ◌==◌, if◌then◌else◌,
  any, select, find, update, count, key_error, state_conflict, integrity_error, Result, ok, err,
}
use servicecheck.Batch.Models.{BatchFileStatus, FileRecord, same_status, valid_transition}
use servicecheck.Batch.Store.Tables.{FileRow, StageRow}
use servicecheck.Batch.Store.Files.{is_claimable, is_final}
use servicecheck.Batch.Store.Stages.{FileView}
use servicecheck.Batch.Postgres.Tables.{
  JobStatus, JobRow, Json, ItemRow, PgDb, is_job, is_item, refers,
}
use servicecheck.Batch.Postgres.Jobs.{PgOutcome, in_job, new_item, has_item_key, insert_item}

-- ON CONFLICT DO NOTHING; a batch or a call that is not there violates a foreign key.
unfoldable pub add_file : String → FileRecord → ℕ → PgDb → PgOutcome Bool
add_file b r now db =
    if any (has_item_key b r.idempotency_key) db.items
    then ok (false, db)
    else if any (is_job b) db.jobs && refers r.call_id db.calls
    then ok (
      true,
      insert_item
          (record (new_item db.next_item b r now) { source_sha256 = none; source_size = none }) db,
    )
    else err integrity_error

abbrev pub text_of : Option Json → Option String
text_of none = none
text_of (some j) = some j.text

-- `_file_payload`
abbrev pub file_row : ItemRow → FileRow
file_row i = record {
  file_id = i.item_id;
  batch_id = i.batch_id;
  source_uri = i.source_uri;
  call_id = i.call_id;
  idempotency_key = i.idempotency_key;
  status = i.status;
  failed_reason = i.failed_reason;
  request_json = text_of i.request_snapshot;
  result_json = text_of i.result_snapshot;
}

abbrev pub of_item : ℕ → StageRow → Bool
of_item n s = s.file_id == n

unfoldable pub file_payload : PgDb → ItemRow → FileView
file_payload db i = record { row = file_row i; stages = select (of_item i.item_id) db.stages }

abbrev pub has_any_status : List BatchFileStatus → ItemRow → Bool
has_any_status [] i = true
has_any_status (s ∷ ss) i = any (same_status i.status) (s ∷ ss)

unfoldable pub list_files : String → List BatchFileStatus → PgDb → List FileView
unfolding file_payload
list_files b statuses db =
    map (file_payload db) (select (λ i. in_job b i && has_any_status statuses i) db.items)

abbrev pub payload_or_raise : PgDb → Option ItemRow → Result FileView
payload_or_raise db none = err key_error
payload_or_raise db (some i) = ok (file_payload db i)

unfoldable pub get_file : ℕ → PgDb → Result FileView
unfolding file_payload
get_file n db = payload_or_raise db (find (is_item n) db.items)

abbrev pub item_at : ℕ → BatchFileStatus → ItemRow → Bool
item_at n s i = i.item_id == n && same_status i.status s

abbrev pub set_running : ℕ → ItemRow → ItemRow
set_running now i = record i {
  status = BatchFileStatus.running;
  failed_reason = none;
  updated_at = now;
}

-- COALESCE(started_at, now)
abbrev pub or_now : Option ℕ → ℕ → Option ℕ
or_now none now = some now
or_now (some t) now = some t

abbrev pub start_job : ℕ → JobRow → JobRow
start_job now j = record j { status = JobStatus.running; started_at = or_now j.started_at now }

abbrev pub batch_of : Option ItemRow → Option String
batch_of none = none
batch_of (some i) = some i.batch_id

abbrev pub is_job_opt : Option String → JobRow → Bool
is_job_opt none j = false
is_job_opt (some b) j = is_job b j

abbrev pub claimed_db : ℕ → BatchFileStatus → ℕ → PgDb → PgDb
claimed_db n s now db =
    let items' = update (item_at n s) (set_running now) db.items in
    record db {
      items = items';
      jobs = update (is_job_opt (batch_of (find (is_item n) items'))) (start_job now) db.jobs;
    }

unfoldable pub claim_file : ℕ → BatchFileStatus → ℕ → PgDb → PgOutcome Bool
claim_file n s now db =
    if is_claimable s && (count (item_at n s) db.items == 1)
    then ok (true, claimed_db n s now db)
    else ok (false, db)

abbrev pub set_status : BatchFileStatus → Option String → ℕ → ItemRow → ItemRow
set_status t reason now i = record i { status = t; failed_reason = reason; updated_at = now }

abbrev pub move_item :
    ℕ → BatchFileStatus → Option String → ℕ → PgDb → Option ItemRow → PgOutcome (Unit {0})
move_item n t reason now db none = err key_error
move_item n t reason now db (some i) =
    if valid_transition i.status t
    then if count (item_at n i.status) db.items == 1
      then ok
          (tt, record db { items = update (item_at n i.status) (set_status t reason now) db.items })
      else err state_conflict
    else err state_conflict

unfoldable pub set_file_status :
    ℕ → BatchFileStatus → Option String → ℕ → PgDb → PgOutcome (Unit {0})
set_file_status n t reason now db =
    if is_final t
    then err state_conflict
    else move_item n t reason now db (find (is_item n) db.items)

unfoldable pub resume_candidates : String → PgDb → List FileView
unfolding list_files
resume_candidates b db =
    list_files b (BatchFileStatus.pending ∷ BatchFileStatus.interrupted ∷ []) db

abbrev pub is_running_in : String → ItemRow → Bool
is_running_in b i = in_job b i && same_status i.status BatchFileStatus.running

abbrev pub set_interrupted : ℕ → ItemRow → ItemRow
set_interrupted now i = record i { status = BatchFileStatus.interrupted; updated_at = now }

unfoldable pub mark_interrupted_running : String → ℕ → PgDb → PgOutcome ℕ
mark_interrupted_running b now db = ok (
  count (is_running_in b) db.items,
  record db { items = update (is_running_in b) (set_interrupted now) db.items },
)
