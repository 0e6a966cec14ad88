-- ===== src/Batch/Store/Files.antt =====
-- The operations of `BatchStore` on the tables `batches` and `batch_files`.
use servicecheck.Base.{
  ℕ, ◌+◌, String, Bool, true, false, ◌&&◌, Option, none, some, [], ◌∷◌, ◌++◌, ◌==◌, if◌then◌else◌,
  same, any, find, update, count, key_error, value_error, state_conflict, integrity_error, Result,
  ok, err, ◌>>=◌,
}
use servicecheck.Batch.Models.{
  BatchFileStatus, pending, running, interrupted, done, failed_final, dead_letter, human_review,
  FileRecord, BatchMeta, same_status, valid_transition,
}
use servicecheck.Batch.Store.Tables.{BatchRow, FileRow, Db, Outcome}

-- A status argument, `BatchFileStatus | str`.
pub data StatusArg : Type 0 where
  member : BatchFileStatus → StatusArg
  raw : String → StatusArg

-- `BatchFileStatus(str(status))`
unfoldable pub parse_status : String → Option BatchFileStatus
unfolding same
parse_status s =
    if same s "PENDING"
    then some pending
    else if same s "RUNNING"
    then some running
    else if same s "INTERRUPTED"
    then some interrupted
    else if same s "DONE"
    then some done
    else if same s "FAILED_FINAL"
    then some failed_final
    else if same s "DEAD_LETTER"
    then some dead_letter
    else if same s "HUMAN_REVIEW"
    then some human_review
    else none

abbrev pub or_value_error {ℓ} : {A : Type ℓ} → Option A → Result A
or_value_error (some a) = ok a
or_value_error none = err value_error

-- `_status_value`
unfoldable pub status_value : StatusArg → Result BatchFileStatus
status_value (member s) = ok s
status_value (raw s) = or_value_error (parse_status s)

unfoldable pub create_batch : BatchMeta → Db → Outcome (Unit {0})
create_batch meta db =
    if any (λ b. same b.batch_id meta.batch_id) db.batches
    then err integrity_error
    else ok (tt, record db { batches = db.batches ++ row ∷ [] })
  where
    row : BatchRow
    row = record {
      batch_id = meta.batch_id;
      source = meta.source;
      created_at = meta.created_at;
      started_at = meta.created_at;
      total = meta.total;
    }

-- An `IntegrityError` of the insert is caught.
abbrev pub created : Outcome (Unit {0}) → Db → Outcome Bool
created (ok (_, db')) db = ok (true, db')
created (err _) db = ok (false, db)

unfoldable pub create_batch_if_absent : BatchMeta → Db → Outcome Bool
unfolding create_batch
create_batch_if_absent meta db = created (create_batch meta db) db

abbrev pub has_key : String → String → FileRow → Bool
has_key batch key f = same f.batch_id batch && same f.idempotency_key key

abbrev pub new_file : ℕ → String → FileRecord → FileRow
new_file n batch r = record {
  file_id = n;
  batch_id = batch;
  source_uri = r.source_uri;
  call_id = r.call_id;
  idempotency_key = r.idempotency_key;
  status = pending;
  failed_reason = none;
  request_json = none;
  result_json = none;
}

-- INSERT OR IGNORE under the unique index on (batch_id, idempotency_key)
unfoldable pub add_file : String → FileRecord → Db → Outcome Bool
add_file batch r db =
    if any (has_key batch r.idempotency_key) db.files
    then ok (false, db)
    else ok (
      true,
      record db {
        files = db.files ++ new_file db.next_file batch r ∷ [];
        next_file = db.next_file + 1;
      },
    )

abbrev pub has_id : ℕ → FileRow → Bool
has_id n f = f.file_id == n

abbrev pub has_status : ℕ → BatchFileStatus → FileRow → Bool
has_status n s f = f.file_id == n && same_status f.status s

abbrev pub is_claimable : BatchFileStatus → Bool
is_claimable BatchFileStatus.pending = true
is_claimable BatchFileStatus.interrupted = true
is_claimable _ = false

abbrev pub set_running : FileRow → FileRow
set_running f = record f { status = running; failed_reason = none }

abbrev pub claim : ℕ → BatchFileStatus → Db → Outcome Bool
claim n expected db =
    if is_claimable expected
    then ok (
      count (has_status n expected) db.files == 1,
      record db { files = update (has_status n expected) set_running db.files },
    )
    else ok (false, db)

unfoldable pub claim_file : ℕ → StatusArg → Db → Outcome Bool
unfolding status_value
claim_file n arg db = status_value arg >>= λ expected. claim n expected db

abbrev pub is_final : BatchFileStatus → Bool
is_final BatchFileStatus.done = true
is_final BatchFileStatus.human_review = true
is_final BatchFileStatus.failed_final = true
is_final BatchFileStatus.dead_letter = true
is_final _ = false

abbrev pub set_status : BatchFileStatus → Option String → FileRow → FileRow
set_status target reason f = record f { status = target; failed_reason = reason }

abbrev pub move_file :
    ℕ → BatchFileStatus → Option String → Db → Option FileRow → Outcome (Unit {0})
move_file n target reason db none = err key_error
move_file n target reason db (some row) =
    if valid_transition row.status target
    then if count (has_status n row.status) db.files == 1
      then ok (
        tt,
        record db { files = update (has_status n row.status) (set_status target reason) db.files },
      )
      else err state_conflict
    else err state_conflict

abbrev pub change_status : ℕ → BatchFileStatus → Option String → Db → Outcome (Unit {0})
change_status n target reason db =
    if is_final target
    then err state_conflict
    else move_file n target reason db (find (has_id n) db.files)

unfoldable pub set_file_status : ℕ → StatusArg → Option String → Db → Outcome (Unit {0})
unfolding status_value
set_file_status n arg reason db = status_value arg >>= λ target. change_status n target reason db

abbrev pub is_writable_final : BatchFileStatus → Bool
is_writable_final BatchFileStatus.done = true
is_writable_final BatchFileStatus.human_review = true
is_writable_final BatchFileStatus.failed_final = true
is_writable_final _ = false

abbrev pub set_result : BatchFileStatus → String → String → Option String → FileRow → FileRow
set_result target request result reason f = record f {
  status = target;
  request_json = some request;
  result_json = some result;
  failed_reason = reason;
}

abbrev pub finalize :
    ℕ → BatchFileStatus → String → String → Option String → Db → Outcome (Unit {0})
finalize n target request result reason db =
    if is_writable_final target
    then if count (has_status n running) db.files == 1
      then ok (
        tt,
        record db {
          files = update (has_status n running) (set_result target request result reason) db.files;
        },
      )
      else err state_conflict
    else err value_error

unfoldable pub finalize_file :
    ℕ → StatusArg → String → String → Option String → Db → Outcome (Unit {0})
unfolding status_value
finalize_file n arg request result reason db =
    status_value arg >>= λ target. finalize n target request result reason db

abbrev pub is_running_in : String → FileRow → Bool
is_running_in batch f = same f.batch_id batch && same_status f.status running

abbrev pub set_interrupted : FileRow → FileRow
set_interrupted f = record f { status = interrupted }

unfoldable pub mark_interrupted_running : String → Db → Outcome ℕ
mark_interrupted_running batch db = ok (
  count (is_running_in batch) db.files,
  record db { files = update (is_running_in batch) set_interrupted db.files },
)
