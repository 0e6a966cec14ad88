-- ===== src/Batch/Postgres/Jobs.antt =====
-- The batches of `PostgresBatchStore`: their creation, with the items and the outbox events of these
-- in one transaction. The clock and the drawn `uuid4` are arguments; a text that is sliced to 500
-- characters is kept whole.
use servicecheck.Base.{
  ℕ, ◌+◌, String, Bool, true, false, not, ◌&&◌, ◌||◌, Option, none, some, List, [], ◌∷◌, ◌++◌, ltb,
  if◌then◌else◌, same, truthy, length, any, find, count, key_error, value_error, integrity_error,
  capacity_error, idempotency_conflict, Result, ok, err, ◌>>=◌,
}
use servicecheck.Batch.Models.{BatchFileStatus, FileRecord, BatchMeta, same_status}
use servicecheck.Batch.Postgres.Tables.{
  JobStatus, JobRow, ItemRow, OutboxStatus, OutboxRow, CreationRow, PgDb, is_job, is_event, refers,
}

abbrev pub PgOutcome : Type 0 → Type 0
PgOutcome A = Result (A × PgDb)

abbrev pub new_job :
    BatchMeta → JobStatus → Option ℕ → Option (String × List FileRecord) → ℕ → JobRow
new_job meta status started snapshot total = record {
  batch_id = meta.batch_id;
  source = meta.source;
  status = status;
  total = total;
  created_at = meta.created_at;
  started_at = started;
  finished_at = none;
  source_snapshot = snapshot;
}

abbrev pub created_job : BatchMeta → JobRow
created_job meta = new_job meta JobStatus.created (some meta.created_at) none meta.total

abbrev pub insert_job : JobRow → PgDb → PgDb
insert_job j db = record db { jobs = db.jobs ++ j ∷ [] }

-- An IntegrityError becomes a ValueError.
unfoldable pub create_batch : BatchMeta → PgDb → PgOutcome (Unit {0})
create_batch meta db =
    if any (is_job meta.batch_id) db.jobs
    then err value_error
    else ok (tt, insert_job (created_job meta) db)

unfoldable pub create_batch_if_absent : BatchMeta → PgDb → PgOutcome Bool
create_batch_if_absent meta db =
    if any (is_job meta.batch_id) db.jobs
    then ok (false, db)
    else ok (true, insert_job (created_job meta) db)

pub record BatchResponse : Type 0 where
  pub batch_id : String
  pub status : JobStatus
  pub total : ℕ

abbrev pub in_job : String → ItemRow → Bool
in_job b i = same i.batch_id b

abbrev pub response_of : PgDb → String → Option JobRow → Result BatchResponse
response_of db b none = err key_error
response_of db b (some j) =
    ok record { batch_id = j.batch_id; status = j.status; total = count (in_job b) db.items }

-- `_batch_response_for_session`
unfoldable pub batch_response : String → PgDb → Result BatchResponse
batch_response b db = response_of db b (find (is_job b) db.jobs)

abbrev pub is_request : String → CreationRow → Bool
is_request key r = same r.idempotency_key key

abbrev pub replayed : String → PgDb → CreationRow → Result BatchResponse
replayed hash db r =
    if same r.request_hash hash then batch_response r.batch_id db else err idempotency_conflict

abbrev pub maybe_replayed : String → PgDb → Option CreationRow → Result (Option BatchResponse)
maybe_replayed hash db none = ok none
maybe_replayed hash db (some r) = replayed hash db r >>= λ response. ok (some response)

unfoldable pub get_idempotent_batch : String → String → PgDb → Result (Option BatchResponse)
unfolding batch_response
get_idempotent_batch key hash db = maybe_replayed hash db (find (is_request key) db.requests)

-- status IN ('PENDING', 'RUNNING', 'INTERRUPTED')
abbrev pub is_unfinished : ItemRow → Bool
is_unfinished i =
    same_status i.status BatchFileStatus.pending
    || same_status i.status BatchFileStatus.running
    || same_status i.status BatchFileStatus.interrupted

unfoldable pub pending_item_count : PgDb → ℕ
pending_item_count db = count is_unfinished db.items

abbrev pub new_item : ℕ → String → FileRecord → ℕ → ItemRow
new_item n b r now = record {
  item_id = n;
  batch_id = b;
  source_uri = r.source_uri;
  source_sha256 = r.sha256;
  source_size = r.size;
  call_id = r.call_id;
  idempotency_key = r.idempotency_key;
  status = BatchFileStatus.pending;
  failed_reason = none;
  request_snapshot = none;
  result_snapshot = none;
  qc_run_id = none;
  created_at = now;
  updated_at = now;
}

abbrev pub new_event : String → ItemRow → ℕ → OutboxRow
new_event e i now = record {
  event_id = e;
  payload = record {
    event_id = e;
    batch_id = i.batch_id;
    item_id = i.item_id;
    idempotency_key = i.idempotency_key;
  };
  status = OutboxStatus.pending;
  attempts = 0;
  available_at = now;
  published_at = none;
  redis_message_id = none;
  last_error = none;
  created_at = now;
  updated_at = now;
}

abbrev pub has_item_key : String → String → ItemRow → Bool
has_item_key b key i = same i.batch_id b && same i.idempotency_key key

abbrev pub insert_item : ItemRow → PgDb → PgDb
insert_item i db = record db { items = db.items ++ i ∷ []; next_item = db.next_item + 1 }

abbrev pub insert_event : OutboxRow → PgDb → PgDb
insert_event o db = record db { outbox = db.outbox ++ o ∷ [] }

-- One round of the loop over the records. The job has just been inserted.
abbrev pub item_violates : String → FileRecord → String → PgDb → Bool
item_violates b r e db =
    any (has_item_key b r.idempotency_key) db.items
    || not (refers r.call_id db.calls)
    || any (is_event e) db.outbox

abbrev pub add_item : String → FileRecord → String → ℕ → PgDb → PgDb
add_item b r e now db =
    let i = new_item db.next_item b r now in insert_event (new_event e i now) (insert_item i db)

unfoldable pub add_items : (ℕ → String) → String → ℕ → ℕ → List FileRecord → PgDb → Result PgDb
add_items uuid b now k [] db = ok db
add_items uuid b now k (r ∷ rs) db =
    let rest = add_items uuid b now (k + 1) rs (add_item b r (uuid k) now db) in
    if item_violates b r (uuid k) db then err integrity_error else rest

abbrev pub new_request : Option String → String → BatchMeta → ℕ → PgDb → Result PgDb
new_request none hash meta now db = ok db
new_request (some key) hash meta now db =
    if any (is_request key) db.requests
    then err integrity_error
    else ok (record db {
      requests =
          db.requests
          ++ record {
            idempotency_key = key;
            batch_id = meta.batch_id;
            request_hash = hash;
            created_at = now;
          }
            ∷ [];
    })

abbrev pub queued_job : BatchMeta → List FileRecord → JobRow
queued_job meta records =
    new_job meta JobStatus.queued none (some (meta.source, records)) (length records)

-- The inserts, in one transaction.
abbrev pub insert_batch :
    (ℕ → String)
    → BatchMeta
    → List FileRecord
    → Option String
    → String
    → ℕ
    → PgDb
    → PgOutcome BatchResponse
insert_batch uuid meta records key hash now db =
    if any (is_job meta.batch_id) db.jobs
    then err integrity_error
    else (add_items uuid meta.batch_id now 0 records (insert_job (queued_job meta records) db)
        >>= λ db'. new_request key hash meta now db' >>= λ db''. ok (
          record { batch_id = meta.batch_id; status = JobStatus.queued; total = length records },
          db'',
        ))

-- `pending + len(records) > max_pending`
abbrev pub over_capacity : Option ℕ → List FileRecord → PgDb → Bool
over_capacity none records db = false
over_capacity (some limit) records db = ltb limit (count is_unfinished db.items + length records)

abbrev pub create_new :
    (ℕ → String)
    → BatchMeta
    → List FileRecord
    → Option String
    → String
    → Option ℕ
    → ℕ
    → PgDb
    → PgOutcome BatchResponse
create_new uuid meta records key hash max_pending now db =
    if over_capacity max_pending records db
    then err capacity_error
    else insert_batch uuid meta records key hash now db

abbrev pub read_only : PgDb → Result BatchResponse → PgOutcome BatchResponse
read_only db r = r >>= λ response. ok (response, db)

abbrev pub earlier_request : Option String → PgDb → Option CreationRow
earlier_request none db = none
earlier_request (some key) db = find (is_request key) db.requests

abbrev pub create_or_replay :
    (ℕ → String)
    → BatchMeta
    → List FileRecord
    → Option String
    → String
    → Option ℕ
    → ℕ
    → PgDb
    → Option CreationRow
    → PgOutcome BatchResponse
create_or_replay uuid meta records key hash max_pending now db none =
    create_new uuid meta records key hash max_pending now db
create_or_replay uuid meta records key hash max_pending now db (some r) =
    read_only db (replayed hash db r)

-- The request hash is given: its default is a digest of the source.
unfoldable pub create_batch_with_outbox :
    (ℕ → String)
    → BatchMeta
    → List FileRecord
    → Option String
    → String
    → Option ℕ
    → ℕ
    → PgDb
    → PgOutcome BatchResponse
unfolding batch_response add_items
create_batch_with_outbox uuid meta records key hash max_pending now db =
    create_or_replay uuid meta records (truthy key) hash max_pending now db
      (earlier_request (truthy key) db)
