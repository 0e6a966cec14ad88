-- ===== src/Batch/Postgres/Samples.antt =====
-- A batch of two records in the tables of `PostgresBatchStore`, runs on it, and the theorems at these inputs.
use servicecheck.Base.{
  ℕ, String, ◌≡◌, refl, false, Option, none, some, List, [], ◌∷◌, map, arith, ◌==◌, if◌then◌else◌,
  same, truthy, find, value_error, capacity_error, idempotency_conflict, Result, ok, err, after,
  map_option,
}
use servicecheck.Batch.Models.{BatchFileStatus, FileRecord, BatchMeta}
use servicecheck.Batch.Board as Spec
use servicecheck.Batch.Board.{Shows}
use servicecheck.Batch.Postgres.Tables.{JobStatus, JobRow, Json, ItemRow, PgDb, is_job, is_item}
use servicecheck.Batch.Postgres.Jobs.{
  insert_job, BatchResponse, add_item, add_items, queued_job, earlier_request, batch_response,
  create_batch_with_outbox,
}
use servicecheck.Batch.Postgres.Items.{
  claimed_db, claim_file, set_file_status, mark_interrupted_running,
}
use servicecheck.Batch.Postgres.Finalize.{close_batch, json_value, finalize_file}
use servicecheck.Batch.Postgres.Refines.{
  view, IsSound, claim_file-refines, set_file_status-refines, mark_interrupted_running-refines,
}
use servicecheck.Batch.Postgres.Finals.{written, IsAccepted, finalize_file-refines}
use servicecheck.Batch.Postgres.Creation.{
  request_row, request_rows, Creates, create_batch_with_outbox-Creates,
}
use servicecheck.Batch.Postgres.Idempotent.{create_batch_with_outbox_again}
use servicecheck.Batch.Postgres.Closing.{closed_if_over, finalize_file-closes}

abbrev pub empty_pg : PgDb
empty_pg = record {
  jobs = [];
  items = [];
  stages = [];
  exports = [];
  outbox = [];
  requests = [];
  dead_letters = [];
  calls = [];
  runs = "r1" ∷ [];
  reviews = record { tasks = []; revisions = [] };
  next_item = 1;
  next_stage = 1;
  next_export = 1;
}

abbrev night : BatchMeta
night = record { batch_id = "night"; source = "audio"; total = 2; created_at = 10 }

abbrev call_record : String → FileRecord
call_record key = record {
  source_uri = "a.wav";
  idempotency_key = key;
  call_id = none;
  sha256 = none;
  size = none;
}

abbrev two_records : List FileRecord
two_records = call_record "k1" ∷ call_record "k2" ∷ []

abbrev event_name : ℕ → String
event_name k = if k == 0 then "e1" else "e2"

abbrev pub two_items : PgDb
two_items =
    record (add_item "night" (call_record "k2") "e2" 10 (
      add_item "night" (call_record "k1") "e1" 10
        (insert_job (queued_job night two_records) empty_pg))) {
          requests = request_row "key" "night" "h1" 10 ∷ [];
        }

abbrev two_queued : BatchResponse
two_queued = record { batch_id = "night"; status = JobStatus.queued; total = 2 }

creation :
    create_batch_with_outbox event_name night two_records (some "key") "h1" (some 5) 10 empty_pg
    ≡ ok (two_queued, two_items)
unfolding create_batch_with_outbox add_items same
creation = refl

over_limit :
    create_batch_with_outbox event_name night two_records none "h1" (some 3) 10 two_items
    ≡ err capacity_error
unfolding create_batch_with_outbox add_items same
over_limit = refl

key_given : same "key" "" ≡ false
unfolding same
key_given = refl

first_of_key : earlier_request (truthy (some "key")) empty_pg ≡ none
unfolding same
first_of_key = refl

create_batch_with_outbox-Creates_example :
    Creates night two_records
      (request_rows (truthy (some "key")) "night" "h1" 10)
      (some 5)
      empty_pg
      (two_queued, two_items)
create_batch_with_outbox-Creates_example =
    create_batch_with_outbox-Creates event_name night two_records "h1" (some 5) 10 empty_pg
      (some "key") first_of_key creation

pub two_items-IsSound : IsSound two_items
two_items-IsSound = (omega arith, (omega arith, omega arith))

-- The first item claimed.
abbrev pub one_running : PgDb
one_running = claimed_db 1 BatchFileStatus.pending 11 two_items

abbrev running_job : JobRow
running_job = record (queued_job night two_records) {
  status = JobStatus.running;
  started_at = some 11;
}

abbrev two_running : BatchResponse
two_running = record { batch_id = "night"; status = JobStatus.running; total = 2 }

running_found : find (is_job "night") one_running.jobs ≡ some running_job
unfolding same
running_found = refl

replay :
    create_batch_with_outbox event_name night [] (some "key") "h1" none 20 one_running
    ≡ ok (two_running, one_running)
unfolding create_batch_with_outbox batch_response same
replay = refl

-- The batch when its first item was claimed: it is RUNNING.
create_batch_with_outbox_again_example :
    create_batch_with_outbox event_name night [] (some "key") "h2" none 20 one_running
    ≡ (if same "h1" "h2" then ok (two_running, one_running) else err idempotency_conflict)
create_batch_with_outbox_again_example =
    create_batch_with_outbox_again event_name night two_records "h1" "key" (some 5) 10 empty_pg
      key_given tt refl creation one_running [] running_job refl running_found refl event_name night
      [] "h2" none 20

claim_file-refines_example :
    (db' : PgDb) × (claim_file 1 BatchFileStatus.pending 11 two_items
      ≡ ok ((Spec.claim 1 BatchFileStatus.pending (view two_items)).0, db'))
    × IsSound db'
    × ((m : ℕ) → view db' m ≡ (Spec.claim 1 BatchFileStatus.pending (view two_items)).1 m)
claim_file-refines_example =
    claim_file-refines 1 BatchFileStatus.pending 11 two_items two_items-IsSound

pub one_running-IsSound : IsSound one_running
one_running-IsSound = (omega arith, (omega arith, omega arith))

set_file_status-refines_example :
    Shows IsSound view
      (set_file_status 1 BatchFileStatus.interrupted none 12 one_running)
      (Spec.move 1 BatchFileStatus.interrupted (view one_running))
set_file_status-refines_example =
    set_file_status-refines 1 BatchFileStatus.interrupted none 12 one_running one_running-IsSound

-- A decoder for these runs: every text is a document without a run, but "null" is None and "!" is no JSON.
abbrev pub decode : String → Result (Option Json)
decode s =
    if same s "!"
    then err value_error
    else if same s "null"
    then ok none
    else ok (some (record { text = s; run_id = none }))

abbrev doc : String → Option Json
doc s = some (record { text = s; run_id = none })

pub accepts : (db : PgDb) → IsAccepted decode db "{}" "{}"
unfolding same json_value
accepts db = record {
  request_json = doc "{}";
  result_json = doc "{}";
  request_decodes = refl;
  result_decodes = refl;
  run_exists = refl;
}

finalize_file-refines_example :
    Shows IsSound view
      (finalize_file decode 1 BatchFileStatus.done "{}" "{}" none 12 one_running)
      (Spec.finish 1 BatchFileStatus.done (view one_running))
finalize_file-refines_example =
    finalize_file-refines decode 1 "{}" "{}" none 12 one_running one_running-IsSound
      (accepts one_running) BatchFileStatus.done

-- A batch of one item, which is RUNNING.
abbrev alone : PgDb
alone = claimed_db 1 BatchFileStatus.pending 11 (
    add_item "day" (call_record "k1") "e1" 10 (
      insert_job
        (queued_job (record { batch_id = "day"; source = "audio"; total = 1; created_at = 10 })
          (call_record "k1" ∷ []))
        empty_pg))

abbrev alone_closed : PgDb
alone_closed =
    close_batch 12 (written 1 BatchFileStatus.human_review (doc "{}") (doc "{}") none 12 alone)
      "day"

alone_ends :
    finalize_file decode 1 BatchFileStatus.human_review "{}" "{}" none 12 alone
    ≡ ok (tt, alone_closed)
unfolding finalize_file same json_value
alone_ends = refl

alone_status : map (λ j. j.status) alone_closed.jobs ≡ JobStatus.partial ∷ []
unfolding same
alone_status = refl

finalize_file-closes_example :
    (i : ItemRow) × (find (is_item 1) alone.items ≡ some i)
    × (i.status ≡ BatchFileStatus.running)
    × ((c : String)
        → find (is_job c) alone_closed.jobs
          ≡ map_option
              (λ j.
                if is_job i.batch_id j
                then closed_if_over i.batch_id 12 alone_closed.items j
                else j)
              (find (is_job c) alone.jobs))
finalize_file-closes_example =
    finalize_file-closes decode 1 BatchFileStatus.human_review "{}" "{}" none 12 alone
      (omega arith, omega arith) alone_ends

mark_interrupted_running-refines_example :
    view (after (mark_interrupted_running "night" 12 one_running) one_running) 1
    ≡ Spec.interrupt "night" (view one_running) 1
mark_interrupted_running-refines_example = mark_interrupted_running-refines "night" 12 one_running 1
