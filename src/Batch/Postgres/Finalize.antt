-- ===== src/Batch/Postgres/Finalize.antt =====
-- The final results of `PostgresBatchStore`: what they write, the status of the batch, and dead letters.
use servicecheck.Base.{
  ℕ, String, Bool, true, ◌&&◌, ◌||◌, Option, none, some, [], ◌∷◌, ◌++◌, map, ltb, leb, ◌==◌,
  if◌then◌else◌, same, any, all, select, find, update, count, key_error, value_error,
  state_conflict, integrity_error, Result, ok, err, ◌>>=◌,
}
use Prim.Native.Char.{code}
use servicecheck.Batch.Models.{BatchFileStatus, same_status}
use servicecheck.Batch.Store.Files.{is_writable_final}
use servicecheck.Batch.Board.ItemStore.{DeadLetter}
use servicecheck.Review.Submit.{attach_batch_item}
use servicecheck.Batch.Postgres.Tables.{
  JobStatus, JobRow, Json, ItemRow, DeadLetterRow, PgDb, is_job, is_item, refers,
}
use servicecheck.Batch.Postgres.Jobs.{PgOutcome, in_job}
use servicecheck.Batch.Postgres.Items.{item_at, batch_of}

abbrev pub set_result :
    BatchFileStatus
    → Option Json
    → Option Json
    → Option String
    → Option String
    → ℕ
    → ItemRow
    → ItemRow
set_result t request result reason run now i = record i {
  status = t;
  request_snapshot = request;
  result_snapshot = result;
  failed_reason = reason;
  qc_run_id = run;
  updated_at = now;
}

abbrev pub run_id_of : Option Json → Option String
run_id_of none = none
run_id_of (some j) = j.run_id

-- `if run_id and target == HUMAN_REVIEW`
abbrev pub attach : BatchFileStatus → Option String → ℕ → ℕ → PgDb → PgDb
attach BatchFileStatus.human_review (some run) n now db =
    if same run "" then db else record db { reviews = attach_batch_item run n now db.reviews }
attach _ _ n now db = db

abbrev pub counted : PgDb → String → BatchFileStatus → ℕ
counted db b s = count (λ i. in_job b i && same_status i.status s) db.items

abbrev pub all_terminal : PgDb → String → Bool
all_terminal db b = all is_writable_final (map (λ i. i.status) (select (in_job b) db.items))

-- The status of a batch whose items are all terminal.
abbrev pub outcome_of : PgDb → String → JobStatus
outcome_of db b =
    if ltb 0 (counted db b BatchFileStatus.failed_final)
    then JobStatus.failed
    else if ltb 0 (counted db b BatchFileStatus.human_review)
    then JobStatus.partial
    else JobStatus.completed

abbrev pub end_job : JobStatus → ℕ → JobRow → JobRow
end_job s now j = record j { status = s; finished_at = some now }

abbrev pub close_batch : ℕ → PgDb → String → PgDb
close_batch now db b =
    if ltb 0 (count (in_job b) db.items) && all_terminal db b
    then record db { jobs = update (is_job b) (end_job (outcome_of db b) now) db.jobs }
    else db

abbrev pub close_of : ℕ → PgDb → Option String → Result (String × PgDb)
close_of now db none = err key_error
close_of now db (some b) = ok (b, close_batch now db b)

-- `_finalize_file_in_session`: the batch of the file is found, since a row was updated.
unfoldable pub finalize_in_session :
    ℕ → BatchFileStatus → Option Json → Option Json → Option String → ℕ → PgDb → PgOutcome String
finalize_in_session n t request result reason now db =
    let run = run_id_of result in
    if count (item_at n BatchFileStatus.running) db.items == 1
    then if refers run db.runs
      then (let db' = attach t run n now (record db {
        items =
            update (item_at n BatchFileStatus.running) (set_result t request result reason run now)
              db.items;
      }) in
          close_of now db' (batch_of (find (is_item n) db'.items)))
      else err integrity_error
    else err state_conflict

-- The white space of `str.strip`.
abbrev pub is_space : ℕ → Bool
is_space c =
    leb 9 c && leb c 13
    || leb 28 c && leb c 32
    || c == 133
    || c == 160
    || c == 5760
    || leb 8192 c && leb c 8202
    || c == 8232
    || c == 8233
    || c == 8239
    || c == 8287
    || c == 12288

abbrev pub all_space : String → Bool
all_space String.[] = true
all_space (String.◌∷◌ c s) = is_space (code c) && all_space s

-- `_json_value` of a text, for the decoder `loads`: a blank text is None.
unfoldable pub json_value : (String → Result (Option Json)) → String → Result (Option Json)
json_value loads text = if all_space text then ok none else loads text

unfoldable pub finalize_file :
    (String → Result (Option Json))
    → ℕ
    → BatchFileStatus
    → String
    → String
    → Option String
    → ℕ
    → PgDb
    → PgOutcome (Unit {0})
unfolding finalize_in_session json_value
finalize_file loads n t request result reason now db =
    if is_writable_final t
    then (json_value loads request >>= λ q. json_value loads result >>= λ r.
        finalize_in_session n t q r reason now db >>= λ (b, db'). ok (tt, db'))
    else err value_error

abbrev pub insert_letter : DeadLetterRow → PgDb → PgDb
insert_letter l db = record db { dead_letters = db.dead_letters ++ l ∷ [] }

unfoldable pub finalize_file_with_dead_letter :
    (String → Result (Option Json))
    → ℕ
    → String
    → String
    → Option String
    → DeadLetter
    → ℕ
    → PgDb
    → PgOutcome (Unit {0})
unfolding finalize_in_session json_value
finalize_file_with_dead_letter loads n request result reason letter now db =
    json_value loads request >>= λ q. json_value loads result >>= λ r.
    finalize_in_session n BatchFileStatus.failed_final q r reason now db >>= λ (b, db').
    ok (
      tt,
      insert_letter record { batch_id = b; item_id = n; letter = letter; created_at = now } db',
    )

-- The keys of a dead letter refer to a batch and to an item.
unfoldable pub record_dead_letter : String → ℕ → DeadLetter → ℕ → PgDb → PgOutcome (Unit {0})
record_dead_letter b n letter now db =
    if any (is_job b) db.jobs && any (is_item n) db.items
    then ok (
      tt,
      insert_letter record { batch_id = b; item_id = n; letter = letter; created_at = now } db,
    )
    else err integrity_error
