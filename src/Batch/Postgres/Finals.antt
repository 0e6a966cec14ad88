-- ===== src/Batch/Postgres/Finals.antt =====
-- The final results of `PostgresBatchStore` (`_finalize_file_in_session` and its callers in
-- qc/batch/postgres_store.py): what they write, on the board of Batch/Board and in the batch.
use servicecheck.Base.{
  ℕ, String, ◌≡◌, refl, ◌∙◌, inl, inr, true, ◌&&◌, Option, some, arith, ltb, if◌then◌else◌, same,
  Bool-cases, Option-cases, find, update, count, find_fits, state_conflict, Result, ok, err,
  Ascends-update, find-update,
}
use servicecheck.Batch.Models.{BatchFileStatus, running, human_review, failed_final, same_status→eq}
use servicecheck.Batch.Store.Files.{is_writable_final}
use servicecheck.Batch.Board as Spec
use servicecheck.Batch.Board.{Shows, Shows-then}
use servicecheck.Batch.Board.Rows.{is_at, set_at, view_of-set}
use servicecheck.Batch.Board.ItemStore.{DeadLetter}
use servicecheck.Batch.Postgres.Tables.{Json, ItemRow, PgDb, is_item, refers}
use servicecheck.Batch.Postgres.Jobs.{in_job}
use servicecheck.Batch.Postgres.Items.{item_at}
use servicecheck.Batch.Postgres.Finalize.{
  json_value, set_result, run_id_of, attach, all_terminal, close_batch, finalize_in_session,
  finalize_file, finalize_file_with_dead_letter,
}
use servicecheck.Batch.Postgres.Refines.{item_entry, view, IsSound, one_row}

-- The items of a store after an operation that does not touch them.
abbrev pub SameItems : PgDb → PgDb → Type 0
SameItems db db' = (db'.items ≡ db.items) × (db'.next_item ≡ db.next_item)

attach-SameItems :
    (t : BatchFileStatus) (run : Option String) (n now : ℕ) (db : PgDb)
    → SameItems db (attach t run n now db)
attach-SameItems human_review (some run) n now db = elim (Bool-cases (same run "")) [
  | inl e ↦ rw e (refl, refl)
  | inr e ↦ rw e (refl, refl)
]
attach-SameItems t run n now db = ground arith

pub close_batch-SameItems : (now : ℕ) (db : PgDb) (b : String) → SameItems db (close_batch now db b)
close_batch-SameItems now db b =
    elim (Bool-cases (ltb 0 (count (in_job b) db.items) && all_terminal db b)) [
      | inl e ↦ rw e (refl, refl)
      | inr e ↦ rw e (refl, refl)
    ]

-- What a final result writes, before the batch is looked at.
abbrev pub written :
    ℕ → BatchFileStatus → Option Json → Option Json → Option String → ℕ → PgDb → PgDb
written n t q r reason now db = attach t (run_id_of r) n now (record db {
  items = update (item_at n running) (set_result t q r reason (run_id_of r) now) db.items;
})

-- The row that holds the result.
abbrev pub with_result :
    BatchFileStatus → Option Json → Option Json → Option String → ℕ → ItemRow → ItemRow
with_result t q r reason now = set_result t q r reason (run_id_of r) now

module _ (n : ℕ) (t : BatchFileStatus) (q r : Option Json) (reason : Option String) (now : ℕ)
    (db : PgDb) (v : IsSound db) where
  abbrev updated : PgDb
  updated = record db { items = update (item_at n running) (with_result t q r reason now) db.items }

  pub written-items :
      (written n t q r reason now db).items
      ≡ update (item_at n running) (with_result t q r reason now) db.items
  written-items = (attach-SameItems t (run_id_of r) n now updated).0

  pub written-find :
      (i : ItemRow)
      → find (is_item n) db.items ≡ some i
      → i.status ≡ running
      → find (is_item n) (written n t q r reason now db).items
        ≡ some (with_result t q r reason now i)
  written-find i e s =
      rw
        (
          written-items,
          find-update (is_item n) (item_at n running) (with_result t q r reason now) (λ x. refl)
              db.items,
          e,
        )
        (ground (arith, find_fits (is_item n) db.items i e))

  here :
      (i : ItemRow)
      → find (is_item n) db.items ≡ some i
      → i.status ≡ running
      → is_at running (view db n) ≡ true
  here i e s = rw (e, s) refl

  -- The result of a file that is RUNNING, where the run it names is there.
  pub finalize_in_session_running :
      (i : ItemRow)
      → find (is_item n) db.items ≡ some i
      → i.status ≡ running
      → refers (run_id_of r) db.runs ≡ true
      → finalize_in_session n t q r reason now db
        ≡ ok (i.batch_id, close_batch now (written n t q r reason now db) i.batch_id)
  unfolding finalize_in_session
  finalize_in_session_running i e s k =
      rw (one_row n running db v, here i e s, k) (rw (written-find i e s) refl)

  -- The board under a final result, with the status of the batch.
  shown :
      (b : String)
      → IsSound (close_batch now (written n t q r reason now db) b)
        × ((m : ℕ) → view (close_batch now (written n t q r reason now db) b) m ≡ view updated m)
  shown b =
      let (items, next) = close_batch-SameItems now (written n t q r reason now db) b in
      let (items', next') = attach-SameItems t (run_id_of r) n now updated in
      rw (items, next, items', next')
        (
          Ascends-update ItemRow.item_id (item_at n running) (with_result t q r reason now)
              (λ x. refl) 1 db.next_item db.items v,
          λ m. refl,
        )

  -- A final result, where the run it names is there, sets the entry when it is RUNNING.
  pub finalize_in_session-refines :
      refers (run_id_of r) db.runs ≡ true
      → Shows IsSound view
          (finalize_in_session n t q r reason now db)
          (if is_at running (view db n) then ok (set_at n t (view db)) else err state_conflict)
  unfolding finalize_in_session
  finalize_in_session-refines k = elim (Bool-cases (is_at running (view db n))) [
    | inl e ↦ elim (Option-cases (find (is_item n) db.items)) [
      | inl missing ↦ absurd (ground arith)
      | inr (i, found) ↦
          let s : i.status ≡ running = same_status→eq i.status running (ground arith) in
          rw (finalize_in_session_running i found s k, e)
            (
              (shown i.batch_id).0,
              λ m.
                  (shown i.batch_id).1 m
                  ∙ view_of-set ItemRow.item_id item_entry n running t
                      (with_result t q r reason now) (λ x. refl) (λ x. refl) db.items e m,
            )
    ]
    | inr e ↦ rw (one_row n running db v, e) refl
  ]

-- What a store needs of the texts of a result: they decode, and the run named in the result is there.
pub record IsAccepted (loads : String → Result (Option Json)) (db : PgDb) (request result : String)
    : Type 0 where
  pub request_json : Option Json
  pub result_json : Option Json
  pub request_decodes : json_value loads request ≡ ok request_json
  pub result_decodes : json_value loads result ≡ ok result_json
  pub run_exists : refers (run_id_of result_json) db.runs ≡ true

module _ (loads : String → Result (Option Json)) (n : ℕ) (request result : String)
    (reason : Option String) (now : ℕ) (db : PgDb) (v : IsSound db)
    (a : IsAccepted loads db request result) where
  -- On tables whose ids of items ascend, for texts that decode and name no run that is not there,
  -- `finalize_file` refines the end of an entry on the board: ValueError for a status that is not final,
  -- StateConflictError unless the entry is RUNNING, and otherwise the entry has the status and no other
  -- entry changes.
  pub finalize_file-refines :
      (t : BatchFileStatus)
      → Shows IsSound view
          (finalize_file loads n t request result reason now db)
          (Spec.finish n t (view db))
  unfolding finalize_file
  finalize_file-refines t = elim (Bool-cases (is_writable_final t)) [
    | inl e ↦
        rw (e, a.request_decodes, a.result_decodes)
          (Shows-then IsSound view _
            (finalize_in_session n t a.request_json a.result_json reason now db) _
            (λ b d s. (tt, d, refl, s, λ m. refl))
            (finalize_in_session-refines n t a.request_json a.result_json reason now db v
              a.run_exists))
    | inr e ↦ rw e refl
  ]

  -- So does one with a dead letter, of the status FAILED_FINAL.
  pub finalize_file_with_dead_letter-refines :
      (letter : DeadLetter)
      → Shows IsSound view
          (finalize_file_with_dead_letter loads n request result reason letter now db)
          (Spec.finish n failed_final (view db))
  unfolding finalize_file_with_dead_letter
  finalize_file_with_dead_letter-refines letter =
      rw (a.request_decodes, a.result_decodes)
        (Shows-then IsSound view _
          (finalize_in_session n failed_final a.request_json a.result_json reason now db) _
          (λ b d s. (tt, _, refl, s, λ m. refl))
          (finalize_in_session-refines n failed_final a.request_json a.result_json reason now db v
            a.run_exists))
