-- ===== src/Batch/Postgres/Store.antt =====
-- `PostgresBatchStore` (qc/batch/postgres_store.py) as the store of a worker.
use servicecheck.Base.{
  ℕ, String, ◌≡◌, refl, ◌⊎◌, inl, inr, false, ◌&&◌, Option, none, some, ◌==◌, Bool-cases, any, find,
  count, Failure, state_conflict, integrity_error, Result, ok, err, ◌>>=◌, Result-cases,
}
use servicecheck.Batch.Models.{BatchFileStatus, running, failed_final}
use servicecheck.Batch.Store.Files.{is_writable_final}
use servicecheck.Batch.Board.Rows.{entry_of}
use servicecheck.Batch.Postgres.Tables.{Json, ItemRow, PgDb, is_job, is_item, refers}
use servicecheck.Batch.Postgres.Items.{
  file_payload, payload_or_raise, get_file, item_at, claim_file, set_file_status,
}
use servicecheck.Batch.Postgres.Finalize.{
  run_id_of, finalize_in_session, json_value, finalize_file, insert_letter,
  finalize_file_with_dead_letter, record_dead_letter,
}
use servicecheck.Batch.Postgres.Refines.{
  item_entry, view, IsSound, claim_file-refines, set_file_status-refines,
}
use servicecheck.Batch.Postgres.Finals.{
  IsAccepted, finalize_file-refines, finalize_file_with_dead_letter-refines,
}
use servicecheck.Batch.Board.ItemStore.{
  DeadLetter, ItemStore, Refines, Reads, Wrote, Leaves, Shows-Wrote,
}

abbrev pub Loads : Type 0
Loads = String → Result (Option Json)

abbrev pub postgres_store : Loads → ItemStore PgDb
postgres_store loads = record {
  get_file = get_file;
  claim_file = claim_file;
  set_file_status = set_file_status;
  finalize_file = finalize_file loads;
  finalize_file_with_dead_letter = some (finalize_file_with_dead_letter loads);
  record_dead_letter = some record_dead_letter;
}

Reads-payload_or_raise :
    (db : PgDb) (o : Option ItemRow)
    → Reads (payload_or_raise db o) (entry_of ItemRow.item_id item_entry o)
unfolding file_payload
Reads-payload_or_raise db none = refl
Reads-payload_or_raise db (some i) = refl

pub get_file-Reads : (n : ℕ) (db : PgDb) → Reads (get_file n db) (view db n)
unfolding get_file
get_file-Reads n db = Reads-payload_or_raise db (find (is_item n) db.items)

pub record_dead_letter-Leaves :
    (b : String) (n : ℕ) (l : DeadLetter) (now : ℕ) (db : PgDb)
    → IsSound db
    → Leaves IsSound view db (record_dead_letter b n l now db)
unfolding record_dead_letter
record_dead_letter-Leaves b n l now db v =
    elim (Bool-cases (any (is_job b) db.jobs && any (is_item n) db.items)) [
      | inl e ↦ rw e (v, λ m. refl)
      | inr e ↦ rw e tt
    ]

module _ (loads : Loads) (n : ℕ) (request result : String) (now : ℕ) (db : PgDb)
    (v : IsSound db) where
  -- A store that does not accept a result raises.
  refused :
      (t : BatchFileStatus) (q j : Option Json) (reason : Option String)
      → refers (run_id_of j) db.runs ≡ false
      → (e : Failure) × (finalize_in_session n t q j reason now db ≡ err e)
  unfolding finalize_in_session
  refused t q j reason k = elim (Bool-cases (count (item_at n running) db.items == 1)) [
    | inl e ↦ (integrity_error, rw (e, k) refl)
    | inr e ↦ (state_conflict, rw e refl)
  ]

  -- Either the texts are accepted, or whatever follows their decoding raises.
  pub IsAccepted-or_raises :
      {A : Type 0} (t : BatchFileStatus) (reason : Option String) (next : String × PgDb → Result A)
      → IsAccepted loads db request result
        ⊎ ((e : Failure) × ((json_value loads request >>= λ q.
                json_value loads result >>= λ j. finalize_in_session n t q j reason now db >>= next)
              ≡ err e))
  IsAccepted-or_raises t reason next = elim (Result-cases (json_value loads request)) [
    | inr (e, k) ↦ inr (e, rw k refl)
    | inl (q, kq) ↦ elim (Result-cases (json_value loads result)) [
      | inr (e, k) ↦ inr (e, rw (kq, k) refl)
      | inl (j, kj) ↦ elim (Bool-cases (refers (run_id_of j) db.runs)) [
        | inl there ↦ inl (record {
          request_json = q;
          result_json = j;
          request_decodes = kq;
          result_decodes = kj;
          run_exists = there;
        })
        | inr k ↦ let (e, raises) = refused t q j reason k in inr (e, rw (kq, kj, raises) refl)
      ]
    ]
  ]

  pub finalize_file-Wrote :
      (t : BatchFileStatus) (reason : Option String)
      → Wrote IsSound view n t db (finalize_file loads n t request result reason now db)
  unfolding finalize_file
  finalize_file-Wrote t reason =
      elim (IsAccepted-or_raises {A = Unit {0} × PgDb} t reason (λ (b, db'). ok (tt, db'))) [
        | inl a ↦
            Shows-Wrote IsSound view n t db (finalize_file loads n t request result reason now db)
              (finalize_file-refines loads n request result reason now db v a t)
        | inr (e, raises) ↦ elim (Bool-cases (is_writable_final t)) [
          | inl f ↦ rw (f, raises) tt
          | inr f ↦ rw f tt
        ]
      ]

  pub letter-Wrote :
      (l : DeadLetter) (reason : Option String)
      → Wrote IsSound view n failed_final db
          (finalize_file_with_dead_letter loads n request result reason l now db)
  unfolding finalize_file_with_dead_letter
  letter-Wrote l reason =
      elim (IsAccepted-or_raises {A = Unit {0} × PgDb} failed_final reason (λ (b, db'). ok (
        tt,
        insert_letter record { batch_id = b; item_id = n; letter = l; created_at = now } db',
      ))) [
        | inl a ↦
            Shows-Wrote IsSound view n failed_final db
              (finalize_file_with_dead_letter loads n request result reason l now db)
              (finalize_file_with_dead_letter-refines loads n request result reason now db v a l)
        | inr (e, raises) ↦ rw raises tt
      ]

-- The store refines the board.
unfoldable pub postgres_refines : (loads : Loads) → Refines (postgres_store loads)
postgres_refines loads = record {
  IsSound = IsSound;
  IsAccepted = IsAccepted loads;
  view = view;
  reads = λ n d v. get_file-Reads n d;
  claims = claim_file-refines;
  moves = set_file_status-refines;
  writes = λ n t q r reason now d v. finalize_file-Wrote loads n q r now d v t reason;
  finishes = λ n t q r reason now d v a. finalize_file-refines loads n q r reason now d v a t;
  writes_letter = λ n q r reason l now d v. letter-Wrote loads n q r now d v l reason;
  finishes_letter = λ n q r reason l now d v a.
      finalize_file_with_dead_letter-refines loads n q r reason now d v a l;
  letters = record_dead_letter-Leaves;
}
