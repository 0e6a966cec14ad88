-- ===== src/Batch/Store/Rules.antt =====
-- What an operation of `BatchStore` leaves, case by case: to prove a property of the tables after
-- a call it is enough to prove it of the tables before, and of each change that a call can make.
use servicecheck.Base.{
  ℕ, ◌+◌, String, ◌≡◌, inl, inr, true, false, Option, none, some, [], ◌∷◌, ◌++◌, ◌==◌, Bool-cases,
  any, find, update, count, after, Result-cases,
}
use servicecheck.Batch.Models.{BatchFileStatus, running, valid_transition, FileRecord}
use servicecheck.Batch.Store.Tables.{FileRow, StageRow, ExportRow, Db}
use servicecheck.Batch.Store.Files.{
  StatusArg, status_value, add_file, claim_file, set_file_status, finalize_file, has_id, has_status,
  is_claimable, set_running, is_final, is_writable_final, set_status, set_result, has_key, new_file,
  claim, move_file, change_status, finalize,
}
use servicecheck.Batch.Store.Stages.{update_running, runs}
use servicecheck.Batch.Store.Exports.{upsert, ExportKey, has_export_key}

module _ {κ} (P : Db → Type κ) (db : Db) (as_before : P db) where
  claim-rule :
      (n : ℕ) (s : BatchFileStatus)
      → (is_claimable s ≡ true
          → P (record db { files = update (has_status n s) set_running db.files }))
      → P (after (claim n s db) db)
  claim-rule n s changed = elim (Bool-cases (is_claimable s)) [
    | inl c ↦ rw c (changed c)
    | inr c ↦ rw c as_before
  ]

  pub claim_file-rule :
      (n : ℕ) (a : StatusArg)
      → ((s : BatchFileStatus)
          → is_claimable s ≡ true
          → P (record db { files = update (has_status n s) set_running db.files }))
      → P (after (claim_file n a db) db)
  unfolding claim_file
  claim_file-rule n a changed = elim (Result-cases (status_value a)) [
    | inl (s, e) ↦ rw e (claim-rule n s (changed s))
    | inr (x, e) ↦ rw e as_before
  ]

  move_file-rule :
      (n : ℕ) (t : BatchFileStatus) (r : Option String) (row : Option FileRow)
      → ((s : BatchFileStatus)
          → valid_transition s t ≡ true
          → P (record db { files = update (has_status n s) (set_status t r) db.files }))
      → P (after (move_file n t r db row) db)
  move_file-rule n t r none changed = as_before
  move_file-rule n t r (some row) changed = elim (Bool-cases (valid_transition row.status t)) [
    | inl v ↦ elim (Bool-cases (count (has_status n row.status) db.files == 1)) [
      | inl c ↦ rw (v, c) (changed row.status v)
      | inr c ↦ rw (v, c) as_before
    ]
    | inr v ↦ rw v as_before
  ]

  change_status-rule :
      (n : ℕ) (t : BatchFileStatus) (r : Option String)
      → ((s : BatchFileStatus)
          → valid_transition s t ≡ true
          → P (record db { files = update (has_status n s) (set_status t r) db.files }))
      → P (after (change_status n t r db) db)
  change_status-rule n t r changed = elim (Bool-cases (is_final t)) [
    | inl e ↦ rw e as_before
    | inr e ↦ rw e (move_file-rule n t r (find (has_id n) db.files) changed)
  ]

  pub set_file_status-rule :
      (n : ℕ) (a : StatusArg) (r : Option String)
      → ((s t : BatchFileStatus)
          → valid_transition s t ≡ true
          → P (record db { files = update (has_status n s) (set_status t r) db.files }))
      → P (after (set_file_status n a r db) db)
  unfolding set_file_status
  set_file_status-rule n a r changed = elim (Result-cases (status_value a)) [
    | inl (t, e) ↦ rw e (change_status-rule n t r (λ s. changed s t))
    | inr (x, e) ↦ rw e as_before
  ]

  finalize-rule :
      (n : ℕ) (t : BatchFileStatus) (q r : String) (w : Option String)
      → (is_writable_final t ≡ true
          → P (record db { files = update (has_status n running) (set_result t q r w) db.files }))
      → P (after (finalize n t q r w db) db)
  finalize-rule n t q r w changed = elim (Bool-cases (is_writable_final t)) [
    | inl v ↦ elim (Bool-cases (count (has_status n running) db.files == 1)) [
      | inl c ↦ rw (v, c) (changed v)
      | inr c ↦ rw (v, c) as_before
    ]
    | inr v ↦ rw v as_before
  ]

  pub finalize_file-rule :
      (n : ℕ) (a : StatusArg) (q r : String) (w : Option String)
      → ((t : BatchFileStatus)
          → is_writable_final t ≡ true
          → P (record db { files = update (has_status n running) (set_result t q r w) db.files }))
      → P (after (finalize_file n a q r w db) db)
  unfolding finalize_file
  finalize_file-rule n a q r w changed = elim (Result-cases (status_value a)) [
    | inl (t, e) ↦ rw e (finalize-rule n t q r w (changed t))
    | inr (x, e) ↦ rw e as_before
  ]

  pub add_file-rule :
      (b : String) (r : FileRecord)
      → (any (has_key b r.idempotency_key) db.files ≡ false
          → P (record db {
            files = db.files ++ new_file db.next_file b r ∷ [];
            next_file = db.next_file + 1;
          }))
      → P (after (add_file b r db) db)
  unfolding add_file
  add_file-rule b r changed = elim (Bool-cases (any (has_key b r.idempotency_key) db.files)) [
    | inl e ↦ rw e as_before
    | inr e ↦ rw e (changed e)
  ]

  pub update_running-rule :
      (f : StageRow → StageRow) (r : Option StageRow)
      → ((i : ℕ) → P (record db { stages = update (runs i) f db.stages }))
      → P (after (update_running f db r) db)
  update_running-rule f none changed = as_before
  update_running-rule f (some r) changed = elim (Bool-cases (count (runs r.id) db.stages == 1)) [
    | inl c ↦ rw c (changed r.id)
    | inr c ↦ rw c as_before
  ]

  pub upsert-rule :
      (k : ExportKey) (e : ExportRow) (f : ExportRow → ExportRow)
      → P (record db { exports = update (has_export_key k) f db.exports })
      → (any (has_export_key k) db.exports ≡ false
          → P (record db { exports = db.exports ++ e ∷ []; next_export = db.next_export + 1 }))
      → P (upsert k e f db)
  upsert-rule k e f changed added = elim (Bool-cases (any (has_export_key k) db.exports)) [
    | inl x ↦ rw x changed
    | inr x ↦ rw x (added x)
  ]
