-- ===== src/Batch/Store/Refined.antt =====
-- `BatchStore` (qc/batch/store.py) as the store of a worker, which has no dead letters.
use servicecheck.Base.{
  ℕ, String, ◌≡◌, refl, inl, inr, true, false, Option, none, some, arith, ◌==◌, Bool-cases,
  Option-cases, find, update, count, update_id, ok, ◌>>=◌, Ascends, Ascends-update,
}
use servicecheck.Batch.Models.{BatchFileStatus, running, same_status, valid_transition}
use servicecheck.Batch.Store.Tables.{Db, FileRow}
use servicecheck.Batch.Store.Files.{
  StatusArg, status_value, has_id, has_status, is_claimable, set_running, claim_file, is_final,
  set_status, move_file, set_file_status, is_writable_final, set_result, finalize_file,
}
use servicecheck.Batch.Store.Stages.{get_file, file_row_with_stages, or_key_error}
use servicecheck.Batch.Board as Spec
use servicecheck.Batch.Board.{Shows}
use servicecheck.Batch.Board.Rows.{
  Entry, Board, is_at, map_entry, set_at, one_if, view_of, entry_of, count_at, view_of-set,
}
use servicecheck.Batch.Board.ItemStore.{ItemStore, Refines, Reads, Shows-Wrote}

abbrev pub file_entry : FileRow → Entry
file_entry f = record { batch = f.batch_id; status = f.status }

abbrev pub view : Db → Board
view db = view_of FileRow.file_id file_entry db.files

abbrev pub IsSound : Db → Type 0
IsSound db = Ascends FileRow.file_id 1 db.next_file db.files

count-has_status :
    (n : ℕ) (s : BatchFileStatus) (db : Db)
    → IsSound db
    → count (has_status n s) db.files ≡ one_if (is_at s (view db n))
count-has_status n s db v = count_at FileRow.file_id file_entry n s 1 db.next_file db.files v

one_row :
    (n : ℕ) (s : BatchFileStatus) (db : Db)
    → IsSound db
    → (count (has_status n s) db.files == 1) ≡ is_at s (view db n)
one_row n s db v =
    rw (count-has_status n s db v)
      (elim (Bool-cases (is_at s (view db n))) [ inl e ↦ rw e refl | inr e ↦ rw e refl ])

no_row :
    (n : ℕ) (s : BatchFileStatus) (db : Db)
    → IsSound db
    → is_at s (view db n) ≡ false
    → count (has_status n s) db.files ≡ 0
no_row n s db v e = rw (count-has_status n s db v, e) refl

-- An update of the one row that is in a status.
module _ (n : ℕ) (s t : BatchFileStatus) (f : FileRow → FileRow)
    (keep : (x : FileRow) → (f x).file_id ≡ x.file_id)
    (sets : (x : FileRow) → file_entry (f x) ≡ map_entry t (file_entry x)) (db : Db)
    (v : IsSound db) where
  abbrev changed : Db
  changed = record db { files = update (has_status n s) f db.files }

  changed-IsSound : IsSound changed
  changed-IsSound = Ascends-update FileRow.file_id (has_status n s) f keep 1 db.next_file db.files v

  changed-view : is_at s (view db n) ≡ true → (m : ℕ) → view changed m ≡ set_at n t (view db) m
  changed-view here = view_of-set FileRow.file_id file_entry n s t f keep sets db.files here

claim_file-Claims :
    (n : ℕ) (s : BatchFileStatus) (db : Db)
    → IsSound db
    → (db' : Db) × (claim_file n (StatusArg.member s) db ≡ ok ((Spec.claim n s (view db)).0, db'))
      × IsSound db'
      × ((m : ℕ) → view db' m ≡ (Spec.claim n s (view db)).1 m)
unfolding claim_file status_value
claim_file-Claims n s db v = elim (Bool-cases (is_claimable s)) [
  | inl c ↦ elim (Bool-cases (is_at s (view db n))) [
    | inl e ↦
        rw (c, one_row n s db v, e)
          (
            changed n s running set_running (λ x. refl) (λ x. refl) db v,
            refl,
            changed-IsSound n s running set_running (λ x. refl) (λ x. refl) db v,
            changed-view n s running set_running (λ x. refl) (λ x. refl) db v e,
          )
    | inr e ↦
        rw
          (
            c,
            one_row n s db v,
            e,
            update_id (has_status n s) set_running db.files (no_row n s db v e),
          )
          (db, refl, v, λ m. refl)
  ]
  | inr c ↦ rw c (db, refl, v, λ m. refl)
]

same_status_refl : (s : BatchFileStatus) → same_status s s ≡ true
same_status_refl s = ground arith

moved_file :
    (n : ℕ) (t : BatchFileStatus) (reason : Option String) (db : Db) (i : FileRow)
    → IsSound db
    → find (has_id n) db.files ≡ some i
    → Shows IsSound view
        (move_file n t reason db (some i))
        (Spec.move_entry n t (view db) (some (file_entry i)))
moved_file n t reason db i v e = elim (Bool-cases (valid_transition i.status t)) [
  | inl k ↦
      let here : is_at i.status (view db n) ≡ true = rw e (same_status_refl i.status) in
      rw (k, one_row n i.status db v, here)
        (
          changed-IsSound n i.status t (set_status t reason) (λ x. refl) (λ x. refl) db v,
          changed-view n i.status t (set_status t reason) (λ x. refl) (λ x. refl) db v here,
        )
  | inr k ↦ rw k refl
]

set_file_status-Shows :
    (n : ℕ) (t : BatchFileStatus) (reason : Option String) (db : Db)
    → IsSound db
    → Shows IsSound view
        (set_file_status n (StatusArg.member t) reason db)
        (Spec.move n t (view db))
unfolding set_file_status status_value
set_file_status-Shows n t reason db v = elim (Bool-cases (is_final t)) [
  | inl e ↦ rw e refl
  | inr e ↦ elim (Option-cases (find (has_id n) db.files)) [
    | inl k ↦ rw (e, k) refl
    | inr (i, k) ↦ rw (e, k) (moved_file n t reason db i v k)
  ]
]

finalize_file-Shows :
    (n : ℕ) (t : BatchFileStatus) (q r : String) (reason : Option String) (db : Db)
    → IsSound db
    → Shows IsSound view
        (finalize_file n (StatusArg.member t) q r reason db)
        (Spec.finish n t (view db))
unfolding finalize_file status_value
finalize_file-Shows n t q r reason db v = elim (Bool-cases (is_writable_final t)) [
  | inl f ↦ elim (Bool-cases (is_at running (view db n))) [
    | inl e ↦
        rw (f, one_row n running db v, e)
          (
            changed-IsSound n running t (set_result t q r reason) (λ x. refl) (λ x. refl) db v,
            changed-view n running t (set_result t q r reason) (λ x. refl) (λ x. refl) db v e,
          )
    | inr e ↦ rw (f, one_row n running db v, e) refl
  ]
  | inr f ↦ rw f refl
]

Reads-or_key_error :
    (db : Db) (o : Option FileRow)
    → Reads
        (or_key_error o >>= λ f. ok (file_row_with_stages db f))
        (entry_of FileRow.file_id file_entry o)
unfolding file_row_with_stages
Reads-or_key_error db none = refl
Reads-or_key_error db (some f) = refl

get_file-Reads : (n : ℕ) (db : Db) → Reads (get_file n db) (view db n)
unfolding get_file
get_file-Reads n db = Reads-or_key_error db (find (has_id n) db.files)

abbrev pub batch_store : ItemStore Db
batch_store = record {
  get_file = get_file;
  claim_file = λ n s now. claim_file n (StatusArg.member s);
  set_file_status = λ n t reason now. set_file_status n (StatusArg.member t) reason;
  finalize_file = λ n t q r reason now. finalize_file n (StatusArg.member t) q r reason;
  finalize_file_with_dead_letter = none;
  record_dead_letter = none;
}

-- The store refines the board, and accepts all texts.
batch_refines : Refines batch_store
batch_refines = record {
  IsSound = IsSound;
  IsAccepted = λ d q r. Unit {0};
  view = view;
  reads = λ n d v. get_file-Reads n d;
  claims = λ n s now d v. claim_file-Claims n s d v;
  moves = λ n t reason now d v. set_file_status-Shows n t reason d v;
  writes = λ n t q r reason now d v.
      Shows-Wrote IsSound view n t d _ (finalize_file-Shows n t q r reason d v);
  finishes = λ n t q r reason now d v a. finalize_file-Shows n t q r reason d v;
  writes_letter = tt;
  finishes_letter = tt;
  letters = tt;
}
