-- ===== src/Batch/Postgres/Refines.antt =====
-- The items of `PostgresBatchStore` (qc/batch/postgres_store.py) refine the board of Batch/Board.
use servicecheck.Base.{
  ℕ, String, ◌≡◌, refl, inl, inr, true, ◌&&◌, Option, some, arith, ◌==◌, Bool-cases, Option-cases,
  find, count, ok, after, Ascends, Ascends-update,
}
use servicecheck.Batch.Models.{BatchFileStatus, running, same_status, valid_transition}
use servicecheck.Batch.Store.Files.{is_claimable, is_final}
use servicecheck.Batch.Board as Spec
use servicecheck.Batch.Board.{Shows, Shows-then}
use servicecheck.Batch.Board.Rows.{
  Entry, Board, is_at, one_if, view_of, count_at, view_of-update, view_of-set,
}
use servicecheck.Batch.Postgres.Tables.{ItemRow, PgDb, is_item}
use servicecheck.Batch.Postgres.Items.{
  item_at, set_running, claimed_db, claim_file, set_status, move_item, set_file_status,
  is_running_in, set_interrupted, mark_interrupted_running,
}

abbrev pub item_entry : ItemRow → Entry
item_entry i = record { batch = i.batch_id; status = i.status }

abbrev pub view : PgDb → Board
view db = view_of ItemRow.item_id item_entry db.items

-- The ids of the items ascend, below the counter.
abbrev pub IsSound : PgDb → Type 0
IsSound db = Ascends ItemRow.item_id 1 db.next_item db.items

count-item_at :
    (n : ℕ) (s : BatchFileStatus) (db : PgDb)
    → IsSound db
    → count (item_at n s) db.items ≡ one_if (is_at s (view db n))
count-item_at n s db v = count_at ItemRow.item_id item_entry n s 1 db.next_item db.items v

-- A row count is one exactly when the entry is in the status.
pub one_row :
    (n : ℕ) (s : BatchFileStatus) (db : PgDb)
    → IsSound db
    → (count (item_at n s) db.items == 1) ≡ is_at s (view db n)
one_row n s db v =
    rw (count-item_at n s db v)
      (elim (Bool-cases (is_at s (view db n))) [ inl e ↦ rw e refl | inr e ↦ rw e refl ])

-- On tables whose ids of items ascend, `claim_file` returns, and refines the claim of the board: True exactly
-- when the expected status is PENDING or INTERRUPTED and the entry is in it. The entry is then RUNNING, and
-- no other entry changes; otherwise none does.
pub claim_file-refines :
    (n : ℕ) (s : BatchFileStatus) (now : ℕ) (db : PgDb)
    → IsSound db
    → (db' : PgDb) × (claim_file n s now db ≡ ok ((Spec.claim n s (view db)).0, db'))
      × IsSound db'
      × ((m : ℕ) → view db' m ≡ (Spec.claim n s (view db)).1 m)
unfolding claim_file
claim_file-refines n s now db v = elim (Bool-cases (is_claimable s && is_at s (view db n))) [
  | inl e ↦
      rw (one_row n s db v, e)
        (
          claimed_db n s now db,
          refl,
          Ascends-update ItemRow.item_id (item_at n s) (set_running now) (λ x. refl) 1 db.next_item
              db.items v,
          view_of-set ItemRow.item_id item_entry n s running (set_running now) (λ x. refl)
              (λ x. refl) db.items (ground arith),
        )
  | inr e ↦ rw (one_row n s db v, e) (db, refl, v, λ m. refl)
]

same_status_refl : (s : BatchFileStatus) → same_status s s ≡ true
same_status_refl s = ground arith

-- The row that is moved.
moved_item :
    (n : ℕ) (t : BatchFileStatus) (reason : Option String) (now : ℕ) (db : PgDb) (i : ItemRow)
    → IsSound db
    → find (is_item n) db.items ≡ some i
    → Shows IsSound view
        (move_item n t reason now db (some i))
        (Spec.move_entry n t (view db) (some (item_entry i)))
moved_item n t reason now db i v e = elim (Bool-cases (valid_transition i.status t)) [
  | inl k ↦
      let here : is_at i.status (view db n) ≡ true = rw e (same_status_refl i.status) in
      rw (k, one_row n i.status db v, here)
        (
          Ascends-update ItemRow.item_id (item_at n i.status) (set_status t reason now) (λ x. refl)
              1 db.next_item db.items v,
          view_of-set ItemRow.item_id item_entry n i.status t (set_status t reason now) (λ x. refl)
              (λ x. refl) db.items here,
        )
  | inr k ↦ rw k refl
]

-- On tables whose ids of items ascend, `set_file_status` refines the move of the board: it raises the same
-- exceptions (a final status, a missing item, a status without that transition), and where it returns the
-- entry has the status and no other entry changes.
pub set_file_status-refines :
    (n : ℕ) (t : BatchFileStatus) (reason : Option String) (now : ℕ) (db : PgDb)
    → IsSound db
    → Shows IsSound view (set_file_status n t reason now db) (Spec.move n t (view db))
unfolding set_file_status
set_file_status-refines n t reason now db v = elim (Bool-cases (is_final t)) [
  | inl e ↦ rw e refl
  | inr e ↦ elim (Option-cases (find (is_item n) db.items)) [
    | inl k ↦ rw (e, k) refl
    | inr (i, k) ↦ rw (e, k) (moved_item n t reason now db i v k)
  ]
]

-- `mark_interrupted_running` refines the interruption of a batch on the board: every RUNNING item of it is INTERRUPTED, and no other changes.
pub mark_interrupted_running-refines :
    (b : String) (now : ℕ) (db : PgDb) (m : ℕ)
    → view (after (mark_interrupted_running b now db) db) m ≡ Spec.interrupt b (view db) m
unfolding mark_interrupted_running
mark_interrupted_running-refines b now db m =
    view_of-update ItemRow.item_id item_entry (is_running_in b) (set_interrupted now)
      (λ n. Spec.interrupt_if b) (λ x. refl) (λ x. refl) db.items m
