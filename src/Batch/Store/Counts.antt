-- ===== src/Batch/Store/Counts.antt =====
-- Counting in `BatchStore`: idempotent inserts, the summary of a batch, and what a restart finds.
use servicecheck.Base.{
  ℕ, ◌+◌, String, ◌≡◌, refl, inl, inr, Bool, true, false, List, [], ◌∷◌, ◌++◌, arith, same,
  same_refl, Bool-cases, length, any, All, length-append, ok, after,
}
use servicecheck.Batch.Models.{FileRecord, BatchMeta}
use servicecheck.Batch.Store.Tables.{BatchRow, FileRow, Db}
use servicecheck.Batch.Store.Files.{
  create_batch, create_batch_if_absent, add_file, has_key, new_file,
}
use servicecheck.Batch.Ingest.{add_all, ingest}

has_key_append :
    (b k : String) (xs : List FileRow) (y : FileRow)
    → has_key b k y ≡ true
    → any (has_key b k) (xs ++ y ∷ []) ≡ true
has_key_append b k [] y h = ground arith
has_key_append b k (x ∷ xs) y h = ground (arith, has_key_append b k xs y h)

any-append_left :
    (b k : String) (xs : List FileRow) (y : FileRow)
    → any (has_key b k) xs ≡ true
    → any (has_key b k) (xs ++ y ∷ []) ≡ true
any-append_left b k [] y h = absurd (cc)
any-append_left b k (x ∷ xs) y h = ground (arith, any-append_left b k xs y)

-- The key of a record is in the table.
abbrev Holds : String → Db → FileRecord → Type 0
Holds b db r = any (has_key b r.idempotency_key) db.files ≡ true

abbrev added : String → FileRecord → Db → Db
added b r db = record db {
  files = db.files ++ new_file db.next_file b r ∷ [];
  next_file = db.next_file + 1;
}

add_file_old :
    (b : String) (r : FileRecord) (db : Db) → Holds b db r → add_file b r db ≡ ok (false, db)
unfolding add_file
add_file_old b r db h = rw h refl

add_file_new :
    (b : String) (r : FileRecord) (db : Db)
    → any (has_key b r.idempotency_key) db.files ≡ false
    → add_file b r db ≡ ok (true, added b r db)
unfolding add_file
add_file_new b r db h = rw h refl

add_all_old :
    (b : String) (rs : List FileRecord) (k : ℕ) (db : Db)
    → All (Holds b db) rs
    → add_all b rs k db ≡ ok (k, db)
unfolding add_all
add_all_old b [] k db h = refl
add_all_old b (r ∷ rs) k db h = rw (add_file_old b r db h.0) (add_all_old b rs k db h.1)

-- What add_all leaves: every key, old or of the records, and one row more for each record counted.
record Added (b : String) (rs : List FileRecord) (k : ℕ) (db : Db) : Type 0 where
  total : ℕ
  tables : Db
  ran : add_all b rs k db ≡ ok (total, tables)
  held : All (Holds b tables) rs
  kept : (q : FileRecord) → Holds b db q → Holds b tables q
  same_batches : tables.batches ≡ db.batches
  grown : length tables.files + k ≡ length db.files + total

add_all-Added : (b : String) (rs : List FileRecord) (k : ℕ) (db : Db) → Added b rs k db
unfolding add_all
add_all-Added b [] k db = record {
  total = k;
  tables = db;
  ran = refl;
  held = tt;
  kept = λ q h. h;
  same_batches = refl;
  grown = refl;
}
add_all-Added b (r ∷ rs) k db = elim (Bool-cases (any (has_key b r.idempotency_key) db.files)) [
  | inl e ↦
      let a = add_all-Added b rs k db in
      record {
        total = a.total;
        tables = a.tables;
        ran = rw (add_file_old b r db e) a.ran;
        held = (a.kept r e, a.held);
        kept = a.kept;
        same_batches = a.same_batches;
        grown = a.grown;
      }
  | inr e ↦
      let a = add_all-Added b rs (k + 1) (added b r db) in
      let row = new_file db.next_file b r in
      record {
        total = a.total;
        tables = a.tables;
        ran = rw (add_file_new b r db e) a.ran;
        held = (
          a.kept r (
              has_key_append b r.idempotency_key db.files row
                (ground (arith, same_refl b, same_refl r.idempotency_key))),
          a.held,
        );
        kept = λ q h. a.kept q (any-append_left b q.idempotency_key db.files row h);
        same_batches = a.same_batches;
        grown = omega (arith, a.grown, length-append db.files (row ∷ []));
      }
]

abbrev has_batch : String → Db → Bool
has_batch b db = any (λ r. same r.batch_id b) db.batches

has_batch_append :
    (b : String) (xs : List BatchRow) (y : BatchRow)
    → same y.batch_id b ≡ true
    → any (λ r. same r.batch_id b) (xs ++ y ∷ []) ≡ true
has_batch_append b [] y h = ground arith
has_batch_append b (x ∷ xs) y h = ground (arith, has_batch_append b xs y h)

create_batch_if_absent_old :
    (m : BatchMeta) (db : Db)
    → has_batch m.batch_id db ≡ true
    → create_batch_if_absent m db ≡ ok (false, db)
unfolding create_batch_if_absent
create_batch_if_absent_old m db h = rw h refl

create_batch_if_absent_lem :
    (m : BatchMeta) (db : Db)
    → (c : Bool) × (d : Db) × (create_batch_if_absent m db ≡ ok (c, d))
      × (has_batch m.batch_id d ≡ true)
      × (d.files ≡ db.files)
unfolding create_batch_if_absent
create_batch_if_absent_lem m db = elim (Bool-cases (has_batch m.batch_id db)) [
  | inl e ↦ (false, db, rw e refl, e, refl)
  | inr e ↦ (
    true,
    after (create_batch m db) db,
    rw e refl,
    rw e (has_batch_append m.batch_id db.batches _ (same_refl m.batch_id)),
    rw e refl,
  )
]

-- Ingesting never fails: the number returned is the number of files that the table has gained, and
-- ingesting the same records again adds none and leaves the tables as they are.
pub ingest_twice :
    (m : BatchMeta) (rs : List FileRecord) (db : Db)
    → (n : ℕ) × (d : Db) × (ingest m.batch_id rs m db ≡ ok (n, d))
      × (length d.files ≡ length db.files + n)
      × (ingest m.batch_id rs m d ≡ ok (0, d))
unfolding ingest
ingest_twice m rs db =
    let (c, d, made, there, files) = create_batch_if_absent_lem m db in
    let a = add_all-Added m.batch_id rs 0 d in
    (
      a.total,
      a.tables,
      rw made a.ran,
      ground (arith, a.grown, files),
      rw (create_batch_if_absent_old m a.tables (rw a.same_batches there))
          (add_all_old m.batch_id rs 0 a.tables a.held),
    )
