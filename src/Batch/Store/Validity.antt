-- ===== src/Batch/Store/Validity.antt =====
-- The well-formedness of the tables of `BatchStore`, which every operation keeps: ids ascend in
-- the order of insertion and stay below their counters, and the unique columns are unique.
use servicecheck.Base.{
  ◌+◌, String, ◌≡◌, refl, inl, inr, Bool, false, [], ◌∷◌, ◌++◌, arith, same, same_comm, Bool-cases,
  any, update, after, Ascends, Ascends-append, Ascends-update, Unique, Unique-append, Unique-update,
}
use servicecheck.Batch.Models.{FileRecord, BatchMeta}
use servicecheck.Batch.Store.Tables.{BatchRow, FileRow, StageRow, ExportRow, Db, empty_db}
use servicecheck.Batch.Store.Files.{create_batch, has_key, new_file}
use servicecheck.Batch.Store.Stages.{insert_stage}
use servicecheck.Batch.Store.Exports.{ExportKey, has_export_key}

abbrev pub same_key : FileRow → FileRow → Bool
same_key x y = has_key x.batch_id x.idempotency_key y

abbrev pub same_batch : BatchRow → BatchRow → Bool
same_batch x y = same y.batch_id x.batch_id

abbrev pub key_of : ExportRow → ExportKey
key_of e = record { batch_id = e.batch_id; format = e.format; artifact_uri = e.artifact_uri }

abbrev pub same_export : ExportRow → ExportRow → Bool
same_export x y = has_export_key (key_of x) y

pub record IsValid (db : Db) : Type 0 where
  pub files_ascend : Ascends FileRow.file_id 1 db.next_file db.files
  pub stages_ascend : Ascends StageRow.id 1 db.next_stage db.stages
  pub exports_ascend : Ascends ExportRow.export_id 1 db.next_export db.exports
  pub batches_unique : Unique same_batch db.batches
  pub keys_unique : Unique same_key db.files
  pub exports_unique : Unique same_export db.exports

pub empty_db-IsValid : IsValid empty_db
unfolding empty_db
empty_db-IsValid = record {
  files_ascend = omega arith;
  stages_ascend = omega arith;
  exports_ascend = omega arith;
  batches_unique = tt;
  keys_unique = tt;
  exports_unique = tt;
}

-- A change of rows that keeps their identity.
module _ (db : Db) (v : IsValid db) where
  pub IsValid-files :
      (p : FileRow → Bool) (f : FileRow → FileRow)
      → ((x : FileRow) → (f x).file_id ≡ x.file_id)
      → ((x y : FileRow) → same_key (f x) y ≡ same_key x y)
      → ((x y : FileRow) → same_key x (f y) ≡ same_key x y)
      → IsValid (record db { files = update p f db.files })
  IsValid-files p f id left right = record {
    files_ascend = Ascends-update _ p f id 1 db.next_file db.files v.files_ascend;
    stages_ascend = v.stages_ascend;
    exports_ascend = v.exports_ascend;
    batches_unique = v.batches_unique;
    keys_unique = Unique-update same_key p f left right db.files v.keys_unique;
    exports_unique = v.exports_unique;
  }

  pub IsValid-stages :
      (p : StageRow → Bool) (f : StageRow → StageRow)
      → ((x : StageRow) → (f x).id ≡ x.id)
      → IsValid (record db { stages = update p f db.stages })
  IsValid-stages p f id = record {
    files_ascend = v.files_ascend;
    stages_ascend = Ascends-update _ p f id 1 db.next_stage db.stages v.stages_ascend;
    exports_ascend = v.exports_ascend;
    batches_unique = v.batches_unique;
    keys_unique = v.keys_unique;
    exports_unique = v.exports_unique;
  }

  pub IsValid-exports :
      (p : ExportRow → Bool) (f : ExportRow → ExportRow)
      → ((x : ExportRow) → (f x).export_id ≡ x.export_id)
      → ((x y : ExportRow) → same_export (f x) y ≡ same_export x y)
      → ((x y : ExportRow) → same_export x (f y) ≡ same_export x y)
      → IsValid (record db { exports = update p f db.exports })
  IsValid-exports p f id left right = record {
    files_ascend = v.files_ascend;
    stages_ascend = v.stages_ascend;
    exports_ascend = Ascends-update _ p f id 1 db.next_export db.exports v.exports_ascend;
    batches_unique = v.batches_unique;
    keys_unique = v.keys_unique;
    exports_unique = Unique-update same_export p f left right db.exports v.exports_unique;
  }

  pub IsValid-insert_stage : (r : StageRow) → r.id ≡ db.next_stage → IsValid (insert_stage r db)
  IsValid-insert_stage r e = record {
    files_ascend = v.files_ascend;
    stages_ascend = Ascends-append _ 1 db.next_stage db.stages r e v.stages_ascend;
    exports_ascend = v.exports_ascend;
    batches_unique = v.batches_unique;
    keys_unique = v.keys_unique;
    exports_unique = v.exports_unique;
  }

  pub IsValid-new_file :
      (b : String) (r : FileRecord)
      → any (has_key b r.idempotency_key) db.files ≡ false
      → IsValid (record db {
        files = db.files ++ new_file db.next_file b r ∷ [];
        next_file = db.next_file + 1;
      })
  IsValid-new_file b r fresh = record {
    files_ascend =
        Ascends-append _ 1 db.next_file db.files (new_file db.next_file b r) refl v.files_ascend;
    stages_ascend = v.stages_ascend;
    exports_ascend = v.exports_ascend;
    batches_unique = v.batches_unique;
    keys_unique =
        Unique-append same_key
          (λ x y.
            rw (same_comm y.batch_id x.batch_id, same_comm y.idempotency_key x.idempotency_key))
          db.files (new_file db.next_file b r) fresh v.keys_unique;
    exports_unique = v.exports_unique;
  }

  pub IsValid-new_export :
      (e : ExportRow)
      → e.export_id ≡ db.next_export
      → any (same_export e) db.exports ≡ false
      → IsValid (record db { exports = db.exports ++ e ∷ []; next_export = db.next_export + 1 })
  IsValid-new_export e id fresh = record {
    files_ascend = v.files_ascend;
    stages_ascend = v.stages_ascend;
    exports_ascend = Ascends-append _ 1 db.next_export db.exports e id v.exports_ascend;
    batches_unique = v.batches_unique;
    keys_unique = v.keys_unique;
    exports_unique =
        Unique-append same_export
          (λ x y. rw (
            same_comm y.batch_id x.batch_id,
            same_comm y.format x.format,
            same_comm y.artifact_uri x.artifact_uri,
          ))
          db.exports e fresh v.exports_unique;
  }

  pub IsValid-create_batch : (m : BatchMeta) → IsValid (after (create_batch m db) db)
  unfolding create_batch
  IsValid-create_batch m = elim (Bool-cases (any (λ b. same b.batch_id m.batch_id) db.batches)) [
    | inl e ↦ rw e v
    | inr e ↦ rw e (record {
      files_ascend = v.files_ascend;
      stages_ascend = v.stages_ascend;
      exports_ascend = v.exports_ascend;
      batches_unique =
          Unique-append same_batch (λ x y. same_comm y.batch_id x.batch_id) db.batches _ e
            v.batches_unique;
      keys_unique = v.keys_unique;
      exports_unique = v.exports_unique;
    })
  ]
