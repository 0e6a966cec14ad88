-- ===== src/Batch/Store/Restart.antt =====
-- The summary of a batch, and what a restart of the orchestrator finds in the tables.
use servicecheck.Base.{
  ℕ, suc, ◌+◌, String, ◌≡◌, refl, sym, ap, ◌∙◌, ◌&&◌, List, [], ◌∷◌, map, arith, length, select,
  update, count, count-eq-length-select, ok,
}
use servicecheck.Batch.Models.{BatchFileStatus, pending, running, interrupted, same_status→eq}
use servicecheck.Batch.Store.Tables.{FileRow, Db}
use servicecheck.Batch.Store.Files.{mark_interrupted_running, is_running_in, set_interrupted}
use servicecheck.Batch.Models.{done, failed_final, dead_letter, human_review}
use servicecheck.Batch.Store.Stages.{FileView, file_row_with_stages}
use servicecheck.Batch.Store.Exports.{
  in_batch, in_batch_with, has_any_of, is_resumable, resume_candidates, list_files, batch_summary,
}
use servicecheck.Batch.Ingest.{resume_from}

length-map : (f : FileRow → FileView) (xs : List FileRow) → length (map f xs) ≡ length xs
length-map f [] = refl
length-map f (x ∷ xs) = ap suc (length-map f xs)

abbrev counted : String → BatchFileStatus → List FileRow → ℕ
counted b s xs = count (in_batch_with b s) xs

count_by_status :
    (b : String) (xs : List FileRow)
    → count (in_batch b) xs
      ≡ counted b pending xs
        + counted b running xs
        + counted b interrupted xs
        + counted b done xs
        + counted b human_review xs
        + counted b failed_final xs
        + counted b dead_letter xs
count_by_status b [] = omega arith
count_by_status b (x ∷ xs) = ground (arith, count_by_status b xs)

listed_all :
    (b : String) (xs : List FileRow)
    → count (in_batch b) xs ≡ count (λ f. in_batch b f && has_any_of [] f) xs
listed_all b [] = refl
listed_all b (x ∷ xs) = ground (arith, listed_all b xs)

listed_with :
    (b : String) (s : BatchFileStatus) (xs : List FileRow)
    → counted b s xs ≡ count (λ f. in_batch b f && has_any_of (s ∷ []) f) xs
listed_with b s [] = refl
listed_with b s (x ∷ xs) = ground (arith, listed_with b s xs)

length-list_files :
    (b : String) (ss : List BatchFileStatus) (db : Db)
    → count (λ f. in_batch b f && has_any_of ss f) db.files ≡ length (list_files b ss db)
unfolding list_files
length-list_files b ss db =
    let listed = λ (f : FileRow). in_batch b f && has_any_of ss f in
    count-eq-length-select listed db.files
    ∙ sym (length-map (file_row_with_stages db) (select listed db.files))

-- The total of a batch's summary is the number of files that list_files returns without a filter, and
-- the sum of its counts by status; and each count is the number of files that list_files returns for
-- that status alone.
pub batch_summary_total :
    (b : String) (db : Db)
    → let s = batch_summary b db in
      (s.total ≡ length (list_files b [] db))
      × (s.total
          ≡ s.by_status pending
            + s.by_status running
            + s.by_status interrupted
            + s.by_status done
            + s.by_status human_review
            + s.by_status failed_final
            + s.by_status dead_letter)
      × ((t : BatchFileStatus) → s.by_status t ≡ length (list_files b (t ∷ []) db))
unfolding batch_summary
batch_summary_total b db = (
  listed_all b db.files ∙ length-list_files b [] db,
  count_by_status b db.files,
  λ t. listed_with b t db.files ∙ length-list_files b (t ∷ []) db,
)

interrupted_all :
    (b : String) (xs : List FileRow)
    → let ys = update (is_running_in b) set_interrupted xs in
      (counted b running ys ≡ 0)
      × (count (is_resumable b) ys
          ≡ counted b pending xs + counted b interrupted xs + counted b running xs)
      × (counted b interrupted ys ≡ counted b interrupted xs + counted b running xs)
interrupted_all b [] = (refl, refl, refl)
interrupted_all b (x ∷ xs) = ground (arith, interrupted_all b xs)

kept_status :
    (b : String) (s : BatchFileStatus) (xs : List FileRow)
    → (s ≡ running → ⊥)
    → (s ≡ interrupted → ⊥)
    → counted b s (update (is_running_in b) set_interrupted xs) ≡ counted b s xs
kept_status b s [] h k = refl
kept_status b s (x ∷ xs) h k =
    ground (arith, kept_status b s xs h k, same_status→eq x.status s, same_status→eq interrupted s)

-- A restart: it leaves no file of the batch RUNNING, hands over exactly as many files as were
-- PENDING, INTERRUPTED or left RUNNING, and keeps the count of every other status.
pub resume_from_counts :
    (b : String) (db : Db)
    → (fs : List FileView) × (d : Db) × (resume_from b db ≡ ok (fs, d))
      × ((batch_summary b d).by_status running ≡ 0)
      × (length fs
          ≡ (batch_summary b db).by_status pending
            + (batch_summary b db).by_status interrupted
            + (batch_summary b db).by_status running)
      × ((s : BatchFileStatus)
          → (s ≡ running → ⊥)
          → (s ≡ interrupted → ⊥)
          → (batch_summary b d).by_status s ≡ (batch_summary b db).by_status s)
unfolding resume_from mark_interrupted_running batch_summary resume_candidates
resume_from_counts b db =
    let d = record db { files = update (is_running_in b) set_interrupted db.files } in
    (
      map (file_row_with_stages d) (select (is_resumable b) d.files),
      d,
      refl,
      (interrupted_all b db.files).0,
      length-map (file_row_with_stages d) (select (is_resumable b) d.files)
          ∙ sym (count-eq-length-select (is_resumable b) d.files)
          ∙ (interrupted_all b db.files).1,
      (λ s h k. kept_status b s db.files h k),
    )
