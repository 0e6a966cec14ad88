-- ===== src/Batch/Postgres/Closing.antt =====
-- When a final result ends its batch (`_finalize_file_in_session` of qc/batch/postgres_store.py).
use servicecheck.Base.{
  ℕ, String, ◌≡◌, refl, sym, ap, ◌∙◌, inl, inr, Bool, true, false, not, ◌&&◌, ◌||◌, Option, none,
  some, List, [], ◌∷◌, map, arith, ltb, if◌then◌else◌, same, same_refl, Bool-cases, Option-cases,
  ok-inj, any, all, select, find, count, Failure, Result, ok, err, ◌>>=◌, map_option, find-update,
}
use servicecheck.Batch.Models.{
  BatchFileStatus, running, human_review, failed_final, same_status, same_status→eq,
}
use servicecheck.Batch.Store.Files.{is_writable_final}
use servicecheck.Batch.Board.Rows.{is_at}
use servicecheck.Batch.Postgres.Tables.{Json, ItemRow, PgDb, JobRow, JobStatus, is_job, is_item}
use servicecheck.Batch.Postgres.Jobs.{in_job}
use servicecheck.Batch.Postgres.Finalize.{
  run_id_of, attach, outcome_of, close_batch, finalize_in_session, json_value, finalize_file,
}
use servicecheck.Batch.Postgres.Refines.{view, IsSound}
use servicecheck.Batch.Postgres.Finals.{
  close_batch-SameItems, written, with_result, written-find, finalize_in_session_running,
  IsAccepted,
}
use servicecheck.Batch.Postgres.Store.{IsAccepted-or_raises, finalize_file-Wrote}

-- The status of a batch, by whether an item failed and whether one waits for review.
abbrev pub verdict : Bool → Bool → JobStatus
verdict true _ = JobStatus.failed
verdict false true = JobStatus.partial
verdict false false = JobStatus.completed

abbrev pub some_at : String → BatchFileStatus → List ItemRow → Bool
some_at b s = any (λ i. in_job b i && same_status i.status s)

abbrev pub is_over : String → List ItemRow → Bool
is_over b = all (λ i. not (in_job b i) || is_writable_final i.status)

-- A batch after a final result, by its items.
abbrev pub closed_if_over : String → ℕ → List ItemRow → JobRow → JobRow
closed_if_over b now items j =
    if is_over b items
    then record j {
      status = verdict (some_at b failed_final items) (some_at b human_review items);
      finished_at = some now;
    }
    else j

any-count : (p : ItemRow → Bool) (xs : List ItemRow) → ltb 0 (count p xs) ≡ any p xs
any-count p [] = refl
any-count p (x ∷ xs) = ground (arith, any-count p xs)

all_terminal-is_over :
    (b : String) (xs : List ItemRow)
    → all is_writable_final (map (λ i. i.status) (select (in_job b) xs)) ≡ is_over b xs
all_terminal-is_over b [] = refl
all_terminal-is_over b (x ∷ xs) = ground (arith, all_terminal-is_over b xs)

if-verdict :
    (f h : Bool)
    → (if f then JobStatus.failed else if h then JobStatus.partial else JobStatus.completed)
      ≡ verdict f h
if-verdict true h = refl
if-verdict false true = refl
if-verdict false false = refl

outcome-verdict :
    (db : PgDb) (b : String)
    → outcome_of db b ≡ verdict (some_at b failed_final db.items) (some_at b human_review db.items)
outcome-verdict db b =
    rw
      (
        any-count (λ i. in_job b i && same_status i.status failed_final) db.items,
        any-count (λ i. in_job b i && same_status i.status human_review) db.items,
      )
      (if-verdict (some_at b failed_final db.items) (some_at b human_review db.items))

any-find :
    (b : String) (i : ItemRow) (n : ℕ) (xs : List ItemRow)
    → find (is_item n) xs ≡ some i
    → same i.batch_id b ≡ true
    → any (in_job b) xs ≡ true
any-find b i n [] h s = absurd (cc)
any-find b i n (x ∷ xs) h s = ground (arith, any-find b i n xs)

-- A batch that has an item.
close_batch-jobs :
    (now : ℕ) (db : PgDb) (b c : String)
    → any (in_job b) db.items ≡ true
    → find (is_job c) (close_batch now db b).jobs
      ≡ map_option
          (λ j. if is_job b j then closed_if_over b now db.items j else j)
          (find (is_job c) db.jobs)
close_batch-jobs now db b c there = elim (Bool-cases (is_over b db.items)) [
  | inl e ↦
      rw
        (
          any-count (in_job b) db.items,
          there,
          all_terminal-is_over b db.items,
          e,
          outcome-verdict db b,
        )
        (find-update (is_job c) (is_job b) _ (λ j. refl) db.jobs)
  | inr e ↦
      rw (any-count (in_job b) db.items, there, all_terminal-is_over b db.items, e)
        (unchanged (find (is_job c) db.jobs))
]
  where
    unchanged : (o : Option JobRow) → o ≡ map_option (λ j. if is_job b j then j else j) o
    unchanged none = refl
    unchanged (some j) = ground arith

running_row :
    (n : ℕ) (db : PgDb)
    → is_at running (view db n) ≡ true
    → (i : ItemRow) × (find (is_item n) db.items ≡ some i) × (i.status ≡ running)
running_row n db h = elim (Option-cases (find (is_item n) db.items)) [
  | inl missing ↦ absurd (ground arith)
  | inr (i, found) ↦ (i, found, same_status→eq i.status running (ground arith))
]

attach-jobs :
    (t : BatchFileStatus) (run : Option String) (n now : ℕ) (db : PgDb)
    → (attach t run n now db).jobs ≡ db.jobs
attach-jobs human_review (some run) n now db = elim (Bool-cases (same run "")) [
  | inl e ↦ rw e refl
  | inr e ↦ rw e refl
]
attach-jobs t run n now db = ground arith

module _ (loads : String → Result (Option Json)) (n : ℕ) (t : BatchFileStatus)
    (request result : String) (reason : Option String) (now : ℕ) (db : PgDb) (v : IsSound db) where
  abbrev EndsAs : PgDb → String → Type 0
  EndsAs db' b =
      (c : String)
      → find (is_job c) db'.jobs
        ≡ map_option (λ j. if is_job b j then closed_if_over b now db'.items j else j)
            (find (is_job c) db.jobs)

  written_closes :
      (q j : Option Json) (i : ItemRow)
      → find (is_item n) db.items ≡ some i
      → i.status ≡ running
      → EndsAs (close_batch now (written n t q j reason now db) i.batch_id) i.batch_id
  written_closes q j i found r c =
      let w : PgDb = written n t q j reason now db in
      let there =
        any-find i.batch_id (with_result t q j reason now i) n w.items
          (written-find n t q j reason now db v i found r) (same_refl i.batch_id) in
      let jobs : w.jobs ≡ db.jobs = attach-jobs t (run_id_of j) n now _ in
      rw ((close_batch-SameItems now w i.batch_id).0) (
        close_batch-jobs now w i.batch_id c there
        ∙ ap {B = Option JobRow}
            (λ js.
              map_option
                (λ k. if is_job i.batch_id k then closed_if_over i.batch_id now w.items k else k)
                (find (is_job c) js))
            jobs)

  returned_db :
      (a : IsAccepted loads db request result) (i : ItemRow)
      → is_writable_final t ≡ true
      → find (is_item n) db.items ≡ some i
      → i.status ≡ running
      → finalize_file loads n t request result reason now db
        ≡ ok (
          tt,
          close_batch now (written n t a.request_json a.result_json reason now db) i.batch_id,
        )
  unfolding finalize_file
  returned_db a i f found r =
      rw
        (
          f,
          a.request_decodes,
          a.result_decodes,
          finalize_in_session_running n t a.request_json a.result_json reason now db v i found r
              a.run_exists,
        )
        refl

  raises_file :
      (e : Failure)
      → is_writable_final t ≡ true
      → ◌≡◌ {A = Result (Unit {0} × PgDb)}
          (json_value loads request >>= λ q. json_value loads result >>= λ j.
            finalize_in_session n t q j reason now db >>= λ (b, d). ok (tt, d))
          (err e)
      → finalize_file loads n t request result reason now db ≡ err e
  unfolding finalize_file
  raises_file e f h = rw (f, h) refl

  -- When `finalize_file` returns, the item was RUNNING, and the status of its batch is what the items say
  -- after it: the batch ends at that time exactly when all its items are terminal, FAILED if one is
  -- FAILED_FINAL, else PARTIAL if one waits for review, else COMPLETED. Otherwise, and for other batches,
  -- nothing changes.
  pub finalize_file-closes :
      {db' : PgDb}
      → finalize_file loads n t request result reason now db ≡ ok (tt, db')
      → (i : ItemRow) × (find (is_item n) db.items ≡ some i)
        × (i.status ≡ running)
        × ((c : String)
            → find (is_job c) db'.jobs
              ≡ map_option
                  (λ j.
                    if is_job i.batch_id j then closed_if_over i.batch_id now db'.items j else j)
                  (find (is_job c) db.jobs))
  finalize_file-closes {db'} h =
      let (sound, f, here, shown) =
        rw h at (finalize_file-Wrote loads n request result now db v t reason) in
      let (i, found, r) = running_row n db here in
      (
        i,
        found,
        r,
        elim (IsAccepted-or_raises loads n request result now db v {A = Unit {0} × PgDb} t reason
            (λ (b, d). ok (tt, d))) [
              | inl a ↦
                  let e : close_batch now (written n t a.request_json a.result_json reason now db)
                        i.batch_id
                      ≡ db' =
                    ap {A = Unit {0} × PgDb} {B = PgDb} (λ p. p.1)
                      (ok-inj (sym (returned_db a i f found r) ∙ h)) in
                  rw e at (written_closes a.request_json a.result_json i found r)
              | inr (e, raises) ↦ absurd (let k = sym (raises_file e f raises) ∙ h in cc)
            ],
      )
