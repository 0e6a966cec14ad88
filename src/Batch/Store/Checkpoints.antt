-- ===== src/Batch/Store/Checkpoints.antt =====
-- The checkpoint of a stage (`get_stage_checkpoint`) under the operations of `BatchStore`.
use servicecheck.Base.{
  ℕ, ◌+◌, ◌≡◌, refl, inl, inr, Bool, true, false, ◌&&◌, Option, none, some, arith, ◌==◌, Bool-cases,
  Option-cases, update, find_last-append_one, find_last-update, find_last_fits, find_last_unique,
}
use servicecheck.Batch.Models.{StageStatus, StageName, same_stage, same_stage→eq, same_stage_refl}
use servicecheck.Batch.Store.Tables.{StageRow, Db}
use servicecheck.Batch.Store.Stages.{
  begin_stage, latest, get_stage_checkpoint, is_for, row_is, run_again, new_stage, normal_attempts,
  first_run,
}
use servicecheck.Batch.Store.Validity.{IsValid}

abbrev pub attempts_of : Option StageRow → ℕ
attempts_of none = 0
attempts_of (some r) = r.attempts

-- A checkpoint of the k-th run, which began at a time: nothing of an earlier run is left.
abbrev pub IsFresh : ℕ → ℕ → StageRow → Type 0
IsFresh k now r =
    (r.status ≡ StageStatus.running)
    × (r.attempts ≡ k)
    × (r.artifact_uri ≡ none)
    × (r.sha256 ≡ none)
    × (r.producer_version ≡ none)
    × (r.error_code ≡ none)
    × (r.retryable ≡ none)
    × (r.error ≡ none)
    × (r.started_at ≡ some now)
    × (r.finished_at ≡ none)
    × (r.duration_ms ≡ 0)

-- The stage of another file, or another stage of the file.
abbrev pub Apart : ℕ → StageName → ℕ → StageName → Type 0
Apart n s m t = (m == n && same_stage t s) ≡ false

latest_fits :
    (n : ℕ) (s : StageName) (db : Db) (r : StageRow)
    → latest n s db ≡ some r
    → (r.file_id ≡ n) × (r.stage ≡ s)
unfolding latest
latest_fits n s db r h =
    ground (arith, find_last_fits (is_for n s) db.stages r h, same_stage→eq r.stage s)

-- Another stage's latest row is another row.
Apart-id :
    (n : ℕ) (s : StageName) (m : ℕ) (t : StageName) (db : Db) (r q : StageRow)
    → IsValid db
    → Apart n s m t
    → latest n s db ≡ some r
    → latest m t db ≡ some q
    → (q.id == r.id) ≡ false
unfolding latest
Apart-id n s m t db r q v a h k = elim (Bool-cases (q.id == r.id)) [
  | inl e ↦
      let same_row =
        find_last_unique StageRow.id (is_for m t) (is_for n s) 1 db.next_stage db.stages q r
          v.stages_ascend k h (ground arith) in
      let (id, st) = latest_fits n s db r (unfold latest in h) in
      let (id', st') = latest_fits m t db q (unfold latest in k) in
      absurd (ground (arith, same_row, same_stage_refl t))
  | inr e ↦ e
]

-- The latest row, changed in place.
pub latest-update :
    (n : ℕ) (s : StageName) (p : StageRow → Bool) (f : StageRow → StageRow) (db : Db) (r : StageRow)
    → ((x : StageRow) → is_for n s (f x) ≡ is_for n s x)
    → latest n s db ≡ some r
    → p r ≡ true
    → latest n s (record db { stages = update p f db.stages }) ≡ some (f r)
unfolding latest
latest-update n s p f db r keep h t =
    ground (arith, find_last-update (is_for n s) p f keep db.stages)

-- The latest row of another stage, when one row is changed by its id.
pub latest-update-Apart :
    (n : ℕ) (s : StageName) (m : ℕ) (t : StageName) (p : StageRow → Bool) (f : StageRow → StageRow)
    (db : Db) (r : StageRow)
    → IsValid db
    → Apart n s m t
    → ((x : StageRow) → is_for m t (f x) ≡ is_for m t x)
    → ((x : StageRow) → p x ≡ true → x.id ≡ r.id)
    → latest n s db ≡ some r
    → latest m t (record db { stages = update p f db.stages }) ≡ latest m t db
latest-update-Apart n s m t p f db r v a keep only h = elim (Option-cases (latest m t db)) [
  | inl e ↦ unfold latest in (ground (arith, find_last-update (is_for m t) p f keep db.stages))
  | inr (q, e) ↦
      let d = Apart-id n s m t db r q v a h e in
      unfold latest in (ground (arith, only q, find_last-update (is_for m t) p f keep db.stages))
]

abbrev begun : ℕ → ℕ → StageName → ℕ → Option StageRow → StageRow
begun i n s now none = new_stage i n (first_run s now)
begun i n s now (some r) = run_again now (normal_attempts r + 1) r

pub latest-begin_stage :
    (n : ℕ) (s : StageName) (now : ℕ) (db : Db)
    → latest n s (begin_stage n s now db).1 ≡ some (begun db.next_stage n s now (latest n s db))
latest-begin_stage n s now db = elim (Option-cases (latest n s db)) [
  | inl e ↦
      unfold begin_stage latest in
      (rw e (
        find_last-append_one (is_for n s) db.stages (new_stage db.next_stage n (first_run s now))
          (ground (arith, same_stage_refl s))))
  | inr (r, e) ↦
      unfold begin_stage in
      (rw e (
        latest-update n s (row_is r.id) (run_again now (normal_attempts r + 1)) db r (λ x. refl) e
          (ground arith)))
]

-- begin_stage counts one attempt more than the checkpoint before (1 when there is none), and the
-- checkpoint is then RUNNING with that count and the time of the call as its start, with a duration of
-- 0 and without an end, an artifact or an error: nothing is left of an earlier run.
pub begin_stage-IsFresh :
    (n : ℕ) (s : StageName) (now : ℕ) (db : Db)
    → ((begin_stage n s now db).0 ≡ attempts_of (get_stage_checkpoint n s db) + 1)
      × ((r : StageRow) × (get_stage_checkpoint n s (begin_stage n s now db).1 ≡ some r)
          × IsFresh (begin_stage n s now db).0 now r)
begin_stage-IsFresh n s now db = elim (Option-cases (latest n s db)) [
  | inl e ↦ (
    unfold begin_stage get_stage_checkpoint in (rw e refl),
    (
      new_stage db.next_stage n (first_run s now),
      unfold get_stage_checkpoint in (rw (latest-begin_stage n s now db) (rw e refl)),
      unfold begin_stage in (rw e (ground arith)),
    ),
  )
  | inr (r, e) ↦ (
    unfold begin_stage get_stage_checkpoint in (rw e refl),
    (
      run_again now (normal_attempts r + 1) r,
      unfold get_stage_checkpoint in (rw (latest-begin_stage n s now db) (rw e (ground arith))),
      unfold begin_stage in (rw e (ground arith)),
    ),
  )
]
