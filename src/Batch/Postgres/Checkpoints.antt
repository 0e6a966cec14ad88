-- ===== src/Batch/Postgres/Checkpoints.antt =====
-- The checkpoint of a stage through a run of it in `PostgresBatchStore`.
use servicecheck.Base.{
  ℕ, ◌+◌, ◌≡◌, refl, sym, ap, true, false, Option, none, some, [], ◌∷◌, ◌++◌, arith, any,
  find_last-append_one, state_conflict, ok, err, find_last-update,
}
use servicecheck.Batch.Models.{StageName, StageStatus, same_stage_refl}
use servicecheck.Batch.Store.Tables.{StageRow}
use servicecheck.Batch.Store.Stages.{
  is_for, row_is, new_stage, Artifact, set_done, StageError, set_failed, same_stage_status,
}
use servicecheck.Batch.Store.Checkpoints.{IsFresh, attempts_of}
use servicecheck.Batch.Store.Completion.{IsDone, IsFailed, set_done-IsDone, set_failed-IsFailed}
use servicecheck.Batch.Postgres.Tables.{PgDb, is_item}
use servicecheck.Batch.Postgres.Stages.{
  latest_stage, insert_row, get_stage_checkpoint, attempts_before, next_run, begin_stage,
  change_row, complete_stage, fail_stage,
}

-- The row of the run that begins.
abbrev pub begun_row : ℕ → StageName → ℕ → PgDb → StageRow
begun_row n s now db =
    new_stage db.next_stage n (next_run s now (attempts_before (get_stage_checkpoint n s db) + 1))

abbrev pub begun_db : ℕ → StageName → ℕ → PgDb → PgDb
begun_db n s now db = insert_row (begun_row n s now db) db

latest_stage-begun :
    (n : ℕ) (s : StageName) (now : ℕ) (db : PgDb)
    → latest_stage n s (begun_db n s now db) ≡ some (begun_row n s now db)
unfolding latest_stage
latest_stage-begun n s now db =
    find_last-append_one (is_for n s) db.stages (begun_row n s now db)
      (ground (arith, same_stage_refl s))

latest_stage-change_row :
    (n : ℕ) (s : StageName) (f : StageRow → StageRow) (r : StageRow) (db : PgDb)
    → ((x : StageRow) → is_for n s (f x) ≡ is_for n s x)
    → latest_stage n s db ≡ some r
    → latest_stage n s (change_row f r db) ≡ some (f r)
unfolding latest_stage
latest_stage-change_row n s f r db keep h =
    ground (arith, find_last-update (is_for n s) (row_is r.id) f keep db.stages)

-- A run that ends in a row: the end of the stage is then its checkpoint, and a second end of either
-- kind is a conflict.
abbrev pub EndsIn : ℕ → StageName → StageRow → PgDb → Type 0
EndsIn n s r db =
    (get_stage_checkpoint n s db ≡ some r)
    × ((a : Artifact) (t : ℕ) → complete_stage n s a t db ≡ err state_conflict)
    × ((e : StageError) (t : ℕ) → fail_stage n s e t db ≡ err state_conflict)

EndsIn-change_row :
    (n : ℕ) (s : StageName) (f : StageRow → StageRow) (r : StageRow) (db : PgDb)
    → ((x : StageRow) → is_for n s (f x) ≡ is_for n s x)
    → same_stage_status (f r).status StageStatus.running ≡ false
    → latest_stage n s db ≡ some r
    → EndsIn n s (f r) (change_row f r db)
EndsIn-change_row n s f r db keep ended h =
    let e = latest_stage-change_row n s f r db keep h in
    (
      unfold get_stage_checkpoint in e,
      λ a t. unfold complete_stage in (rw e (ground arith)),
      λ x t. unfold fail_stage in (rw e (ground arith)),
    )

-- The tables in which a run of a stage has begun: one row more, for the run, which is the checkpoint.
abbrev pub Begins : ℕ → StageName → ℕ → ℕ → PgDb → StageRow → PgDb → Type 0
Begins n s now attempts db r d =
    (d.stages ≡ db.stages ++ r ∷ [])
    × (r.file_id ≡ n)
    × (r.stage ≡ s)
    × IsFresh attempts now r
    × (get_stage_checkpoint n s d ≡ some r)

-- A run, from its beginning to the two ways in which it can end.
abbrev pub StageRuns : ℕ → StageName → ℕ → PgDb → Type 0
StageRuns n s now db =
    let attempts = attempts_of (get_stage_checkpoint n s db) + 1 in
    (d : PgDb) × (r : StageRow) × (begin_stage n s now db ≡ ok (attempts, d))
    × Begins n s now attempts db r d
    × ((a : Artifact) (t : ℕ)
        → (final : PgDb) × (q : StageRow) × (complete_stage n s a t d ≡ ok (tt, final))
          × IsDone a t r q
          × EndsIn n s q final)
    × ((e : StageError) (t : ℕ)
        → (final : PgDb) × (q : StageRow) × (fail_stage n s e t d ≡ ok (tt, final))
          × IsFailed e t r q
          × EndsIn n s q final)

attempts_before-of : (o : Option StageRow) → attempts_before o ≡ attempts_of o
attempts_before-of none = refl
attempts_before-of (some r) = refl

-- On an item that is in the table, begin_stage returns one attempt more than the checkpoint counts
-- (1 when there is none) and appends a row of the item and the stage, RUNNING with this count from
-- that time on and with nothing else filled in, which is then the checkpoint. A complete_stage that
-- follows succeeds and the checkpoint is that row, DONE with the artifact; a fail_stage that follows
-- succeeds and the checkpoint is that row, FAILED with the error. After either, both are a state
-- conflict.
pub begin_stage-StageRuns :
    (n : ℕ) (s : StageName) (now : ℕ) (db : PgDb)
    → any (is_item n) db.items ≡ true
    → StageRuns n s now db
begin_stage-StageRuns n s now db h =
    let e = latest_stage-begun n s now db in
    let r = begun_row n s now db in
    let d = begun_db n s now db in
    let count = attempts_before-of (get_stage_checkpoint n s db) in
    (
      d,
      r,
      rw (sym count) (unfold begin_stage get_stage_checkpoint in (rw h refl)),
      (
        refl,
        refl,
        refl,
        (refl, ap (λ k. k + 1) count, refl, refl, refl, refl, refl, refl, refl, refl, refl),
        unfold get_stage_checkpoint in e,
      ),
      λ a t. (
        change_row (set_done a t) r d,
        set_done a t r,
        unfold complete_stage in (rw e refl),
        set_done-IsDone a t r,
        EndsIn-change_row n s (set_done a t) r d (λ x. refl) refl e,
      ),
      λ x t. (
        change_row (set_failed x t) r d,
        set_failed x t r,
        unfold fail_stage in (rw e refl),
        set_failed-IsFailed x t r,
        EndsIn-change_row n s (set_failed x t) r d (λ x. refl) refl e,
      ),
    )
