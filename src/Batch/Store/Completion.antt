-- ===== src/Batch/Store/Completion.antt =====
-- `complete_stage` and `fail_stage` on every branch, and what they leave alone.
use servicecheck.Base.{
  ℕ, ◌+◌, ◌≡◌, refl, ◌≢◌, inl, inr, Option, none, some, arith, ◌==◌, Bool-cases, Option-cases,
  update, count, find_last-append_skip, state_conflict, ok, err, after, count_of_id,
  count_of_id_none,
}
use servicecheck.Batch.Models.{StageStatus, StageName}
use servicecheck.Batch.Store.Tables.{StageRow, Db, Outcome}
use servicecheck.Batch.Store.Stages.{
  begin_stage, complete_stage, fail_stage, latest, get_stage_checkpoint, update_running, is_for,
  row_is, runs, Artifact, set_done, StageError, set_failed, run_again, new_stage, stage_row,
  normal_attempts, first_run,
}
use servicecheck.Batch.Store.Validity.{IsValid}
use servicecheck.Batch.Store.Checkpoints.{Apart, latest-update, latest-update-Apart}

-- The checkpoint is RUNNING.
abbrev pub Runs : Option StageRow → Type 0
Runs none = ⊥
Runs (some r) = r.status ≡ StageStatus.running

-- The columns that name a run.
abbrev SameRun : StageRow → StageRow → Type 0
SameRun r q =
    (q.id ≡ r.id)
    × (q.file_id ≡ r.file_id)
    × (q.stage ≡ r.stage)
    × (q.attempts ≡ r.attempts)
    × (q.started_at ≡ r.started_at)

-- A run that ended with an artifact, by its row before and after.
abbrev pub IsDone : Artifact → ℕ → StageRow → StageRow → Type 0
IsDone a now r q =
    (q.status ≡ StageStatus.done)
    × (q.finished_at ≡ some now)
    × (q.duration_ms ≡ a.duration_ms)
    × (q.artifact_uri ≡ some a.artifact_uri)
    × (q.sha256 ≡ some a.sha256)
    × (q.producer_version ≡ some a.producer_version)
    × (q.error_code ≡ none)
    × (q.retryable ≡ none)
    × (q.error ≡ none)
    × SameRun r q

-- A run that ended with an error; what it has of an artifact stays.
abbrev pub IsFailed : StageError → ℕ → StageRow → StageRow → Type 0
IsFailed e now r q =
    (q.status ≡ StageStatus.failed)
    × (q.finished_at ≡ some now)
    × (q.duration_ms ≡ e.duration_ms)
    × (q.error_code ≡ some e.error_code)
    × (q.retryable ≡ some e.retryable)
    × (q.error ≡ some e.error)
    × (q.artifact_uri ≡ r.artifact_uri)
    × (q.sha256 ≡ r.sha256)
    × (q.producer_version ≡ r.producer_version)
    × SameRun r q

-- What a change of a RUNNING stage promises: it is made exactly when the checkpoint is RUNNING.
abbrev pub Settles :
    ℕ → StageName → (StageRow → StageRow → Type 0) → Db → Outcome (Unit {0}) → Type 0
Settles n s Ends db o =
    ((r : StageRow)
      → get_stage_checkpoint n s db ≡ some r
      → r.status ≡ StageStatus.running
      → (d : Db) × (q : StageRow) × (o ≡ ok (tt, d))
        × (get_stage_checkpoint n s d ≡ some q)
        × Ends r q)
    × (¬ Runs (get_stage_checkpoint n s db) → o ≡ err state_conflict)

count_running :
    (n : ℕ) (s : StageName) (db : Db) (r : StageRow)
    → IsValid db
    → latest n s db ≡ some r
    → r.status ≡ StageStatus.running
    → count (runs r.id) db.stages ≡ 1
unfolding latest
count_running n s db r v h e =
    count_of_id StageRow.id (is_for n s) (runs r.id) 1 db.next_stage db.stages r v.stages_ascend h
      (ground arith) (λ x t. ground arith)

-- The row with the id of the latest is the latest, so a row that does not run is not counted.
count_not_running :
    (n : ℕ) (s : StageName) (db : Db) (r : StageRow)
    → IsValid db
    → latest n s db ≡ some r
    → r.status ≢ StageStatus.running
    → count (runs r.id) db.stages ≡ 0
unfolding latest
count_not_running n s db r v h e =
    count_of_id_none StageRow.id (is_for n s) (runs r.id) 1 db.next_stage db.stages r
      v.stages_ascend h (ground arith) (λ x t. ground arith)

update_running-Settles :
    (n : ℕ) (s : StageName) (f : StageRow → StageRow) (Ends : StageRow → StageRow → Type 0)
    (db : Db)
    → IsValid db
    → ((x : StageRow) → is_for n s (f x) ≡ is_for n s x)
    → ((x : StageRow) → x.status ≡ StageStatus.running → stage_row (f x) ≡ f (stage_row x))
    → ((x : StageRow) → Ends x (f x))
    → Settles n s Ends db (update_running f db (get_stage_checkpoint n s db))
update_running-Settles n s f Ends db v keep commute ends = elim (Option-cases (latest n s db)) [
  | inl e ↦ unfold get_stage_checkpoint in (rw e ((λ r h k. absurd (cc)), (λ _. refl)))
  | inr (r, e) ↦
      unfold get_stage_checkpoint in
      (rw e (
        (λ q h k. (
          record db { stages = update (runs r.id) f db.stages },
          f q,
          rw (count_running n s db r v e (ground arith)) refl,
          rw (latest-update n s (runs r.id) f db r keep e (ground arith), commute r (ground arith))
              (ground arith),
          ends q,
        )),
        (λ k. rw (count_not_running n s db r v e k) refl),
      ))
]

pub set_done-IsDone : (a : Artifact) (now : ℕ) (r : StageRow) → IsDone a now r (set_done a now r)
set_done-IsDone a now r =
    (refl, refl, refl, refl, refl, refl, refl, refl, refl, (refl, refl, refl, refl, refl))

pub set_failed-IsFailed :
    (e : StageError) (now : ℕ) (r : StageRow) → IsFailed e now r (set_failed e now r)
set_failed-IsFailed e now r =
    (refl, refl, refl, refl, refl, refl, refl, refl, refl, (refl, refl, refl, refl, refl))

-- complete_stage writes the artifact exactly when the checkpoint is RUNNING: the checkpoint is then
-- the same run, DONE at that time, with the artifact's URI, digest, version and duration, without an
-- error, and with its attempts and start kept. In every other state it raises StateConflictError.
pub complete_stage-Settles :
    (n : ℕ) (s : StageName) (a : Artifact) (now : ℕ) (db : Db)
    → IsValid db
    → Settles n s (IsDone a now) db (complete_stage n s a now db)
unfolding complete_stage
complete_stage-Settles n s a now db v =
    update_running-Settles n s (set_done a now) (IsDone a now) db v (λ x. refl)
      (λ x e. ground arith) (set_done-IsDone a now)

-- fail_stage records the error exactly when the checkpoint is RUNNING: the checkpoint is then the
-- same run, FAILED at that time, with the error's code, text, retryability and duration, and with its
-- attempts and start kept. In every other state it raises StateConflictError.
pub fail_stage-Settles :
    (n : ℕ) (s : StageName) (e : StageError) (now : ℕ) (db : Db)
    → IsValid db
    → Settles n s (IsFailed e now) db (fail_stage n s e now db)
unfolding fail_stage
fail_stage-Settles n s e now db v =
    update_running-Settles n s (set_failed e now) (IsFailed e now) db v (λ x. refl)
      (λ x k. ground arith) (set_failed-IsFailed e now)

update_running-Apart :
    (n : ℕ) (s : StageName) (m : ℕ) (t : StageName) (f : StageRow → StageRow) (db : Db)
    → IsValid db
    → Apart n s m t
    → ((x : StageRow) → is_for m t (f x) ≡ is_for m t x)
    → get_stage_checkpoint m t (after (update_running f db (get_stage_checkpoint n s db)) db)
      ≡ get_stage_checkpoint m t db
update_running-Apart n s m t f db v a keep = elim (Option-cases (latest n s db)) [
  | inl e ↦ unfold get_stage_checkpoint in (rw e refl)
  | inr (r, e) ↦ elim (Bool-cases (count (runs r.id) db.stages == 1)) [
    | inl c ↦
        unfold get_stage_checkpoint in
        (rw e (
          rw c (
            rw (latest-update-Apart n s m t (runs r.id) f db r v a keep (λ x h. ground arith) e)
              refl)))
    | inr c ↦ unfold get_stage_checkpoint in (rw e (rw c refl))
  ]
]

begin_stage-Apart :
    (n : ℕ) (s : StageName) (m : ℕ) (t : StageName) (now : ℕ) (db : Db)
    → IsValid db
    → Apart n s m t
    → get_stage_checkpoint m t (begin_stage n s now db).1 ≡ get_stage_checkpoint m t db
begin_stage-Apart n s m t now db v a = elim (Option-cases (latest n s db)) [
  | inl e ↦
      unfold begin_stage get_stage_checkpoint latest in
      (rw e (
        rw
          (find_last-append_skip (is_for m t) db.stages
            (new_stage db.next_stage n (first_run s now)) (ground arith))
          refl))
  | inr (r, e) ↦
      unfold begin_stage get_stage_checkpoint in
      (rw e (
        rw
          (latest-update-Apart n s m t (row_is r.id) (run_again now (normal_attempts r + 1)) db r v
            a (λ x. refl) (λ x h. ground arith) e)
          refl))
]

-- Beginning, completing or failing a stage leaves the checkpoint of every other stage of the file,
-- and of every stage of another file, as it is.
pub stages-Apart :
    (n : ℕ) (s : StageName) (m : ℕ) (t : StageName) (now : ℕ) (a : Artifact) (e : StageError)
    (db : Db)
    → IsValid db
    → Apart n s m t
    → (get_stage_checkpoint m t (begin_stage n s now db).1 ≡ get_stage_checkpoint m t db)
      × (get_stage_checkpoint m t (after (complete_stage n s a now db) db)
          ≡ get_stage_checkpoint m t db)
      × (get_stage_checkpoint m t (after (fail_stage n s e now db) db)
          ≡ get_stage_checkpoint m t db)
unfolding complete_stage fail_stage
stages-Apart n s m t now a e db v p = (
  begin_stage-Apart n s m t now db v p,
  update_running-Apart n s m t (set_done a now) db v p (λ x. refl),
  update_running-Apart n s m t (set_failed e now) db v p (λ x. refl),
)
