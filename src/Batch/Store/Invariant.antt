-- ===== src/Batch/Store/Invariant.antt =====
-- Every operation of `BatchStore`, and so every run from the empty tables, keeps `IsValid`.
use servicecheck.Base.{
  ℕ, ◌+◌, refl, inl, inr, Option, none, some, List, [], ◌∷◌, ◌==◌, same, Bool-cases, any, count,
  after,
}
use servicecheck.Batch.Models.{failed, running, StageName, BatchMeta}
use servicecheck.Batch.Store.Tables.{StageRow, Db}
use servicecheck.Batch.Store.Files.{
  create_batch_if_absent, mark_interrupted_running, has_status, set_running, set_status, set_result,
  is_running_in, set_interrupted,
}
use servicecheck.Batch.Store.Stages.{
  begin_stage, complete_stage, fail_stage, invalidate_stages, record_stage, latest,
  get_stage_checkpoint, invalidate_row, row_is, runs, set_done, set_failed, run_again, new_stage,
  set_invalid, normal_attempts, begin_from, first_run,
}
use servicecheck.Batch.Store.Exports.{
  begin_export, complete_export, fail_export, has_export_key, export_runs, set_export, set_exported,
  new_export,
}
use servicecheck.Batch.Store.Commands.{Command, exec, run}
use servicecheck.Batch.Store.Rules.{
  claim_file-rule, set_file_status-rule, finalize_file-rule, add_file-rule, update_running-rule,
  upsert-rule,
}
use servicecheck.Batch.Store.Validity.{
  IsValid, IsValid-files, IsValid-stages, IsValid-exports, IsValid-insert_stage, IsValid-new_file,
  IsValid-new_export, IsValid-create_batch,
}

created-IsValid :
    (m : BatchMeta) (db : Db) → IsValid db → IsValid (after (create_batch_if_absent m db) db)
unfolding create_batch_if_absent
created-IsValid m db v = elim (Bool-cases (any (λ b. same b.batch_id m.batch_id) db.batches)) [
  | inl e ↦ rw e v
  | inr e ↦ rw e (rw e at (IsValid-create_batch db v m))
]

begin_from-IsValid :
    (n : ℕ) (s : StageName) (now : ℕ) (db : Db) (r : Option StageRow)
    → IsValid db
    → IsValid (begin_from n s now db r).1
begin_from-IsValid n s now db none v =
    IsValid-insert_stage db v (new_stage db.next_stage n (first_run s now)) refl
begin_from-IsValid n s now db (some r) v =
    IsValid-stages db v (row_is r.id) (run_again now (normal_attempts r + 1)) (λ x. refl)

invalidate_row-IsValid :
    (db : Db) (r : Option StageRow) → IsValid db → IsValid (invalidate_row db r)
invalidate_row-IsValid db none v = v
invalidate_row-IsValid db (some r) v = IsValid-stages db v (row_is r.id) set_invalid (λ x. refl)

invalidate_stages-IsValid :
    (n : ℕ) (ss : List StageName) (db : Db) → IsValid db → IsValid (invalidate_stages n ss db)
unfolding invalidate_stages
invalidate_stages-IsValid n [] db v = v
invalidate_stages-IsValid n (s ∷ ss) db v =
    invalidate_stages-IsValid n ss (invalidate_row db (latest n s db))
      (invalidate_row-IsValid db (latest n s db) v)

-- Whatever operation is called, returning or raising, well-formed tables stay well-formed: file,
-- stage and export ids ascend below their counters, and batch ids, the pairs of batch and
-- idempotency key, and the triples of an export are unique.
pub exec-IsValid : (c : Command) (db : Db) → IsValid db → IsValid (exec c db)
unfolding exec
exec-IsValid (Command.creates_batch m) db v = IsValid-create_batch db v m
exec-IsValid (Command.creates_batch_if_absent m) db v = created-IsValid m db v
exec-IsValid (Command.adds_file b r) db v =
    add_file-rule IsValid db v b r (IsValid-new_file db v b r)
exec-IsValid (Command.claims_file n a) db v =
    claim_file-rule IsValid db v n a
      λ s c. IsValid-files db v (has_status n s) set_running (λ x. refl) (λ x y. refl) (λ x y. refl)
exec-IsValid (Command.sets_file_status n a r) db v =
    set_file_status-rule IsValid db v n a r λ s t c.
      IsValid-files db v (has_status n s) (set_status t r) (λ x. refl) (λ x y. refl) (λ x y. refl)
exec-IsValid (Command.finalizes_file n a q r w) db v =
    finalize_file-rule IsValid db v n a q r w λ t c.
      IsValid-files db v (has_status n running) (set_result t q r w) (λ x. refl) (λ x y. refl)
        (λ x y. refl)
exec-IsValid (Command.marks_interrupted_running b) db v =
    unfold mark_interrupted_running in
    (IsValid-files db v (is_running_in b) set_interrupted (λ x. refl) (λ x y. refl) (λ x y. refl))
exec-IsValid (Command.records_stage n s) db v =
    unfold record_stage in (IsValid-insert_stage db v (new_stage db.next_stage n s) refl)
exec-IsValid (Command.begins_stage n s now) db v =
    unfold begin_stage in (begin_from-IsValid n s now db (latest n s db) v)
exec-IsValid (Command.completes_stage n s a now) db v =
    unfold complete_stage in
    (update_running-rule IsValid db v (set_done a now) (get_stage_checkpoint n s db)
      λ i. IsValid-stages db v (runs i) (set_done a now) (λ x. refl))
exec-IsValid (Command.fails_stage n s e now) db v =
    unfold fail_stage in
    (update_running-rule IsValid db v (set_failed e now) (get_stage_checkpoint n s db)
      λ i. IsValid-stages db v (runs i) (set_failed e now) (λ x. refl))
exec-IsValid (Command.invalidates_stages n ss) db v = invalidate_stages-IsValid n ss db v
exec-IsValid (Command.begins_export k w) db v =
    unfold begin_export in
    (upsert-rule IsValid db v k _ _
      (IsValid-exports db v (has_export_key k) (set_export running w none) (λ x. refl) (λ x y. refl)
        (λ x y. refl))
      (IsValid-new_export db v (new_export db.next_export k running w none) refl))
exec-IsValid (Command.completes_export k w d) db v =
    unfold complete_export in
    (elim (Bool-cases (count (export_runs k) db.exports == 1)) [
      | inl e ↦ rw e (
          IsValid-exports db v (export_runs k) (set_exported w d) (λ x. refl) (λ x y. refl)
            (λ x y. refl))
      | inr e ↦ rw e v
    ])
exec-IsValid (Command.fails_export k w c) db v =
    unfold fail_export in
    (upsert-rule IsValid db v k _ _
      (IsValid-exports db v (has_export_key k) (set_export failed w (some c)) (λ x. refl)
        (λ x y. refl) (λ x y. refl))
      (IsValid-new_export db v (new_export db.next_export k failed w (some c)) refl))

pub run-IsValid : (cs : List Command) (db : Db) → IsValid db → IsValid (run cs db)
unfolding run
run-IsValid [] db v = v
run-IsValid (c ∷ cs) db v = run-IsValid cs (exec c db) (exec-IsValid c db v)
