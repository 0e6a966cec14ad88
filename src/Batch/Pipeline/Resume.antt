-- ===== src/Batch/Pipeline/Resume.antt =====
-- qc/batch/pipeline.py, `execute_stage`, run again on the checkpoint that an earlier run left.
use servicecheck.Base.{
  ℕ, ◌≤◌, String, ◌≡◌, refl, sym, ap, ◌∙◌, subst, inl, inr, true, false, Option, none, some, arith,
  same, same_refl, Bool-cases,
}
use servicecheck.Batch.Models.{StageName, StageStatus}
use servicecheck.Batch.Store.Tables.{StageRow, Db}
use servicecheck.Batch.Store.Stages.{get_stage_checkpoint}
use servicecheck.Batch.Store.Validity.{IsValid}
use servicecheck.Batch.Pipeline.Retry.{attempt_limit}
use servicecheck.Batch.Pipeline.Checkpoint.{
  Stored, load_row, given, Surroundings, World, BatchStageFailure, returned, failed, load,
}
use servicecheck.Batch.Pipeline.Execute.{
  previous_failure, text_or, or_text, is_true, is_exhausted, Budget, policy_of, unless_spent,
  from_previous, from_cache, before_deadline, execute_stage,
}
use servicecheck.Batch.Pipeline.Attempts.{IsStored, IsRecorded}
use servicecheck.Batch.Pipeline.Stages.{StageEnds, execute_stage-StageEnds}

given_of : (s : String) → same s "" ≡ false → given (some s) ≡ some s
given_of s h = rw h refl

not_given : (s : String) → same s "" ≡ true → given (some s) ≡ none
not_given s h = rw h refl

-- A text of the code is not empty, so it is kept.
text_or_again :
    (d : String) (o : Option String)
    → same d "" ≡ false
    → text_or d (some (text_or d o)) ≡ text_or d o
text_or_again d none h = ap (or_text d) (given_of d h)
text_or_again d (some s) h = elim (Bool-cases (same s "")) [
  | inl e ↦
      let empty : text_or d (some s) ≡ d = ap (or_text d) (not_given s e) in
      rw empty (ap (or_text d) (given_of d h))
  | inr e ↦ let kept : text_or d (some s) ≡ s = ap (or_text d) (given_of s e) in rw kept kept
]

-- A failure as a later run reports it.
pub record IsSameFailure (f g : BatchStageFailure) : Type 0 where
  pub code : g.code ≡ text_or "INTERNAL_ERROR" (some f.code)
  pub message : g.message ≡ text_or "批量阶段失败" (some f.message)
  pub retryable : g.retryable ≡ f.retryable
  pub attempts : g.attempts ≡ f.attempts

-- What the artifact store and its JSON promise of what they took: it is read back, and its reference is
-- not empty.
pub record IsFaithful {V : Type 0} (env : Surroundings V) (stage : StageName) (version : String)
    : Type 0 where
  pub reads_back :
      (made : V) (s : Stored V)
      → env.put_artifact stage made version ≡ inr s
      → env.read_artifact stage s.uri s.sha256 version ≡ some s.value
  pub uri_given :
      (made : V) (s : Stored V)
      → env.put_artifact stage made version ≡ inr s
      → same s.uri "" ≡ false
  pub sha256_given :
      (made : V) (s : Stored V)
      → env.put_artifact stage made version ≡ inr s
      → same s.sha256 "" ≡ false

module _ {V : Type 0} (env : Surroundings V) (b : Budget) (n : ℕ) (stage : StageName)
    (version : String) where
  load_row_failed :
      (row : StageRow)
      → row.status ≡ StageStatus.failed
      → load_row env n stage version (some row) ≡ none
  load_row_failed row h = rw h refl

  spent_again :
      (w : World) (row : StageRow)
      → b.run_deadline_at ≡ none
      → get_stage_checkpoint n stage w.db ≡ some row
      → row.status ≡ StageStatus.failed
      → is_exhausted env b n stage version row ≡ true
      → execute_stage env b n stage version w
        ≡ failed (previous_failure env b n stage version row) w
  unfolding execute_stage load
  spent_again w row d chk s spent =
      let fuel = attempt_limit (policy_of b) in
      ap (before_deadline env b n stage version fuel w) d
      ∙ ap (from_cache env b n stage version fuel w)
          (ap (load_row env n stage version) chk ∙ load_row_failed row s)
      ∙ ap (from_previous env b n stage version fuel w) chk
      ∙ ap (unless_spent env b n stage version fuel w row) spent

  stored_loads :
      (v : V) (db : Db)
      → IsFaithful env stage version
      → same version "" ≡ false
      → IsStored env b n stage version v db
      → load env n stage version db ≡ some v
  unfolding load
  stored_loads v db faithful named h =
      rw
        (
          h.checkpoint,
          h.is_done,
          h.uri,
          h.sha256,
          h.producer,
          given_of h.stored.uri (faithful.uri_given h.made h.stored h.put),
          given_of h.stored.sha256 (faithful.sha256_given h.made h.stored h.put),
          given_of version named,
          same_refl version,
        )
        (faithful.reads_back h.made h.stored h.put ∙ ap some h.value)

  exhausted_status :
      (row : StageRow)
      → is_exhausted env b n stage version row ≡ true
      → row.status ≡ StageStatus.failed
  exhausted_status row h = ground arith

  recorded_spent :
      (f : BatchStageFailure) (db : Db)
      → b.max_attempts ≤ attempt_limit (policy_of b)
      → (h : IsRecorded env b n stage version f db)
      → is_exhausted env b n stage version h.row ≡ true
  recorded_spent f db enough h = elim (Bool-cases f.retryable) [
    | inl r ↦ rw (h.is_failed, h.retryable, h.attempts, r) (ground (arith, h.exhausted r, enough))
    | inr r ↦ rw (h.is_failed, h.retryable, r) refl
  ]

  -- Where the run has no deadline and the retry policy allows the stage's attempts, a stage that failed
  -- on valid tables stays failed: run again on the tables it left, it fails with the same failure, up to
  -- the defaults of empty texts, and calls nothing.
  pub failure_stays :
      (w w' w'' : World) (f : BatchStageFailure)
      → IsValid w.db
      → b.run_deadline_at ≡ none
      → b.max_attempts ≤ attempt_limit (policy_of b)
      → execute_stage env b n stage version w ≡ failed f w'
      → w''.db ≡ w'.db
      → (g : BatchStageFailure) × (execute_stage env b n stage version w'' ≡ failed g w'')
        × IsSameFailure f g
  failure_stays w w' w'' f valid d enough ran same_db =
      let ends =
        subst (StageEnds env b n stage version w) ran
          (execute_stage-StageEnds env b n stage version w valid) in
      elim ends.0 [
        | inl late ↦ absurd (ground (arith, late.0, d))
        | inr (inl (spent, _)) ↦
            let chk = ap (get_stage_checkpoint n stage) same_db ∙ spent.checkpoint in
            (
              previous_failure env b n stage version spent.row,
              spent_again w'' spent.row d chk (exhausted_status spent.row spent.spent) spent.spent,
              rw spent.reported (record {
                code =
                    sym (text_or_again "INTERNAL_ERROR" spent.row.error_code (unfold same in refl));
                message = sym (text_or_again "批量阶段失败" spent.row.error (unfold same in refl));
                retryable = refl;
                attempts = refl;
              }),
            )
        | inr (inr h) ↦
            let chk = ap (get_stage_checkpoint n stage) same_db ∙ h.checkpoint in
            (
              previous_failure env b n stage version h.row,
              spent_again w'' h.row d chk h.is_failed (recorded_spent f w'.db enough h),
              record {
                code = ap (text_or "INTERNAL_ERROR") h.code;
                message = ap (text_or "批量阶段失败") h.message;
                retryable = ap is_true h.retryable;
                attempts = h.attempts;
              },
            )
      ]

  -- Where the artifact store reads back what it took, the producer's version is not empty, and the run
  -- has no deadline, a stage that returned on valid tables is not run again: on the tables it left it
  -- returns the same value and calls nothing.
  pub success_stays :
      (w w' w'' : World) (v : V)
      → IsValid w.db
      → b.run_deadline_at ≡ none
      → IsFaithful env stage version
      → same version "" ≡ false
      → execute_stage env b n stage version w ≡ returned v w'
      → w''.db ≡ w'.db
      → execute_stage env b n stage version w'' ≡ returned v w''
  unfolding execute_stage
  success_stays w w' w'' v valid d faithful named ran same_db =
      let fuel = attempt_limit (policy_of b) in
      let ends =
        subst (StageEnds env b n stage version w) ran
          (execute_stage-StageEnds env b n stage version w valid) in
      let cached : load env n stage version w'.db ≡ some v = elim ends.0 [
        | inl (c, _) ↦ c
        | inr h ↦ stored_loads v w'.db faithful named h
      ] in
      ap (before_deadline env b n stage version fuel w'') d
      ∙ ap (from_cache env b n stage version fuel w'')
          (ap (load env n stage version) same_db ∙ cached)
