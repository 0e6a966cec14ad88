-- ===== src/Batch/Pipeline/Stages.antt =====
-- qc/batch/pipeline.py, `execute_stage`: what a stage promises to the run of its file, and to a later
-- run of the same file.
use servicecheck.Base.{
  ℕ, ◌+◌, ◌≤◌, String, ◌≡◌, refl, ap, ◌⊎◌, inl, inr, Bool, true, false, Option, none, some, arith,
  leb, is_some,
}
use servicecheck.Batch.Models.{StageName}
use servicecheck.Batch.Store.Tables.{StageRow, Db}
use servicecheck.Batch.Store.Stages.{get_stage_checkpoint, invalidate_stages}
use servicecheck.Batch.Store.Validity.{IsValid}
use servicecheck.Batch.Store.Invariant.{exec-IsValid}
use servicecheck.Batch.Store.Commands.{exec, Command}
use servicecheck.Batch.Pipeline.Retry.{attempt_limit}
use servicecheck.Batch.Pipeline.Checkpoint.{
  Surroundings, World, tick, with_db, BatchStageFailure, Ended, returned, failed, crashed,
  out_of_fuel, load,
}
use servicecheck.Batch.Pipeline.Execute.{
  Budget, policy_of, downstream, deadline_code, deadline_message, from_start, is_exhausted,
  previous_failure, unless_spent, from_previous, from_cache, loaded, before_deadline, execute_stage,
}
use servicecheck.Batch.Pipeline.Attempts.{IsStored, IsRecorded, LoopEnds, attempts_loop-LoopEnds}

module _ {V : Type 0} (env : Surroundings V) (b : Budget) (n : ℕ) (stage : StageName)
    (version : String) where
  -- A checkpoint on which no attempt is left.
  pub record IsSpent (f : BatchStageFailure) (db : Db) : Type 0 where
    pub row : StageRow
    pub checkpoint : get_stage_checkpoint n stage db ≡ some row
    pub spent : is_exhausted env b n stage version row ≡ true
    pub reported : f ≡ previous_failure env b n stage version row

  -- How a stage ends: the tables are valid, what it returns was cached or is stored now, a failure is the passed deadline, one
  -- without attempts left, or recorded now, and the action was called within the limit.
  abbrev pub StageEnds : World → Ended V → Type 0
  StageEnds w (returned v w') =
      (((load env n stage version w'.db ≡ some v) × (w'.calls ≡ w.calls))
        ⊎ IsStored env b n stage version v w'.db)
      × (w'.calls ≤ w.calls + attempt_limit (policy_of b))
      × IsValid w'.db
  StageEnds w (failed f w') =
      (((is_some b.run_deadline_at ≡ true) × (f.code ≡ deadline_code) × (w'.calls ≡ w.calls))
        ⊎ ((IsSpent f w'.db × (w'.calls ≡ w.calls)) ⊎ IsRecorded env b n stage version f w'.db))
      × (w'.calls ≤ w.calls + attempt_limit (policy_of b))
      × IsValid w'.db
  StageEnds w (crashed e w') = ⊥
  StageEnds w (out_of_fuel w') = ⊥

  of_loop :
      (w : World) (e : Ended V)
      → LoopEnds env b n stage version (w.calls + attempt_limit (policy_of b)) e
      → StageEnds w e
  of_loop w (returned v w') h = (inr h.0, h.1, h.0.valid)
  of_loop w (failed f w') h = (inr (inr h.0), h.1, h.0.valid)
  of_loop w (crashed e w') h = h
  of_loop w (out_of_fuel w') h = h

  from_start-StageEnds :
      (w : World)
      → IsValid w.db
      → StageEnds w (from_start env b n stage version (attempt_limit (policy_of b)) w)
  from_start-StageEnds w valid =
      let d = invalidate_stages n (downstream stage) w.db in
      let valid' : IsValid d =
        unfold exec in
        (exec-IsValid (Command.invalidates_stages n (downstream stage)) w.db valid) in
      of_loop w _ (
        attempts_loop-LoopEnds env b n stage version (attempt_limit (policy_of b)) (with_db d w)
          valid' (omega arith) (omega arith))

  from_previous-StageEnds :
      (w : World) (o : Option StageRow)
      → IsValid w.db
      → get_stage_checkpoint n stage w.db ≡ o
      → StageEnds w (from_previous env b n stage version (attempt_limit (policy_of b)) w o)
  from_previous-StageEnds w none valid e = from_start-StageEnds w valid
  from_previous-StageEnds w (some r) valid e =
      by_exhaustion (is_exhausted env b n stage version r) refl
    where
      by_exhaustion :
          (x : Bool)
          → is_exhausted env b n stage version r ≡ x
          → StageEnds w (unless_spent env b n stage version (attempt_limit (policy_of b)) w r x)
      by_exhaustion true h = (
        inr (inl (record { row = r; checkpoint = e; spent = h; reported = refl }, refl)),
        omega arith,
        valid,
      )
      by_exhaustion false h = from_start-StageEnds w valid

  from_cache-StageEnds :
      (w : World) (o : Option V)
      → IsValid w.db
      → load env n stage version w.db ≡ o
      → StageEnds w (from_cache env b n stage version (attempt_limit (policy_of b)) w o)
  from_cache-StageEnds w none valid e = from_previous-StageEnds w _ valid refl
  from_cache-StageEnds w (some v) valid e = (inl (e, refl), omega arith, valid)

  before_deadline-StageEnds :
      (w : World) (o : Option ℕ)
      → IsValid w.db
      → b.run_deadline_at ≡ o
      → StageEnds w (before_deadline env b n stage version (attempt_limit (policy_of b)) w o)
  before_deadline-StageEnds w none valid e = from_cache-StageEnds w _ valid refl
  before_deadline-StageEnds w (some d) valid e = by_deadline (leb d (env.monotonic w.readings))
    where
      by_deadline :
          (x : Bool)
          → StageEnds w (elim x [
            | true ↦
                failed
                  record {
                    code = deadline_code;
                    stage = stage;
                    message = deadline_message;
                    retryable = false;
                    attempts = 0;
                  }
                  (tick w)
            | false ↦ loaded env b n stage version (attempt_limit (policy_of b)) (tick w)
          ])
      by_deadline true = (inl (ap is_some e, refl, refl), omega arith, valid)
      by_deadline false = from_cache-StageEnds (tick w) _ valid refl

  -- On valid tables a stage always ends, and never by a conflict of the store: it calls its action at most
  -- as often as the retry policy allows (once at least), what it returns was cached, with no call, or is
  -- stored in a DONE checkpoint, and a failure is the passed deadline, the failure of an earlier run that
  -- left no attempt, both with no call, or is recorded in a FAILED checkpoint. The tables stay valid.
  pub execute_stage-StageEnds :
      (w : World) → IsValid w.db → StageEnds w (execute_stage env b n stage version w)
  unfolding execute_stage
  execute_stage-StageEnds w valid = before_deadline-StageEnds w b.run_deadline_at valid refl
