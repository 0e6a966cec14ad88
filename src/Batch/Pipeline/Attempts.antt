-- ===== src/Batch/Pipeline/Attempts.antt =====
-- qc/batch/pipeline.py, `execute_stage`: how a stage ends, and after how many calls.
use servicecheck.Base.{
  ℕ, zero, suc, ◌+◌, ◌-◌, ◌≤◌, ◌<◌, String, ◌≡◌, refl, subst, ◌⊎◌, inl, inr, Bool, true, false,
  some, arith, Bool-cases, after,
}
use servicecheck.Batch.Models.{StageName, StageStatus}
use servicecheck.Batch.Store.Tables.{StageRow, Db}
use servicecheck.Batch.Store.Stages.{get_stage_checkpoint, begin_stage, fail_stage}
use servicecheck.Batch.Pipeline.Retry.{
  Raised, StageFailure, classify_error, should_retry, attempt_limit,
}
use servicecheck.Batch.Pipeline.Checkpoint.{
  Surroundings, World, tick, with_db, BatchStageFailure, Ended, returned, failed, crashed,
  out_of_fuel, Stored, complete_stored, artifact_of,
}
use servicecheck.Batch.Pipeline.Execute.{
  Budget, policy_of, reached, exceeded, call, after_call, attempt, retried, failure_of,
  again_or_fail, settle, attempts_loop, error_of,
}
use servicecheck.Batch.Store.Validity.{IsValid}
use servicecheck.Batch.Store.Invariant.{exec-IsValid}
use servicecheck.Batch.Store.Commands.{exec, Command}
use servicecheck.Batch.Store.Checkpoints.{attempts_of, begin_stage-IsFresh}
use servicecheck.Batch.Store.Completion.{complete_stage-Settles, fail_stage-Settles}

module _ {V : Type 0} (env : Surroundings V) (b : Budget) (n : ℕ) (stage : StageName)
    (version : String) where
  -- The checkpoint is DONE by the artifact that gives the value back.
  pub record IsStored (v : V) (db : Db) : Type 0 where
    pub row : StageRow
    pub checkpoint : get_stage_checkpoint n stage db ≡ some row
    pub is_done : row.status ≡ StageStatus.done
    pub stored : Stored V
    pub made : V
    pub put : env.put_artifact stage made version ≡ inr stored
    pub value : stored.value ≡ v
    pub uri : row.artifact_uri ≡ some stored.uri
    pub sha256 : row.sha256 ≡ some stored.sha256
    pub producer : row.producer_version ≡ some version
    pub valid : IsValid db

  -- The checkpoint is FAILED with this failure.
  pub record IsRecorded (f : BatchStageFailure) (db : Db) : Type 0 where
    pub row : StageRow
    pub checkpoint : get_stage_checkpoint n stage db ≡ some row
    pub is_failed : row.status ≡ StageStatus.failed
    pub code : row.error_code ≡ some f.code
    pub retryable : row.retryable ≡ some f.retryable
    pub message : row.error ≡ some f.message
    pub attempts : row.attempts ≡ f.attempts
    pub valid : IsValid db
    pub exhausted : f.retryable ≡ true → attempt_limit (policy_of b) ≤ f.attempts

  -- What an attempt may leave: on an exception the tables are as they were.
  abbrev pub TriedEnds : World → (Raised ⊎ V) × World → Type 0
  TriedEnds w (inl e, w') = (w'.db ≡ w.db) × (w'.calls ≤ w.calls + 1)
  TriedEnds w (inr v, w') = IsStored v w'.db × (w'.calls ≤ w.calls + 1)

  -- How a run of attempts ends: within so many calls, recorded, and never by a conflict.
  abbrev pub LoopEnds : ℕ → Ended V → Type 0
  LoopEnds k (returned v w) = IsStored v w.db × (w.calls ≤ k)
  LoopEnds k (failed f w) = IsRecorded f w.db × (w.calls ≤ k)
  LoopEnds k (crashed e w) = ⊥
  LoopEnds k (out_of_fuel w) = ⊥

  module _ (w : World) (row : StageRow) (valid : IsValid w.db)
      (at_row : get_stage_checkpoint n stage w.db ≡ some row)
      (runs : row.status ≡ StageStatus.running) where
    stored-TriedEnds :
        (duration : ℕ) (v : V) (o : Raised ⊎ Stored V) (w' : World)
        → w'.db ≡ w.db
        → w'.calls ≤ w.calls + 1
        → env.put_artifact stage v version ≡ o
        → TriedEnds w (complete_stored env n stage version duration w' o)
    stored-TriedEnds duration v (inl e) w' d l p = (d, l)
    stored-TriedEnds duration v (inr s) w' d l p =
        let now = env.utc_now w'.readings in
        let a = artifact_of env n stage version duration s in
        let (db', q, eq, chk, ended) =
          (complete_stage-Settles n stage a now w.db valid).0 row at_row runs in
        let valid' =
          subst (λ o. IsValid (after o w.db)) eq
            (unfold exec in (exec-IsValid (Command.completes_stage n stage a now) w.db valid)) in
        rw (d, eq)
          (
            record {
              row = q;
              checkpoint = chk;
              is_done = ended.0;
              stored = s;
              made = v;
              put = p;
              value = refl;
              uri = ended.3;
              sha256 = ended.4;
              producer = ended.5;
              valid = valid';
            },
            l,
          )

    after_call-TriedEnds :
        (started : ℕ) (o : Raised ⊎ V) (w' : World)
        → w'.db ≡ w.db
        → w'.calls ≤ w.calls + 1
        → TriedEnds w (after_call env b n stage version started o w')
    after_call-TriedEnds started (inl e) w' d l = (d, l)
    after_call-TriedEnds started (inr v) w' d l =
        let duration = env.monotonic w'.readings - started in
        elim (Bool-cases (reached b.run_deadline_at (env.monotonic w'.readings))) [
          | inl e ↦ rw e (d, l)
          | inr e ↦ rw e (elim (Bool-cases (exceeded b.stage_timeout duration)) [
            | inl f ↦ rw f (d, l)
            | inr f ↦
                rw f (
                  stored-TriedEnds duration v (env.put_artifact stage v version) (tick w') d l refl)
          ])
        ]

    attempt-TriedEnds :
        (started : ℕ) (w' : World)
        → w'.db ≡ w.db
        → w'.calls ≡ w.calls
        → TriedEnds w (attempt env b n stage version started w')
    attempt-TriedEnds started w' d l = elim (Bool-cases (reached b.run_deadline_at started)) [
      | inl e ↦ rw e (d, omega arith)
      | inr e ↦ rw e (after_call-TriedEnds started (env.action w'.calls) (call w') d (omega arith))
    ]

  again-LoopEnds :
      (again : World → Ended V) (attempts k : ℕ) (c : StageFailure) (w : World) (answer : Bool)
      → should_retry (policy_of b) c attempts ≡ answer
      → w.calls ≤ k
      → ((attempt_limit (policy_of b) ≤ attempts ⊎ (c.retryable ≡ false))
          → IsRecorded (failure_of env b n stage version c attempts) w.db)
      → (attempts < attempt_limit (policy_of b) → LoopEnds k (again w))
      → LoopEnds k (again_or_fail env b n stage version again attempts c w answer)
  unfolding should_retry
  again-LoopEnds again attempts k c w true e l recorded next = next (ground arith)
  again-LoopEnds again attempts k c w false e l recorded next =
      (recorded (elim (Bool-cases c.retryable) [ inl r ↦ inl (ground arith) | inr r ↦ inr r ]), l)

  limit_reached :
      (attempts : ℕ) (retryable : Bool)
      → attempt_limit (policy_of b) ≤ attempts ⊎ (retryable ≡ false)
      → retryable ≡ true
      → attempt_limit (policy_of b) ≤ attempts
  limit_reached attempts retryable (inl l) r = l
  limit_reached attempts retryable (inr f) r = absurd (cc)

  retried-LoopEnds :
      (w : World) (row : StageRow) (again : World → Ended V) (k : ℕ) (c : StageFailure) (w' : World)
      (duration now : ℕ)
      → IsValid w.db
      → get_stage_checkpoint n stage w.db ≡ some row
      → row.status ≡ StageStatus.running
      → w'.db ≡ w.db
      → w'.calls ≤ k
      → ((w'' : World)
          → IsValid w''.db
          → attempts_of (get_stage_checkpoint n stage w''.db) ≡ row.attempts
          → w''.calls ≡ w'.calls
          → row.attempts < attempt_limit (policy_of b)
          → LoopEnds k (again w''))
      → LoopEnds k (
          retried env b n stage version again row.attempts c w'
            (fail_stage n stage (error_of env b n stage version c duration) now w'.db))
  retried-LoopEnds w row again k c w' duration now valid at_row runs d l next =
      let e = error_of env b n stage version c duration in
      let (db', q, eq, chk, ended) =
        (fail_stage-Settles n stage e now w.db valid).0 row at_row runs in
      let valid' =
        subst (λ o. IsValid (after o w.db)) eq
          (unfold exec in (exec-IsValid (Command.fails_stage n stage e now) w.db valid)) in
      rw (d, eq)
        (again-LoopEnds again row.attempts k c (with_db db' w') _ refl l
          (λ h. record {
            row = q;
            checkpoint = chk;
            is_failed = ended.0;
            code = ended.3;
            retryable = ended.4;
            message = ended.5;
            attempts = ended.9.3;
            valid = valid';
            exhausted = limit_reached row.attempts c.retryable h;
          })
          (next (with_db db' w') valid' (rw chk ended.9.3) refl))

  settle-LoopEnds :
      (w : World) (row : StageRow) (again : World → Ended V) (k started : ℕ)
      (t : (Raised ⊎ V) × World)
      → IsValid w.db
      → get_stage_checkpoint n stage w.db ≡ some row
      → row.status ≡ StageStatus.running
      → TriedEnds w t
      → w.calls + 1 ≤ k
      → ((w'' : World)
          → IsValid w''.db
          → attempts_of (get_stage_checkpoint n stage w''.db) ≡ row.attempts
          → w''.calls ≤ w.calls + 1
          → row.attempts < attempt_limit (policy_of b)
          → LoopEnds k (again w''))
      → LoopEnds k (settle env b n stage version again row.attempts started t)
  settle-LoopEnds w row again k started (inr v, w') valid at_row runs t l next =
      (t.0, omega (arith, t.1))
  settle-LoopEnds w row again k started (inl e, w') valid at_row runs t l next =
      retried-LoopEnds w row again k (classify_error e stage) (tick w')
        (env.monotonic w'.readings - started) (env.utc_now w'.readings) valid at_row runs t.0
        (omega (arith, t.1)) (λ w'' v a c. next w'' v a (omega (arith, t.1)))

  widen : (j k : ℕ) (e : Ended V) → j ≤ k → LoopEnds j e → LoopEnds k e
  widen j k (returned v w) l h = (h.0, omega (arith, h.1))
  widen j k (failed f w) l h = (h.0, omega (arith, h.1))
  widen j k (crashed e w) l h = h
  widen j k (out_of_fuel w) l h = h

  -- Enough fuel is what the attempts before leave of the limit, and one round at least.
  pub attempts_loop-LoopEnds :
      (fuel : ℕ) (w : World)
      → IsValid w.db
      → 1 ≤ fuel
      → attempt_limit (policy_of b) ≤ attempts_of (get_stage_checkpoint n stage w.db) + fuel
      → LoopEnds (w.calls + fuel) (attempts_loop env b n stage version fuel w)
  unfolding attempts_loop
  attempts_loop-LoopEnds zero w valid one enough = absurd (omega arith)
  attempts_loop-LoopEnds (suc fuel) w valid one enough =
      let now = env.utc_now w.readings in
      let started = env.monotonic w.readings in
      let d = (begin_stage n stage now w.db).1 in
      let (count_eq, (row, at_row, fresh)) = begin_stage-IsFresh n stage now w.db in
      let valid' : IsValid d =
        unfold exec in (exec-IsValid (Command.begins_stage n stage now) w.db valid) in
      let w' : World = tick (with_db d w) in
      subst
        (λ a. LoopEnds (w.calls + suc fuel) (
          settle env b n stage version (attempts_loop env b n stage version fuel) a started
            (attempt env b n stage version started w')))
        fresh.1
        (settle-LoopEnds w' row (attempts_loop env b n stage version fuel) (w.calls + suc fuel)
          started (attempt env b n stage version started w') valid' at_row fresh.0
          (attempt-TriedEnds w' row valid' at_row fresh.0 started w' refl refl) (omega arith)
          (λ w'' v a c less. widen (w''.calls + fuel) (w.calls + suc fuel) _ (omega (arith, c)) (
            attempts_loop-LoopEnds fuel w'' v (omega (arith, count_eq, fresh.1, enough, less))
              (omega (arith, a, count_eq, fresh.1, enough, less)))))
