-- ===== src/Batch/Pipeline/Processed.antt =====
-- qc/batch/pipeline.py, `process_file`: how the run of a file ends.
use servicecheck.Base.{
  ℕ, ◌+◌, ◌*◌, ◌≤◌, String, ◌≡◌, refl, ◌⊎◌, Bool, true, false, Option, none, some, arith,
  if◌then◌else◌, is_some, value_error,
}
use servicecheck.Quality.Models.{QualityReport}
use servicecheck.Batch.Models.{BatchFileStatus, StageName}
use servicecheck.Batch.Store.Validity.{IsValid}
use servicecheck.Batch.Pipeline.Retry.{Raised, attempt_limit}
use servicecheck.Batch.Pipeline.Checkpoint.{
  World, tick, Ended, returned, failed, crashed, out_of_fuel,
}
use servicecheck.Batch.Pipeline.Execute.{policy_of}
use servicecheck.Batch.Pipeline.Stages.{StageEnds, execute_stage-StageEnds}
use servicecheck.Batch.Pipeline.Analysis.{
  AnalysisResult, ExecutionStatus, final_status, asks_review,
}
use servicecheck.Batch.Pipeline.Process.{
  FileResult, Artifacts, Services, Limits, then_run, surroundings_of, budget, run_stage, finish,
  request_or_raise, emotion_stage, asr_stage, from_deadline, with_deadline, process_file,
}

-- The statuses that end the run of a file.
abbrev pub is_ended : BatchFileStatus → Bool
is_ended BatchFileStatus.done = true
is_ended BatchFileStatus.human_review = true
is_ended BatchFileStatus.failed_final = true
is_ended _ = false

abbrev pub is_failed_final : BatchFileStatus → Bool
is_failed_final BatchFileStatus.failed_final = true
is_failed_final _ = false

module _ {Wav Turns Emotion : Type 0} (s : Services Wav Turns Emotion) (limits : Limits)
    (n : ℕ) where
  abbrev pub attempts_per_stage : ℕ
  attempts_per_stage = attempt_limit (policy_of (budget s limits n none))

  -- The run of a file ends within so many calls, on valid tables, in a status that ends it, with a reason
  -- exactly when it failed; or its transcript makes no request.
  abbrev pub FileEnds : ℕ → Ended FileResult → Type 0
  FileEnds k (returned r w) =
      (is_ended r.status ≡ true)
      × (is_some r.failed_reason ≡ is_failed_final r.status)
      × (w.calls ≤ k)
      × IsValid w.db
  FileEnds k (failed f w) = ⊥
  FileEnds k (crashed e w) = (e ≡ value_error) × ((t : Turns) × (s.is_request t ≡ false))
  FileEnds k (out_of_fuel w) = ⊥

  then_run-FileEnds :
      {V : Type 0} (request : String) (k : ℕ) (artifacts : Artifacts V) (work : ℕ → Raised ⊎ V)
      (deadline : Option ℕ) (stage : StageName) (version : String) (w : World)
      (next : V → World → Ended FileResult)
      → IsValid w.db
      → w.calls + attempts_per_stage ≤ k
      → ((v : V) (w' : World)
          → IsValid w'.db
          → w'.calls ≤ w.calls + attempts_per_stage
          → FileEnds k (next v w'))
      → FileEnds k
          (then_run request (run_stage s limits n deadline stage version artifacts work w) next)
  then_run-FileEnds {V} request k artifacts work deadline stage version w next valid l on =
      after_stage (run_stage s limits n deadline stage version artifacts work w) (
        execute_stage-StageEnds (surroundings_of s limits n artifacts work)
          (budget s limits n deadline) n stage version w valid)
    where
      after_stage :
          (e : Ended V)
          → StageEnds
              (surroundings_of s limits n artifacts work)
              (budget s limits n deadline)
              n
              stage
              version
              w
              e
          → FileEnds k (then_run request e next)
      after_stage (returned v w') h = on v w' h.2 h.1
      after_stage (failed f w') h = (refl, refl, omega (arith, h.1, l), h.2)
      after_stage (crashed e w') h = absurd h
      after_stage (out_of_fuel w') h = absurd h

  ended_as :
      (asks : Bool)
      → let status = if asks then BatchFileStatus.human_review else BatchFileStatus.done in
        (is_ended status ≡ true) × (false ≡ is_failed_final status)
  ended_as true = (refl, refl)
  ended_as false = (refl, refl)

  final-ended :
      (e : ExecutionStatus) (o : Option QualityReport)
      → (is_ended (final_status e o) ≡ true) × (false ≡ is_failed_final (final_status e o))
  final-ended ExecutionStatus.partial o = (refl, refl)
  final-ended ExecutionStatus.running o = ended_as (asks_review o)
  final-ended ExecutionStatus.completed o = ended_as (asks_review o)
  final-ended ExecutionStatus.failed o = ended_as (asks_review o)

  finish-FileEnds :
      (k : ℕ) (turns : Turns) (a : AnalysisResult) (w : World)
      → IsValid w.db
      → w.calls ≤ k
      → FileEnds k (finish s limits n turns a w)
  finish-FileEnds k turns a w valid l =
      let e = final-ended a.status a.report in (e.0, e.1, l, valid)

  request-FileEnds :
      (k : ℕ) (deadline : Option ℕ) (turns : Turns) (w : World) (valid_request : Bool)
      → s.is_request turns ≡ valid_request
      → IsValid w.db
      → w.calls + attempts_per_stage ≤ k
      → FileEnds k (request_or_raise s limits n deadline turns w valid_request)
  request-FileEnds k deadline turns w true e valid l =
      then_run-FileEnds _ k _ _ deadline _ _ w (finish s limits n turns) valid l
        (λ a w' v c. finish-FileEnds k turns a w' v (omega (arith, l, c)))
  request-FileEnds k deadline turns w false e valid l = (refl, (turns, e))

  emotion-FileEnds :
      (k : ℕ) (deadline : Option ℕ) (wav : Wav) (turns : Turns) (w : World)
      → IsValid w.db
      → w.calls + 2 * attempts_per_stage ≤ k
      → FileEnds k (emotion_stage s limits n deadline wav turns w)
  emotion-FileEnds k deadline wav turns w valid l =
      then_run-FileEnds _ k _ _ deadline _ _ w _ valid (omega (arith, l)) (λ _ w' v c.
        request-FileEnds k deadline turns w' (s.is_request turns) refl v (omega (arith, l, c)))

  asr-FileEnds :
      (k : ℕ) (deadline : Option ℕ) (wav : Wav) (w : World)
      → IsValid w.db
      → w.calls + 3 * attempts_per_stage ≤ k
      → FileEnds k (asr_stage s limits n deadline wav w)
  asr-FileEnds k deadline wav w valid l =
      then_run-FileEnds _ k _ _ deadline _ _ w _ valid (omega (arith, l))
        (λ turns w' v c. emotion-FileEnds k deadline wav turns w' v (omega (arith, l, c)))

  transcode-FileEnds :
      (k : ℕ) (deadline : Option ℕ) (w : World)
      → IsValid w.db
      → w.calls + 4 * attempts_per_stage ≤ k
      → FileEnds k (from_deadline s limits n deadline w)
  transcode-FileEnds k deadline w valid l =
      then_run-FileEnds _ k _ _ deadline _ _ w _ valid (omega (arith, l))
        (λ wav w' v c. asr-FileEnds k deadline wav w' v (omega (arith, l, c)))

  with_deadline-FileEnds :
      (deadline : Option ℕ) (w : World)
      → IsValid w.db
      → FileEnds (w.calls + 4 * attempts_per_stage) (with_deadline s limits n deadline w)
  with_deadline-FileEnds none w valid = transcode-FileEnds _ none w valid (omega arith)
  with_deadline-FileEnds (some t) w valid =
      transcode-FileEnds _ (some (s.monotonic w.readings + t)) (tick w) valid (omega arith)

  -- On valid tables the run of a file always ends: with a result that is DONE, HUMAN_REVIEW or
  -- FAILED_FINAL, which has a reason exactly when it is FAILED_FINAL, on valid tables, after at most four
  -- times the calls that the retry policy allows a stage; or by a ValueError, where some transcript makes
  -- no valid request.
  pub process_file-FileEnds :
      (w : World)
      → IsValid w.db
      → FileEnds (w.calls + 4 * attempts_per_stage) (process_file s limits n w)
  unfolding process_file
  process_file-FileEnds w valid = with_deadline-FileEnds limits.run_deadline w valid
