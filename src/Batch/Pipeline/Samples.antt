-- ===== src/Batch/Pipeline/Samples.antt =====
-- Concrete runs of a stage, and the theorems at these inputs.
use servicecheck.Base.{
  ℕ, zero, suc, ◌+◌, ◌*◌, String, ◌≡◌, refl, subst, ◌⊎◌, inl, inr, Bool, true, false, none, some,
  arith, if◌then◌else◌, same,
}
use servicecheck.Batch.Models.{StageName, asr}
use servicecheck.Batch.Store.Tables.{empty_db}
use servicecheck.Batch.Store.Validity.{empty_db-IsValid}
use servicecheck.Batch.Store.Stages.{
  latest, get_stage_checkpoint, begin_stage, complete_stage, fail_stage, invalidate_stages,
}
use servicecheck.Batch.Pipeline.Retry.{Raised, timeout, bad_input, classify_error, should_retry}
use servicecheck.Batch.Pipeline.Checkpoint.{
  Surroundings, World, BatchStageFailure, Ended, returned, failed, crashed, out_of_fuel, Stored,
  load,
}
use servicecheck.Batch.Pipeline.Execute.{Budget, attempts_loop, execute_stage}
use servicecheck.Batch.Pipeline.Stages.{StageEnds, execute_stage-StageEnds}
use servicecheck.Batch.Pipeline.Resume.{IsSameFailure, IsFaithful, failure_stays, success_stays}

-- The work fails by a timeout on its first call and then makes `true`.
abbrev second_time : ℕ → Raised ⊎ Bool
second_time zero = inl (timeout "read timed out")
second_time (suc k) = inr true

abbrev store_bool : StageName → Bool → String → Raised ⊎ Stored Bool
store_bool stage true version = inr record { uri = "yes"; sha256 = "1"; value = true }
store_bool stage false version = inr record { uri = "no"; sha256 = "0"; value = false }

abbrev surroundings : (ℕ → Raised ⊎ Bool) → Surroundings Bool
surroundings work = record {
  monotonic = λ k. k * 5;
  utc_now = λ k. 1000 + k;
  read_artifact = λ stage uri sha version. if same uri "yes" then some true else some false;
  put_artifact = store_bool;
  action = work;
}

abbrev three_attempts : Budget
three_attempts = record {
  max_attempts = 3;
  retry_policy = none;
  stage_timeout = some 100;
  run_deadline_at = none;
}

abbrev start : World
start = record { db = empty_db; readings = 0; calls = 0 }

abbrev world_of : Ended Bool → World
world_of (returned v w) = w
world_of (failed f w) = w
world_of (crashed e w) = w
world_of (out_of_fuel w) = w

abbrev run_second : World → Ended Bool
run_second w = execute_stage (surroundings second_time) three_attempts 1 asr "v1" w

abbrev run_bad : World → Ended Bool
run_bad w = execute_stage (surroundings (λ k. inl bad_input)) three_attempts 1 asr "v1" w

abbrev bad_failure : BatchStageFailure
bad_failure = record {
  code = "INVALID_INPUT";
  stage = asr;
  message = "输入或路径不合法";
  retryable = false;
  attempts = 1;
}

-- The second attempt succeeds.
second_attempt :
    (run_second start ≡ returned true (world_of (run_second start)))
    × ((world_of (run_second start)).calls ≡ 2)
unfolding execute_stage attempts_loop load latest get_stage_checkpoint begin_stage complete_stage
    fail_stage invalidate_stages classify_error should_retry empty_db same
second_attempt = (refl, refl)

-- An error of the input is not tried again.
bad_attempt :
    (run_bad start ≡ failed bad_failure (world_of (run_bad start)))
    × ((world_of (run_bad start)).calls ≡ 1)
unfolding execute_stage attempts_loop load latest get_stage_checkpoint begin_stage complete_stage
    fail_stage invalidate_stages classify_error should_retry empty_db same
bad_attempt = (refl, refl)

stored_inj : {t s : Stored Bool} → Path (Raised ⊎ Stored Bool) (inr t) (inr s) → t ≡ s
stored_inj h = cc

surroundings-IsFaithful : IsFaithful (surroundings second_time) asr "v1"
unfolding same
surroundings-IsFaithful = record { reads_back = reads; uri_given = uri; sha256_given = sha }
  where
    reads :
        (made : Bool) (s : Stored Bool)
        → store_bool asr made "v1" ≡ inr s
        → (if same s.uri "yes" then some true else some false) ≡ some s.value
    reads true s h =
        subst (λ x. (if same x.uri "yes" then some true else some false) ≡ some x.value)
          (stored_inj h) refl
    reads false s h =
        subst (λ x. (if same x.uri "yes" then some true else some false) ≡ some x.value)
          (stored_inj h) refl

    uri : (made : Bool) (s : Stored Bool) → store_bool asr made "v1" ≡ inr s → same s.uri "" ≡ false
    uri true s h = subst (λ x. same x.uri "" ≡ false) (stored_inj h) refl
    uri false s h = subst (λ x. same x.uri "" ≡ false) (stored_inj h) refl

    sha :
        (made : Bool) (s : Stored Bool)
        → store_bool asr made "v1" ≡ inr s
        → same s.sha256 "" ≡ false
    sha true s h = subst (λ x. same x.sha256 "" ≡ false) (stored_inj h) refl
    sha false s h = subst (λ x. same x.sha256 "" ≡ false) (stored_inj h) refl

execute_stage-StageEnds_example :
    StageEnds (surroundings second_time) three_attempts 1 asr "v1" start (run_second start)
execute_stage-StageEnds_example =
    execute_stage-StageEnds (surroundings second_time) three_attempts 1 asr "v1" start
      empty_db-IsValid

failure_stays_example :
    (g : BatchStageFailure) × (run_bad (world_of (run_bad start))
      ≡ failed g (world_of (run_bad start)))
    × IsSameFailure bad_failure g
failure_stays_example =
    failure_stays (surroundings (λ k. inl bad_input)) three_attempts 1 asr "v1" start
      (world_of (run_bad start)) (world_of (run_bad start)) bad_failure empty_db-IsValid refl
      (omega arith) bad_attempt.0 refl

success_stays_example :
    run_second (world_of (run_second start)) ≡ returned true (world_of (run_second start))
success_stays_example =
    success_stays (surroundings second_time) three_attempts 1 asr "v1" start
      (world_of (run_second start)) (world_of (run_second start)) true empty_db-IsValid refl
      surroundings-IsFaithful (unfold same in refl) second_attempt.0 refl
