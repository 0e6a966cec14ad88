-- ===== src/Batch/Pipeline/Checkpoint.antt =====
-- qc/batch/checkpoints.py, `FileCheckpointSession`: the checkpoint of one stage of one file. The artifact store with the JSON of the artifacts, the clocks and the work of
-- the stage are parameters; what a stage makes has the type `V`.
use servicecheck.Base.{
  ℕ, ◌+◌, String, ◌⊎◌, inl, inr, Bool, Option, none, some, if◌then◌else◌, same, Failure,
  value_error, Result, ok, err,
}
use servicecheck.Batch.Models.{StageName, StageStatus}
use servicecheck.Batch.Store.Tables.{StageRow, Db}
use servicecheck.Batch.Store.Stages.{
  Artifact, get_stage_checkpoint, complete_stage, same_stage_status,
}
use servicecheck.Batch.Pipeline.Retry.{Raised, bad_input, other}

-- A reference of the artifact store, with the value as it is read back.
pub record Stored (V : Type 0) : Type 0 where
  pub uri : String
  pub sha256 : String
  pub value : V

-- The surroundings of a stage. A clock gives the instant of its n-th reading, in milliseconds, and
-- `action` the outcome of its n-th call.
pub record Surroundings (V : Type 0) : Type 0 where
  pub monotonic : ℕ → ℕ
  pub utc_now : ℕ → ℕ
  pub read_artifact : StageName → String → String → String → Option V
  pub put_artifact : StageName → V → String → Raised ⊎ Stored V
  pub action : ℕ → Raised ⊎ V

-- The tables, the readings of the clock and the calls of the action so far.
pub record World : Type 0 where
  pub db : Db
  pub readings : ℕ
  pub calls : ℕ

abbrev pub tick : World → World
tick w = record w { readings = w.readings + 1 }

abbrev pub with_db : Db → World → World
with_db d w = record w { db = d }

pub record BatchStageFailure : Type 0 where
  pub code : String
  pub stage : StageName
  pub message : String
  pub retryable : Bool
  pub attempts : ℕ

-- How a stage ends: with a value, a BatchStageFailure, or another exception of the store.
pub data Ended (V : Type 0) : Type 0 where
  returned : V → World → Ended V
  failed : BatchStageFailure → World → Ended V
  crashed : Failure → World → Ended V
  out_of_fuel : World → Ended V

-- `checkpoint.get(field)` in a test
abbrev pub given : Option String → Option String
given none = none
given (some s) = if same s "" then none else some s

module _ {V : Type 0} (env : Surroundings V) (n : ℕ) (stage : StageName) (version : String) where
  abbrev pub load_fields : Option String → Option String → Option String → Option V
  load_fields (some uri) (some sha) (some v) =
      if same v version then env.read_artifact stage uri sha version else none
  load_fields _ _ _ = none

  abbrev pub load_row : Option StageRow → Option V
  load_row none = none
  load_row (some r) =
      if same_stage_status r.status StageStatus.done
      then load_fields (given r.artifact_uri) (given r.sha256) (given r.producer_version)
      else none

  -- `FileCheckpointSession.load`
  unfoldable pub load : Db → Option V
  load db = load_row (get_stage_checkpoint n stage db)

  -- The exceptions of the store, as `classify_error` sees them.
  abbrev pub raised_by : Failure → Raised
  raised_by value_error = bad_input
  raised_by _ = other

  abbrev pub artifact_of : ℕ → Stored V → Artifact
  artifact_of duration s = record {
    artifact_uri = s.uri;
    sha256 = s.sha256;
    producer_version = version;
    duration_ms = duration;
  }

  abbrev pub completed : ℕ → Stored V → World → Result (Unit {0} × Db)
  completed duration s w =
      complete_stage n stage (artifact_of duration s) (env.utc_now w.readings) w.db

  abbrev pub complete_with : World → V → Result (Unit {0} × Db) → (Raised ⊎ V) × World
  complete_with w v (ok (_, d)) = (inr v, with_db d w)
  complete_with w v (err e) = (inl (raised_by e), w)

  abbrev pub complete_stored : ℕ → World → Raised ⊎ Stored V → (Raised ⊎ V) × World
  complete_stored duration w (inl e) = (inl e, w)
  complete_stored duration w (inr s) = complete_with w s.value (completed duration s w)

  -- `FileCheckpointSession.complete`
  abbrev pub complete : ℕ → V → World → (Raised ⊎ V) × World
  complete duration v w = complete_stored duration w (env.put_artifact stage v version)
