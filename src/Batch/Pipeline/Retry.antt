-- ===== src/Batch/Pipeline/Retry.antt =====
-- qc/batch/retry_policy.py: which failure is tried again, and after which delay. Durations of a
-- policy are milliseconds, a random draw is a number of millionths, and a delay is nanoseconds.
use servicecheck.Base.{
  ℕ, ◌+◌, ◌-◌, ◌*◌, ◌^◌, min, max, String, Bool, true, false, ◌&&◌, ◌||◌, List, [], ◌∷◌, ltb, leb,
  ◌==◌, if◌then◌else◌, ℤ, pos_part,
}
use Prim.Native.Char.{code}
use servicecheck.Quality.Models.{AnalysisError}
use servicecheck.Batch.Models.{StageName}

-- The exceptions that the code tells apart: one with `code`, `message` and `retryable`, a
-- PipelineFailure, a TimeoutError with its text, a FileNotFoundError, PermissionError or ValueError,
-- and any other.
pub data Raised : Type 0 where
  structured : String → String → Bool → Raised
  pipeline_failure : AnalysisError → Raised
  timeout : String → Raised
  bad_input : Raised
  other : Raised

pub record StageFailure : Type 0 where
  pub code : String
  pub stage : StageName
  pub message : String
  pub retryable : Bool
  pub cause_type : String

-- `str.lower` on the letters that the texts below are made of
abbrev lower : ℕ → ℕ
lower c = if leb b'A' c && leb c b'Z' then c + 32 else c

abbrev lower_codes : String → List ℕ
lower_codes String.[] = []
lower_codes (String.◌∷◌ c s) = lower (code c) ∷ lower_codes s

abbrev starts_with : List ℕ → List ℕ → Bool
starts_with [] ys = true
starts_with (x ∷ xs) [] = false
starts_with (x ∷ xs) (y ∷ ys) = x == y && starts_with xs ys

abbrev contains : List ℕ → List ℕ → Bool
contains xs [] = starts_with xs []
contains xs (y ∷ ys) = starts_with xs (y ∷ ys) || contains xs ys

abbrev mentions_limit : List ℕ → Bool
mentions_limit text =
    contains (lower_codes "429") text
    || contains (lower_codes "rate") text
    || contains (lower_codes "limit") text

unfoldable pub classify_error : Raised → StageName → StageFailure
classify_error (structured c m r) stage = record {
  code = c;
  stage = stage;
  message = m;
  retryable = r;
  cause_type = "structured";
}
classify_error (pipeline_failure e) stage = record {
  code = e.code;
  stage = stage;
  message = e.message;
  retryable = e.retryable;
  cause_type = "pipeline";
}
classify_error (timeout text) stage =
    if mentions_limit (lower_codes text)
    then record {
      code = "UPSTREAM_RATE_LIMITED";
      stage = stage;
      message = "上游限流";
      retryable = true;
      cause_type = "rate_limit";
    }
    else record {
      code = "UPSTREAM_TIMEOUT";
      stage = stage;
      message = "上游调用超时";
      retryable = true;
      cause_type = "timeout";
    }
classify_error bad_input stage = record {
  code = "INVALID_INPUT";
  stage = stage;
  message = "输入或路径不合法";
  retryable = false;
  cause_type = "input";
}
classify_error other stage = record {
  code = "INTERNAL_ERROR";
  stage = stage;
  message = "批量阶段发生内部错误";
  retryable = false;
  cause_type = "internal";
}

pub record RetryPolicy : Type 0 where
  pub max_attempts : ℤ
  pub initial_delay : ℤ
  pub max_delay : ℤ
  pub jitter : ℤ

-- `max(1, self.max_attempts)`
abbrev pub attempt_limit : RetryPolicy → ℕ
attempt_limit p = max 1 (pos_part p.max_attempts)

unfoldable pub should_retry : RetryPolicy → StageFailure → ℕ → Bool
should_retry p failure attempts = failure.retryable && ltb attempts (attempt_limit p)

-- `random_fn` gave `draw` millionths.
unfoldable pub delay_for : RetryPolicy → ℕ → ℕ → ℕ
delay_for p attempts draw =
    min (pos_part p.initial_delay * 2 ^ (attempts - 1)) (pos_part p.max_delay) * 1000000
    + pos_part p.jitter * draw
