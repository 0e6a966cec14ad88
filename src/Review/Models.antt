-- ===== src/Review/Models.antt =====
-- qc/review_models.py: outcomes, task statuses and reasons, and which reason fits which outcome.
use servicecheck.Base.{ℕ, String, Bool, true, false, ◌&&◌, leb}
use Prim.Native.String.{count as char_count}

pub data HumanOutcome : Type 0 where
  confirmed_pass confirmed_violation unresolved : HumanOutcome

pub data ReviewTaskStatus : Type 0 where
  pending resolved unresolved : ReviewTaskStatus

pub data ReasonCode : Type 0 where
  pass_confirmed violation_confirmed insufficient_evidence asr_unclear other : ReasonCode

-- The member's value, as `request.reasonCode.value` passes it on.
abbrev pub reason_value : ReasonCode → String
reason_value pass_confirmed = "PASS_CONFIRMED"
reason_value violation_confirmed = "VIOLATION_CONFIRMED"
reason_value insufficient_evidence = "INSUFFICIENT_EVIDENCE"
reason_value asr_unclear = "ASR_UNCLEAR"
reason_value other = "OTHER"

-- `reason in REASON_CODES_BY_OUTCOME[outcome]`
abbrev pub reason_fits : HumanOutcome → ReasonCode → Bool
reason_fits HumanOutcome.confirmed_pass pass_confirmed = true
reason_fits HumanOutcome.confirmed_violation violation_confirmed = true
reason_fits HumanOutcome.unresolved insufficient_evidence = true
reason_fits HumanOutcome.unresolved asr_unclear = true
reason_fits HumanOutcome.unresolved other = true
reason_fits _ _ = false

pub record ReviewSubmitRequest : Type 0 where
  pub expected_version : ℕ
  pub outcome : HumanOutcome
  pub reason_code : ReasonCode
  pub note : String

-- The validation of a request by its model: `expectedVersion >= 1`, a note of at most 2000
-- characters, and `validate_reason_matches_outcome`.
unfoldable pub is_valid_request : ReviewSubmitRequest → Bool
is_valid_request r =
    leb 1 r.expected_version && leb (char_count r.note) 2000 && reason_fits r.outcome r.reason_code

pub data ContextSource : Type 0 where
  configured_demo : ContextSource

pub record ReviewerContext : Type 0 where
  pub reviewer_id : String
  pub context_source : ContextSource

abbrev pub configured_reviewer_context : ReviewerContext
configured_reviewer_context = record {
  reviewer_id = "configured-demo-reviewer";
  context_source = configured_demo;
}

abbrev pub outcome_is_unresolved : HumanOutcome → Bool
outcome_is_unresolved HumanOutcome.unresolved = true
outcome_is_unresolved _ = false

abbrev pub is_pending : ReviewTaskStatus → Bool
is_pending ReviewTaskStatus.pending = true
is_pending _ = false
