-- ===== src/Quality/Models.antt =====
-- qc/models.py: the report of a call and its parts, as far as the gate and the rules read them.
-- A score in [0, 1] is a number of millionths; an instant counts milliseconds since the epoch, and
-- a datetime without a timezone is `naive`. Values of a metadata dictionary stand in fields.
use servicecheck.Base.{ℕ, String, Bool, Option, List, ◌==◌, same, any, ℤ}

pub data DateTime : Type 0 where
  aware : ℕ → DateTime
  naive : ℕ → DateTime

pub data EventType : Type 0 where
  repayment_dispute debt_denial amount_dispute financial_hardship : EventType
  complaint_intent stop_contact_request third_party_contact : EventType
  threat_or_coercion emotional_escalation : EventType

abbrev pub event_type_value : EventType → String
event_type_value repayment_dispute = "REPAYMENT_DISPUTE"
event_type_value debt_denial = "DEBT_DENIAL"
event_type_value amount_dispute = "AMOUNT_DISPUTE"
event_type_value financial_hardship = "FINANCIAL_HARDSHIP"
event_type_value complaint_intent = "COMPLAINT_INTENT"
event_type_value stop_contact_request = "STOP_CONTACT_REQUEST"
event_type_value third_party_contact = "THIRD_PARTY_CONTACT"
event_type_value threat_or_coercion = "THREAT_OR_COERCION"
event_type_value emotional_escalation = "EMOTIONAL_ESCALATION"

abbrev pub event_type_code : EventType → ℕ
event_type_code repayment_dispute = 0
event_type_code debt_denial = 1
event_type_code amount_dispute = 2
event_type_code financial_hardship = 3
event_type_code complaint_intent = 4
event_type_code stop_contact_request = 5
event_type_code third_party_contact = 6
event_type_code threat_or_coercion = 7
event_type_code emotional_escalation = 8

abbrev pub same_event_type : EventType → EventType → Bool
same_event_type a b = event_type_code a == event_type_code b

pub data ClaimFactStatus : Type 0 where
  not_checked unverified : ClaimFactStatus

pub data ReviewDisposition : Type 0 where
  auto_pass auto_violation human_review_required : ReviewDisposition

pub record TranscriptTurn : Type 0 where
  pub turn_id : String
  pub speaker : String
  pub text : String
  pub start : ℕ
  pub end : ℕ

pub record QualityEvent : Type 0 where
  pub event_id : String
  pub type : EventType
  pub statement : String
  pub turn_ids : List String
  pub confidence : ℕ
  pub ambiguous : Bool

-- A date of a metadata dictionary, as `datetime.fromisoformat` reads it.
pub data DateField : Type 0 where
  missing : DateField
  malformed : DateField
  date : DateTime → DateField

pub record HitMetadata : Type 0 where
  pub event_type : Option String
  pub document_status : Option String
  pub effective_from : DateField
  pub effective_to : DateField
  pub related_rule_ids : List String
  pub rule_ids : List String

pub record KnowledgeHit : Type 0 where
  pub document_id : String
  pub title : String
  pub content : String
  pub version : String
  pub score : ℕ
  pub metadata : HitMetadata
  pub query_source : Option String

pub record AnalysisError : Type 0 where
  pub code : String
  pub stage : String
  pub message : String
  pub retryable : Bool
  pub attempts : ℕ

pub record AuditSnapshot : Type 0 where
  pub call_id : String
  pub crm_summary : Option String
  pub dispute_ticket_created : Option Bool
  pub follow_up_type : Option String
  pub errors : List AnalysisError

pub record Violation : Type 0 where
  pub event_id : Option String
  pub rule_id : String
  pub rule_name : String
  pub penalty : ℤ
  pub evidence_turn_ids : List String
  pub knowledge_document_ids : List String
  pub explanation : String
  pub suggestion : String

-- An item of summary["pendingReviewIssues"]: a dictionary with its code, event and rule, or another
-- value by its text.
pub data PendingIssue : Type 0 where
  coded : Option String → Option String → Option String → PendingIssue
  text : String → PendingIssue

pub record QualityReport : Type 0 where
  pub call_id : String
  pub score : ℤ
  pub events : List QualityEvent
  pub violations : List Violation
  pub knowledge_hits : List KnowledgeHit
  pub audit_snapshot : Option AuditSnapshot
  pub business_fact : ClaimFactStatus
  pub disposition : ReviewDisposition
  pub pending_review_issues : List PendingIssue

-- `x in xs`
abbrev pub is_in : String → List String → Bool
is_in x xs = any (same x) xs
