-- ===== src/Quality/Gate.antt =====
-- qc/quality_gate.py, `QualityGate.check`, in the parts of its body: the events, the documents of a
-- violation, the violations, and the report as a whole. Messages of issues are left out.
use servicecheck.Base.{
  ℕ, ◌+◌, String, Bool, true, false, not, ◌&&◌, ◌||◌, Option, none, some, List, [], ◌∷◌, ◌++◌, ltb,
  leb, ◌==◌, if◌then◌else◌, same, length, any, all, select, find, Result, ok, ◌>>=◌,
}
use Prim.Native.Char.{code}
use servicecheck.Quality.Models.{
  DateTime, QualityEvent, KnowledgeHit, Violation, QualityReport, is_in,
}
use servicecheck.Quality.Rules.{QualityRule, get_active}
use servicecheck.Quality.Support.{document_is_active, is_type_of, supporting_hits}

-- Where an issue lies: a field of an event, of a violation, or of the report.
pub data ReportPath : Type 0 where
  at_event : ℕ → String → ReportPath
  at_violation : ℕ → String → ReportPath
  at_report : String → ReportPath

pub record GateIssue : Type 0 where
  pub code : String
  pub report_path : ReportPath

pub record GateResult : Type 0 where
  pub passed : Bool
  pub issues : List GateIssue

abbrev pub when : Bool → String → ReportPath → List GateIssue
when true c p = record { code = c; report_path = p } ∷ []
when false c p = []

abbrev pub codes : String → List ℕ
codes String.[] = []
codes (String.◌∷◌ c s) = code c ∷ codes s

abbrev pub is_hex : ℕ → Bool
is_hex c = leb b'0' c && leb c b'9' || leb b'A' c && leb c b'F'

abbrev pub strip_prefix : List ℕ → List ℕ → Option (List ℕ)
strip_prefix [] cs = some cs
strip_prefix (p ∷ ps) [] = none
strip_prefix (p ∷ ps) (c ∷ cs) = let rest = strip_prefix ps cs in if p == c then rest else none

abbrev pub hex_tail : Option (List ℕ) → Bool
hex_tail none = false
hex_tail (some cs) = length cs == 32 && all is_hex cs

-- EVENT_ID_PATTERN.fullmatch: `EVT-` and 32 upper-case hexadecimal digits
unfoldable pub is_event_id : String → Bool
is_event_id s = hex_tail (strip_prefix (codes "EVT-") (codes s))

abbrev pub missing_turn : List String → List String → Bool
missing_turn valid turns = any (λ t. not (is_in t valid)) turns

abbrev pub has_event_id : String → QualityEvent → Bool
has_event_id e x = same x.event_id e

-- The loop over the events, with those before.
unfoldable pub event_issues :
    List String → ℕ → List QualityEvent → List QualityEvent → List GateIssue
event_issues valid index earlier [] = []
event_issues valid index earlier (e ∷ es) =
    when (any (has_event_id e.event_id) earlier) "DUPLICATE_EVENT_ID" (at_event index "eventId")
    ++ (when (not (is_event_id e.event_id)) "INVALID_EVENT_ID_FORMAT" (at_event index "eventId")
        ++ (when (missing_turn valid e.turn_ids) "MISSING_TRANSCRIPT_EVIDENCE"
              (at_event index "turnIds")
            ++ event_issues valid (index + 1) (e ∷ earlier) es))

-- `all(not document_is_active(hit, at) for hit in matching)`
abbrev pub all_inactive : DateTime → List KnowledgeHit → Result Bool
all_inactive at [] = ok true
all_inactive at (h ∷ hs) =
    document_is_active h at >>= λ active. if active then ok false else all_inactive at hs

abbrev pub matching_hits : QualityReport → String → List KnowledgeHit
matching_hits report d = select (λ h. same h.document_id d) report.knowledge_hits

abbrev pub is_empty {ℓ} : {A : Type ℓ} → List A → Bool
is_empty [] = true
is_empty (x ∷ xs) = false

-- What is said of one document that was retrieved.
abbrev pub match_issues :
    DateTime → ℕ → ReportPath → Option QualityEvent → List KnowledgeHit → Result (List GateIssue)
match_issues at minimum path none hits = ok []
match_issues at minimum path (some event) hits = all_inactive at hits >>= λ inactive. ok (
    when (all (λ h. ltb h.score minimum) hits) "RAG_BELOW_THRESHOLD" path
    ++ (when (all (λ h. not (is_type_of event h)) hits) "RAG_EVENT_TYPE_MISMATCH" path
        ++ when inactive "RAG_DOCUMENT_INACTIVE" path))

-- The loop over the documents of a violation.
unfoldable pub document_issues :
    QualityReport
    → DateTime
    → ℕ
    → ReportPath
    → Option QualityEvent
    → List String
    → Result (List GateIssue)
document_issues report at minimum path event [] = ok []
document_issues report at minimum path event (d ∷ ds) =
    (if is_empty (matching_hits report d)
      then ok (when true "UNKNOWN_POLICY_EVIDENCE" path)
      else match_issues at minimum path event (matching_hits report d))
    >>= λ first. document_issues report at minimum path event ds >>= λ rest. ok (first ++ rest)

-- `candidate_hits`
abbrev pub candidate_hits : QualityReport → List String → List KnowledgeHit
candidate_hits report [] = []
candidate_hits report (d ∷ ds) = matching_hits report d ++ candidate_hits report ds

-- `event_by_id.get(violation.eventId or "")`: the first event with the id
abbrev pub text_or_empty : Option String → String
text_or_empty none = ""
text_or_empty (some s) = s

abbrev pub event_of : QualityReport → Violation → Option QualityEvent
event_of report v = find (has_event_id (text_or_empty v.event_id)) report.events

-- The rule in force for the event, where there is one.
abbrev pub active_rule :
    List QualityRule → DateTime → Violation → Option QualityEvent → Result (Option QualityRule)
active_rule rules at v none = ok none
active_rule rules at v (some event) = get_active rules v.rule_id event.type at

abbrev pub supported :
    QualityReport
    → DateTime
    → ℕ
    → Violation
    → QualityRule
    → Option QualityEvent
    → Option QualityRule
    → Result (List KnowledgeHit)
supported report at minimum v rule (some event) (some active) =
    supporting_hits v event rule at minimum (candidate_hits report v.knowledge_document_ids)
supported report at minimum v rule _ _ = ok []
