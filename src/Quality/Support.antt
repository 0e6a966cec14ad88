-- ===== src/Quality/Support.antt =====
-- qc/rag_support.py: whether a knowledge hit is in force, bears on a rule, and supports a violation.
use servicecheck.Base.{
  ℕ, String, Bool, true, false, not, ◌&&◌, ◌||◌, Option, none, some, List, [], ◌∷◌, ltb, leb,
  if◌then◌else◌, same, value_error, Result, ok, err, ◌>>=◌,
}
use servicecheck.Quality.Models.{
  DateTime, DateField, missing, date, event_type_value, QualityEvent, KnowledgeHit, Violation,
  is_in,
}
use servicecheck.Quality.Rules.{QualityRule, in_force, require_aware}

abbrev pub is_published : Option String → Bool
is_published none = true
is_published (some s) = same s "published"

-- The dates parsed, a missing end being open.
abbrev in_force_fields : DateTime → DateField → DateField → Result Bool
in_force_fields at (date from) missing = in_force at from none
in_force_fields at (date from) (date until) = in_force at from (some until)
in_force_fields at _ _ = ok false

unfoldable pub document_is_active : KnowledgeHit → DateTime → Result Bool
document_is_active hit at = require_aware at >>= λ t.
    if is_published hit.metadata.document_status
    then in_force_fields t hit.metadata.effective_from hit.metadata.effective_to
    else ok false

-- `related or ruleIds or []`
abbrev pub or_list : List String → List String → List String
or_list [] ys = ys
or_list (x ∷ xs) ys = x ∷ xs

unfoldable pub document_relates_to_rule : KnowledgeHit → QualityRule → Bool
document_relates_to_rule hit rule =
    same hit.document_id rule.rule_id
    || same hit.document_id rule.source_document_id
    || is_in rule.rule_id (or_list hit.metadata.related_rule_ids hit.metadata.rule_ids)

abbrev pub is_type_of : QualityEvent → KnowledgeHit → Bool
is_type_of event hit = elim hit.metadata.event_type [
  | none ↦ false
  | some s ↦ same s (event_type_value event.type)
]

abbrev pub is_requested : List String → KnowledgeHit → Bool
is_requested [] hit = true
is_requested (d ∷ ds) hit = is_in hit.document_id (d ∷ ds)

-- The tests of a hit, in the order of the source.
unfoldable pub supports :
    Violation → QualityEvent → QualityRule → DateTime → ℕ → KnowledgeHit → Result Bool
supports violation event rule at minimum hit =
    if not (is_requested violation.knowledge_document_ids hit)
      || ltb hit.score minimum
      || not (is_type_of event hit)
    then ok false
    else document_is_active hit at >>= λ active. ok (active && document_relates_to_rule hit rule)

abbrev pub score_one : ℕ
score_one = 1000000

unfoldable pub supporting_from :
    Violation
    → QualityEvent
    → QualityRule
    → DateTime
    → ℕ
    → List KnowledgeHit
    → Result (List KnowledgeHit)
supporting_from violation event rule at minimum [] = ok []
supporting_from violation event rule at minimum (hit ∷ hits) =
    supports violation event rule at minimum hit >>= λ yes_it_does.
    supporting_from violation event rule at minimum hits >>= λ rest.
    ok (if yes_it_does then hit ∷ rest else rest)

unfoldable pub supporting_hits :
    Violation
    → QualityEvent
    → QualityRule
    → DateTime
    → ℕ
    → List KnowledgeHit
    → Result (List KnowledgeHit)
unfolding supporting_from
supporting_hits violation event rule at minimum hits =
    if leb minimum score_one
    then supporting_from violation event rule at minimum hits
    else err value_error
