-- ===== src/Quality/Score.antt =====
-- qc/rules.py: `deduplicate_violations` and `calculate_score`.
use servicecheck.Base.{
  ℕ, ◌+◌, ◌-◌, String, Bool, true, false, not, ◌&&◌, ◌||◌, Option, none, some, List, [], ◌∷◌, ◌++◌,
  map, ltb, ◌==◌, if◌then◌else◌, same, all, select, or_else, find_last, Result, ok, ◌>>=◌, ℤ, pos,
  pos_part, neg_part, ◌+ℤ◌,
}
use Prim.Native.Char.{code}
use servicecheck.Quality.Models.{DateTime, QualityEvent, Violation, is_in}
use servicecheck.Quality.Rules.{QualityRule, or_key_error, get, get_active}

-- The key of a violation: its event and rule, or without an event its rule and evidence turns.
pub data ViolationKey : Type 0 where
  by_event : String → String → ViolationKey
  legacy : String → List String → ViolationKey

-- `violation.eventId` in a test: neither None nor empty
abbrev pub event_ref : Option String → Option String
event_ref none = none
event_ref (some e) = if same e "" then none else some e

abbrev pub key_from : Violation → Option String → ViolationKey
key_from v (some e) = by_event e v.rule_id
key_from v none = legacy v.rule_id v.evidence_turn_ids

abbrev pub violation_key : Violation → ViolationKey
violation_key v = key_from v (event_ref v.event_id)

-- Equality of `tuple(sorted(set(xs)))`: the same members.
abbrev pub same_set : List String → List String → Bool
same_set xs ys = all (λ x. is_in x ys) xs && all (λ y. is_in y xs) ys

abbrev pub same_key : ViolationKey → ViolationKey → Bool
same_key (by_event e r) (by_event f s) = same e f && same r s
same_key (legacy r xs) (legacy s ys) = same r s && same_set xs ys
same_key _ _ = false

-- `current.knowledgeDocumentIds.extend(...)`, where `known` is the set before.
abbrev pub extend_documents : Violation → Violation → Violation
extend_documents current v = record current {
  knowledge_document_ids =
      current.knowledge_document_ids
      ++ select (λ d. not (is_in d current.knowledge_document_ids)) v.knowledge_document_ids;
}

-- One round of the loop over `merged`, which keeps the order of insertion; each entry has its first
-- position.
unfoldable pub merge : ℕ → Violation → List (Violation × ℕ) → List (Violation × ℕ)
merge position v [] = (v, position) ∷ []
merge position v ((current, p) ∷ rest) =
    if same_key (violation_key current) (violation_key v)
    then (extend_documents current v, p) ∷ rest
    else (current, p) ∷ merge position v rest

unfoldable pub merge_all : ℕ → List Violation → List (Violation × ℕ) → List (Violation × ℕ)
unfolding merge
merge_all position [] merged = merged
merge_all position (v ∷ vs) merged = merge_all (position + 1) vs (merge position v merged)

-- `enumerate(events)` as a dictionary: the last index of an event id.
abbrev index_in : String → ℕ → List QualityEvent → Option ℕ
index_in e i [] = none
index_in e i (x ∷ xs) = or_else (index_in e (i + 1) xs) (if same x.event_id e then some i else none)

abbrev or_default : Option ℕ → ℕ → ℕ
or_default none d = d
or_default (some i) d = i

abbrev text_or_empty : Option String → String
text_or_empty none = ""
text_or_empty (some s) = s

-- `order.get(eventId or "", first_position)`
abbrev sort_index : List QualityEvent → Violation × ℕ → ℕ
sort_index events (v, p) = or_default (index_in (text_or_empty v.event_id) 0 events) p

-- Order of texts, by code points.
abbrev pub text_lt : String → String → Bool
text_lt String.[] String.[] = false
text_lt String.[] (String.◌∷◌ d t) = true
text_lt (String.◌∷◌ c s) String.[] = false
text_lt (String.◌∷◌ c s) (String.◌∷◌ d t) =
    let rest = text_lt s t in if ltb (code c) (code d) then true else code c == code d && rest

-- The order of `sorted`, by the triple of event index, rule id and first position.
abbrev pub comes_before : List QualityEvent → Violation × ℕ → Violation × ℕ → Bool
comes_before events (v, p) (w, q) =
    let i = sort_index events (v, p) in
    let j = sort_index events (w, q) in
    if ltb i j
    then true
    else i == j && (text_lt v.rule_id w.rule_id || same v.rule_id w.rule_id && ltb p q)

unfoldable pub insert_sorted :
    List QualityEvent → Violation × ℕ → List (Violation × ℕ) → List (Violation × ℕ)
insert_sorted events x [] = x ∷ []
insert_sorted events x (y ∷ ys) =
    if comes_before events x y then x ∷ y ∷ ys else y ∷ insert_sorted events x ys

unfoldable pub sort : List QualityEvent → List (Violation × ℕ) → List (Violation × ℕ)
sort events [] = []
sort events (x ∷ xs) = insert_sorted events x (sort events xs)

unfoldable pub deduplicate_violations : List Violation → List QualityEvent → List Violation
unfolding merge_all insert_sorted sort
deduplicate_violations violations events =
    map (λ (v, p). v) (sort events (merge_all 0 violations []))

-- `event_by_id`: the last event with the id
abbrev pub last_event : String → List QualityEvent → Option QualityEvent
last_event e events = find_last (λ x. same x.event_id e) events

-- The event that a violation refers to, or KeyError.
abbrev pub referred : Violation → List QualityEvent → Result QualityEvent
referred v events = or_key_error (event_ref v.event_id) >>= λ e. or_key_error (last_event e events)

abbrev pub add_penalty : Option QualityRule → ℤ → ℤ
add_penalty none total = total
add_penalty (some rule) total = rule.penalty +ℤ total

-- `sum(penalties)` over the violations in their order.
unfoldable pub penalties :
    List QualityRule → DateTime → List QualityEvent → List Violation → Result ℤ
penalties rules at events [] = ok (pos 0)
penalties rules at events (v ∷ vs) = get rules v.rule_id >>= λ _. referred v events >>= λ event.
    get_active rules v.rule_id event.type at >>= λ rule.
    penalties rules at events vs >>= λ total. ok (add_penalty rule total)

-- `max(0, 100 - total)`
abbrev pub score_of : ℤ → ℤ
score_of total = pos (100 + neg_part total - pos_part total)

unfoldable pub calculate_score :
    List Violation → List QualityRule → DateTime → List QualityEvent → Result ℤ
unfolding penalties deduplicate_violations
calculate_score violations rules at events =
    penalties rules at events (deduplicate_violations violations events) >>= λ total.
    ok (score_of total)
