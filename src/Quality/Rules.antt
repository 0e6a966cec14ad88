-- ===== src/Quality/Rules.antt =====
-- qc/rules.py, `RuleRepository`: the rules are those that were read from the file.
use servicecheck.Base.{
  String, Bool, true, false, Option, none, some, List, [], ◌∷◌, ltb, leb, if◌then◌else◌, same,
  is_some, any, find, key_error, value_error, type_error, Result, ok, err, ◌>>=◌, ℤ,
}
use servicecheck.Quality.Models.{DateTime, aware, naive, EventType, same_event_type}

pub record QualityRule : Type 0 where
  pub rule_id : String
  pub name : String
  pub event_types : List EventType
  pub description : String
  pub penalty : ℤ
  pub version : String
  pub effective_from : DateTime
  pub effective_to : Option DateTime
  pub source_document_id : String

-- `a <= b` and `a < b`: a datetime with a timezone is not comparable to one without.
abbrev pub le_time : DateTime → DateTime → Result Bool
le_time (aware a) (aware b) = ok (leb a b)
le_time (naive a) (naive b) = ok (leb a b)
le_time _ _ = err type_error

abbrev pub lt_time : DateTime → DateTime → Result Bool
lt_time (aware a) (aware b) = ok (ltb a b)
lt_time (naive a) (naive b) = ok (ltb a b)
lt_time _ _ = err type_error

-- `end is None or at_time < end`
abbrev pub before_end : DateTime → Option DateTime → Result Bool
before_end at none = ok true
before_end at (some t) = lt_time at t

-- `rule.effectiveFrom <= at_time and (rule.effectiveTo is None or at_time < rule.effectiveTo)`
abbrev pub in_force : DateTime → DateTime → Option DateTime → Result Bool
in_force at from until =
    le_time from at >>= λ begun. if begun then before_end at until else ok false

abbrev pub has_type : EventType → QualityRule → Bool
has_type type r = any (same_event_type type) r.event_types

abbrev pub require_aware : DateTime → Result DateTime
require_aware (aware t) = ok (aware t)
require_aware (naive t) = err value_error

abbrev pub or_key_error {ℓ} : {A : Type ℓ} → Option A → Result A
or_key_error (some a) = ok a
or_key_error none = err key_error

abbrev pub has_rule_id : String → QualityRule → Bool
has_rule_id i r = same r.rule_id i

unfoldable pub get : List QualityRule → String → Result QualityRule
get rules i = or_key_error (find (has_rule_id i) rules)

-- The rule, if it is in force.
abbrev pub keep_if : QualityRule → Result Bool → Result (Option QualityRule)
keep_if rule active = active >>= λ b. ok (if b then some rule else none)

abbrev pub if_active : EventType → DateTime → QualityRule → Result (Option QualityRule)
if_active type at rule =
    if has_type type rule
    then keep_if rule (in_force at rule.effective_from rule.effective_to)
    else ok none

unfoldable pub get_active :
    List QualityRule → String → EventType → DateTime → Result (Option QualityRule)
unfolding get
get_active rules i type at = get rules i >>= λ rule. require_aware at >>= λ t. if_active type t rule

load_from : List QualityRule → EventType → DateTime → Result (List QualityRule)
load_from [] type at = ok []
load_from (r ∷ rs) type at = if_active type at r >>= λ active.
    load_from rs type at >>= λ rest. ok (if is_some active then r ∷ rest else rest)

unfoldable pub load_active : List QualityRule → EventType → DateTime → Result (List QualityRule)
unfolding load_from
load_active rules type at = require_aware at >>= λ t. load_from rules type t
