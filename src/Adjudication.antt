-- ===== src/Adjudication.antt =====
-- claimpipe/adjudication.py: versioned decision tables over the facts of a claim. `read` is how
-- Python's `float` reads a text.
pub mod Rulesets
pub mod FirstMatch
pub mod Tables
pub mod Totality
use insurance_claim_ai.Prelude.{
  ◌++◌, ◌^◌, ◌*◌, String, Bool, true, false, not, Option, none, some, List, [], ◌∷◌, ◌==◌,
  if◌then◌else◌, Dict, get,
}
use insurance_claim_ai.Prelude.Int.{pos}
use insurance_claim_ai.Domain.Errors.{Error, Result, ok, err, type_error, value_error, ◌>>=◌}
use insurance_claim_ai.Value.{
  Value, Values, Float, null, bool, int, float, str, list, nil, cons, finite, ltf, lef, eq,
}
use insurance_claim_ai.Value.Conversion.{to_float}

pub data Decision : Type 0 where
  approve deny pend : Decision

-- The texts of the enum, which the events and the claims carry.
abbrev pub decision_text : Decision → String
decision_text approve = "APPROVE"
decision_text deny = "DENY"
decision_text pend = "PEND"

-- The vocabulary that the pattern of `Condition.op` admits.
pub data Op : Type 0 where
  op_eq op_ne op_gt op_gte op_lt op_lte op_in op_exists op_not_exists : Op

pub record Condition : Type 0 where
  pub field : String
  pub op : Op
  pub value : Value

pub record Rule : Type 0 where
  pub rule_id : String
  pub description : String
  pub conditions : List Condition
  pub outcome : Decision
  pub reason_code : String

pub record RuleSet : Type 0 where
  pub name : String
  pub version : String
  pub rules : List Rule

pub record AdjudicationResult : Type 0 where
  pub decision : Decision
  pub reason_codes : List String
  pub rule_id : Option String
  pub rule_set : String
  pub rule_set_version : String
  pub facts : Dict Value

-- `self.field in facts and facts[self.field] is not None`: the value, where there is one.
abbrev pub non_null : Value → Option Value
non_null null = none
non_null v = some v

abbrev present_value : Option Value → Option Value
present_value none = none
present_value (some v) = non_null v

abbrev pub present : Dict Value → String → Option Value
present facts field = present_value (get facts field)

-- `actual in self.value`, for a list.
unfoldable pub contains : Values → Value → Bool
contains nil v = false
contains (cons w ws) v = if eq v w then true else contains ws v

abbrev pub compare_floats : Op → Float → Float → Bool
compare_floats op_gt a b = ltf b a
compare_floats op_gte a b = lef b a
compare_floats op_lt a b = ltf a b
compare_floats op_lte a b = lef a b
compare_floats _ a b = false

-- `except (TypeError, ValueError): return False`; an OverflowError passes.
abbrev pub recover : Result Bool → Result Bool
recover (err type_error) = ok false
recover (err value_error) = ok false
recover r = r

abbrev pub is_in : Value → Value → Bool
is_in actual (list ws) = contains ws actual
is_in actual _ = false

abbrev pub decided_by : RuleSet → Dict Value → Rule → AdjudicationResult
decided_by rs facts rule = record {
  decision = rule.outcome;
  reason_codes = rule.reason_code ∷ [];
  rule_id = some rule.rule_id;
  rule_set = rs.name;
  rule_set_version = rs.version;
  facts = facts;
}

abbrev pub undecided : RuleSet → Dict Value → AdjudicationResult
undecided rs facts = record {
  decision = pend;
  reason_codes = "NO_RULE_MATCHED" ∷ [];
  rule_id = none;
  rule_set = rs.name;
  rule_set_version = rs.version;
  facts = facts;
}

module _ (read : String → Option Float) where
  abbrev pub ordered : Op → Value → Value → Result Bool
  ordered op actual value =
      recover (do a ← to_float read actual; b ← to_float read value; ok (compare_floats op a b))

  abbrev pub test_present : Op → Value → Value → Result Bool
  test_present op_eq actual value = ok (eq actual value)
  test_present op_ne actual value = ok (not (eq actual value))
  test_present op_in actual value = ok (is_in actual value)
  test_present op_exists actual value = ok true
  test_present op_not_exists actual value = ok false
  test_present op actual value = ordered op actual value

  abbrev pub test_absent : Op → Result Bool
  test_absent op_not_exists = ok true
  test_absent _ = ok false

  abbrev test_field : Op → Value → Option Value → Result Bool
  test_field op value none = test_absent op
  test_field op value (some actual) = test_present op actual value

  -- Condition.matches
  unfoldable pub holds : Condition → Dict Value → Result Bool
  holds c facts = test_field c.op c.value (present facts c.field)

  -- Rule.matches: `all` stops at the first condition that fails.
  unfoldable pub all_hold : List Condition → Dict Value → Result Bool
  all_hold [] facts = ok true
  all_hold (c ∷ cs) facts = do b ← holds c facts; if b then all_hold cs facts else ok false

  abbrev pub matches : Rule → Dict Value → Result Bool
  matches rule facts = all_hold rule.conditions facts

  unfoldable pub try_rules : RuleSet → Dict Value → List Rule → Result AdjudicationResult
  try_rules rs facts [] = ok (undecided rs facts)
  try_rules rs facts (rule ∷ rules) = do
    b ← matches rule facts
    if b then ok (decided_by rs facts rule) else try_rules rs facts rules

  unfoldable pub adjudicate : RuleSet → Dict Value → Result AdjudicationResult
  unfolding try_rules
  adjudicate rs facts = try_rules rs facts rs.rules
