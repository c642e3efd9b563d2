-- ===== src/Adjudication/Totality.antt =====
-- Adjudication against a Boolean evaluation of the rules, which cannot raise.
use insurance_claim_ai.Prelude.{
  ◌≡◌, inl, inr, refl, ap, String, Bool, true, false, not, Option, none, some, List, [], ◌∷◌, arith,
  Dict, get, all, Option-cases, if◌then◌else◌,
}
use insurance_claim_ai.Domain.Errors.{ok, err, is_ok}
use insurance_claim_ai.Value.{Value, Float, null, int, ltf, lef, eq}
use insurance_claim_ai.Value.Conversion.{to_float, float_of_int}
use insurance_claim_ai.Adjudication.{
  pend, Condition, Op, op_eq, op_ne, op_gt, op_gte, op_lt, op_lte, op_in, op_exists, op_not_exists,
  Rule, RuleSet, AdjudicationResult, is_in, holds, all_hold, try_rules, adjudicate,
}

-- The value is no integer past the largest double.
abbrev pub is_bounded : Value → Bool
is_bounded (int n) = is_ok (float_of_int n)
is_bounded v = true

abbrev pub conditions_bounded : List Condition → Bool
conditions_bounded cs = all (λ c. is_bounded c.value) cs

abbrev pub rules_bounded : List Rule → Bool
rules_bounded rules = all (λ r. conditions_bounded r.conditions) rules

-- Every fact is bounded.
abbrev pub AreBounded : Dict Value → Type 0
AreBounded facts = (k : String) (v : Value) → get facts k ≡ some v → is_bounded v ≡ true

module _ (read : String → Option Float) where
  -- The number that a value reads as, if it is well formed.
  abbrev pub number_of : Value → Option Float
  number_of v = elim (to_float read v) [ ok x ↦ some x | err e ↦ none ]

  -- A comparison of two numbers; false where either is malformed.
  abbrev pub both : (Float → Float → Bool) → Option Float → Option Float → Bool
  both test (some a) (some b) = test a b
  both test _ _ = false

  abbrev pub value_meets : Op → Value → Value → Bool
  value_meets op_eq actual value = eq actual value
  value_meets op_ne actual value = not (eq actual value)
  value_meets op_gt actual value = both (λ a b. ltf b a) (number_of actual) (number_of value)
  value_meets op_gte actual value = both (λ a b. lef b a) (number_of actual) (number_of value)
  value_meets op_lt actual value = both ltf (number_of actual) (number_of value)
  value_meets op_lte actual value = both lef (number_of actual) (number_of value)
  value_meets op_in actual value = is_in actual value
  value_meets op_exists actual value = true
  value_meets op_not_exists actual value = false

  -- A fact that is missing or null meets only `not_exists`.
  abbrev pub absent_meets : Op → Bool
  absent_meets op_not_exists = true
  absent_meets _ = false

  abbrev pub fact_meets : Op → Value → Option Value → Bool
  fact_meets op value none = absent_meets op
  fact_meets op value (some null) = absent_meets op
  fact_meets op value (some actual) = value_meets op actual value

  abbrev pub meets : Dict Value → Condition → Bool
  meets facts c = fact_meets c.op c.value (get facts c.field)

  abbrev pub decide : RuleSet → Dict Value → List Rule → AdjudicationResult
  decide rs facts [] = record {
    decision = pend;
    reason_codes = "NO_RULE_MATCHED" ∷ [];
    rule_id = none;
    rule_set = rs.name;
    rule_set_version = rs.version;
    facts = facts;
  }
  decide rs facts (rule ∷ rules) =
      let later = decide rs facts rules in
      if all (meets facts) rule.conditions
      then record {
        decision = rule.outcome;
        reason_codes = rule.reason_code ∷ [];
        rule_id = some rule.rule_id;
        rule_set = rs.name;
        rule_set_version = rs.version;
        facts = facts;
      }
      else later

  holds-meets :
      (c : Condition) (facts : Dict Value)
      → AreBounded facts
      → is_bounded c.value ≡ true
      → holds read c facts ≡ ok (meets facts c)
  unfolding holds to_float float_of_int
  holds-meets c facts bounded h = elim (Option-cases (get facts c.field)) [
    | inl absent ↦ ground (arith, absent)
    | inr (v, there) ↦ ground (arith, there, bounded c.field v there)
  ]

  all_hold-meets :
      (cs : List Condition) (facts : Dict Value)
      → AreBounded facts
      → conditions_bounded cs ≡ true
      → all_hold read cs facts ≡ ok (all (meets facts) cs)
  unfolding all_hold
  all_hold-meets [] facts bounded h = refl
  all_hold-meets (c ∷ cs) facts bounded h =
      ground (arith, holds-meets c facts bounded, all_hold-meets cs facts bounded)

  try_rules-decide :
      (rs : RuleSet) (facts : Dict Value) (rules : List Rule)
      → AreBounded facts
      → rules_bounded rules ≡ true
      → try_rules read rs facts rules ≡ ok (decide rs facts rules)
  unfolding try_rules
  try_rules-decide rs facts [] bounded h = refl
  try_rules-decide rs facts (rule ∷ rules) bounded h =
      ground (
        arith,
        all_hold-meets rule.conditions facts bounded,
        try_rules-decide rs facts rules bounded,
      )

  -- Where no integer of the facts, or of the rules, is past the largest double, adjudication returns
  -- what the Boolean evaluation of the rules gives: the first rule all of whose conditions are met
  -- decides, a comparison with a malformed value is not met, a missing or null fact meets only
  -- not_exists, and with no rule met the claim PENDs.
  pub adjudicate-decide :
      (rs : RuleSet) (facts : Dict Value)
      → AreBounded facts
      → rules_bounded rs.rules ≡ true
      → adjudicate read rs facts ≡ ok (decide rs facts rs.rules)
  unfolding adjudicate
  adjudicate-decide rs facts bounded h = try_rules-decide rs facts rs.rules bounded h

  -- So adjudication decides, whatever else the facts are.
  pub adjudicate-is_ok :
      (rs : RuleSet) (facts : Dict Value)
      → AreBounded facts
      → rules_bounded rs.rules ≡ true
      → is_ok (adjudicate read rs facts) ≡ true
  adjudicate-is_ok rs facts bounded h = ap is_ok (adjudicate-decide rs facts bounded h)
