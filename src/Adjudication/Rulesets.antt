-- ===== src/Adjudication/Rulesets.antt =====
-- claimpipe/adjudication.py, default_rulesets: the seed rule sets, keyed by claim type.
use insurance_claim_ai.Prelude.{◌*◌, ◌^◌, String, true, false, List, [], ◌∷◌, ◌++◌, Dict}
use insurance_claim_ai.Prelude.Int.{pos}
use insurance_claim_ai.Value.{Value, Float, bool, int, float, str, finite}
use insurance_claim_ai.Adjudication.{
  approve, deny, pend, Op, op_eq, op_ne, op_gt, op_gte, op_lt, Condition, Rule, RuleSet,
}

abbrev condition : String → Op → Value → Condition
condition field op value = record { field = field; op = op; value = value }

-- The double nearest to 0.6, 5404319552844595 * 2 ^ -53, in units of 2 ^ -1074.
unfoldable pub confidence_floor : Float
confidence_floor = finite (pos (5404319552844595 * 2 ^ 1021))

abbrev pub pend_escalated : Rule
pend_escalated = record {
  rule_id = "pend-escalated";
  description = "Escalated claims need human review";
  conditions = condition "escalated" op_eq (bool true) ∷ [];
  outcome = pend;
  reason_code = "REVIEW_REQUIRED";
}

abbrev pub pend_low_confidence : Rule
pend_low_confidence = record {
  rule_id = "pend-low-confidence";
  description = "Model confidence below the auto-processing floor";
  conditions = condition "confidence" op_lt (float confidence_floor) ∷ [];
  outcome = pend;
  reason_code = "LOW_CONFIDENCE";
}

abbrev pub auto_approve : Rule
auto_approve = record {
  rule_id = "auto-approve";
  description = "Confident, unescalated claims auto-approve";
  conditions = [];
  outcome = approve;
  reason_code = "AUTO_APPROVED";
}

abbrev pub review_and_confidence : List Rule
review_and_confidence = pend_escalated ∷ pend_low_confidence ∷ auto_approve ∷ []

abbrev pub deny_over_limit : Rule
deny_over_limit = record {
  rule_id = "deny-over-limit";
  description = "Claimed amount exceeds the policy line limit";
  conditions = condition "amount" op_gt (int (pos 100000)) ∷ [];
  outcome = deny;
  reason_code = "EXCEEDS_LIMIT";
}

abbrev pub deny_policy_inactive : Rule
deny_policy_inactive = record {
  rule_id = "deny-policy-inactive";
  description = "Policy is not active per the policy-admin system of record";
  conditions = condition "policy_status" op_ne (str "active") ∷ [];
  outcome = deny;
  reason_code = "POLICY_INACTIVE";
}

abbrev pub pend_policy_not_found : Rule
pend_policy_not_found = record {
  rule_id = "pend-policy-not-found";
  description = "Claimed policy number is unknown to reference data";
  conditions = condition "policy_found" op_eq (bool false) ∷ [];
  outcome = pend;
  reason_code = "POLICY_NOT_FOUND";
}

abbrev pub policy_rules : List Rule
policy_rules = deny_policy_inactive ∷ pend_policy_not_found ∷ []

abbrev pub pend_high_value : Rule
pend_high_value = record {
  rule_id = "pend-high-value";
  description = "High-value structured claims get a human look";
  conditions = condition "amount" op_gte (int (pos 25000)) ∷ [];
  outcome = pend;
  reason_code = "REVIEW_REQUIRED";
}

abbrev pub auto_approve_structured : Rule
auto_approve_structured = record {
  rule_id = "auto-approve";
  description = "Routine structured claims auto-approve";
  conditions = [];
  outcome = approve;
  reason_code = "AUTO_APPROVED";
}

abbrev rule_set : String → List Rule → RuleSet
rule_set name rules = record { name = name; version = "v1"; rules = rules }

abbrev pub generic_document : RuleSet
generic_document = rule_set "generic-document" review_and_confidence

abbrev pub auto_fnol : RuleSet
auto_fnol = rule_set "auto-fnol" (policy_rules ++ deny_over_limit ∷ review_and_confidence)

abbrev pub structured_claim : RuleSet
structured_claim =
    rule_set "structured-claim" (deny_over_limit ∷ pend_high_value ∷ auto_approve_structured ∷ [])

unfoldable pub default_rulesets : Dict RuleSet
default_rulesets =
    ("generic-document", generic_document)
    ∷ ("auto-fnol", auto_fnol)
    ∷ ("structured-claim", structured_claim)
    ∷ []
