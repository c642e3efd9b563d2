-- ===== src/Adjudication/Tables.antt =====
-- What the seed rule sets decide, as tables over the facts.
use insurance_claim_ai.Prelude.{
  ◌≡◌, ◌≢◌, ℕ, ◌≤◌, String, Bool, true, false, not, Option, none, some, arith, Dict, get,
  if◌then◌else◌, ◌==◌, eq_iff,
}
use insurance_claim_ai.Prelude.Int.{pos}
use insurance_claim_ai.Domain.Errors.{ok, err, overflow_error}
use insurance_claim_ai.Value.{Value, Float, bool, int, float, str, ltf, lef, eq, whole, unit}
use insurance_claim_ai.Value.Conversion.{
  to_float, float_of_int-exact, float_of_int-overflow, overflow_bound, float_of_int,
}
use insurance_claim_ai.Adjudication.{
  Decision, approve, deny, pend, AdjudicationResult, holds, all_hold, adjudicate,
}
use insurance_claim_ai.Adjudication.Totality.{is_bounded}
use insurance_claim_ai.Value.{finite}
use insurance_claim_ai.Prelude.{◌*◌, ◌^◌, [], ◌∷◌, inl, inr, Option-cases}
use insurance_claim_ai.Adjudication.Rulesets.{
  confidence_floor, generic_document, auto_fnol, structured_claim,
}

-- A result of a rule set at version v1, written out.
abbrev pub decided : String → Dict Value → Decision → String → String → AdjudicationResult
decided rule_set facts decision reason rule_id = record {
  decision = decision;
  reason_codes = reason ∷ [];
  rule_id = some rule_id;
  rule_set = rule_set;
  rule_set_version = "v1";
  facts = facts;
}

-- The end of the tables of documents: escalated claims and those below 0.6, by its double, PEND.
abbrev pub review_result : String → Dict Value → Bool → Float → AdjudicationResult
review_result rule_set facts escalated confidence =
    if escalated
    then decided rule_set facts pend "REVIEW_REQUIRED" "pend-escalated"
    else if ltf confidence (finite (pos (5404319552844595 * 2 ^ 1021)))
    then decided rule_set facts pend "LOW_CONFIDENCE" "pend-low-confidence"
    else decided rule_set facts approve "AUTO_APPROVED" "auto-approve"

-- The table of auto-fnol for a policy that is known.
abbrev pub fnol_result : Dict Value → String → Float → Bool → Float → AdjudicationResult
fnol_result facts status amount escalated confidence =
    if not (status == "active")
    then decided "auto-fnol" facts deny "POLICY_INACTIVE" "deny-policy-inactive"
    else if ltf (whole (pos 100000)) amount
    then decided "auto-fnol" facts deny "EXCEEDS_LIMIT" "deny-over-limit"
    else review_result "auto-fnol" facts escalated confidence

-- The table of structured-claim, by the number that the amount reads as, if any.
abbrev pub structured_result : Dict Value → Option Float → AdjudicationResult
structured_result facts none =
    decided "structured-claim" facts approve "AUTO_APPROVED" "auto-approve"
structured_result facts (some x) =
    if ltf (whole (pos 100000)) x
    then decided "structured-claim" facts deny "EXCEEDS_LIMIT" "deny-over-limit"
    else if lef (whole (pos 25000)) x
    then decided "structured-claim" facts pend "REVIEW_REQUIRED" "pend-high-value"
    else decided "structured-claim" facts approve "AUTO_APPROVED" "auto-approve"

module _ (read : String → Option Float) (facts : Dict Value) where
  -- A generic document that is escalated, or below the floor of confidence, PENDs; others are approved.
  pub generic_table :
      (escalated : Bool) (confidence : Float)
      → get facts "escalated" ≡ some (bool escalated)
      → get facts "confidence" ≡ some (float confidence)
      → adjudicate read generic_document facts
        ≡ ok (review_result "generic-document" facts escalated confidence)
  unfolding adjudicate all_hold holds eq to_float unit confidence_floor
  generic_table escalated confidence he hc = ground arith

  limit_exact : float_of_int (pos 100000) ≡ ok (whole (pos 100000))
  limit_exact = float_of_int-exact 100000 (omega arith)

  high_value_exact : float_of_int (pos 25000) ≡ ok (whole (pos 25000))
  high_value_exact = float_of_int-exact 25000 (omega arith)

  -- The number that the amount of the facts reads as: none where it is missing, null or malformed.
  abbrev pub amount_read : Option Value → Option Float
  amount_read none = none
  amount_read (some v) = elim (to_float read v) [ ok x ↦ some x | err e ↦ none ]

  -- A structured claim is denied where its amount is over 100000, PENDs from 25000 on and is approved
  -- below; it is approved, too, where the amount is missing, null or malformed, or a NaN. Only an
  -- integer past the largest double is excluded.
  pub structured_table :
      ((v : Value) → get facts "amount" ≡ some v → is_bounded v ≡ true)
      → adjudicate read structured_claim facts
        ≡ ok (structured_result facts (amount_read (get facts "amount")))
  unfolding adjudicate all_hold holds to_float float_of_int
  structured_table bounded = elim (Option-cases (get facts "amount")) [
    | inl absent ↦ ground (arith, absent, limit_exact, high_value_exact)
    | inr (v, there) ↦ ground (arith, there, bounded v there, limit_exact, high_value_exact)
  ]

  -- An integer amount past the largest double is decided by no rule: the call raises.
  pub structured_overflow :
      (n : ℕ)
      → overflow_bound ≤ n
      → get facts "amount" ≡ some (int (pos n))
      → adjudicate read structured_claim facts ≡ err overflow_error
  unfolding adjudicate all_hold holds to_float
  structured_overflow n big h = ground (arith, limit_exact, float_of_int-overflow n big)

  -- An FNOL claim on a policy that reference data knows is denied unless the policy is active, then
  -- denied over 100000, then PENDs if escalated or below the floor of confidence, and else is
  -- approved; each with the reason and the rule of the table.
  pub fnol_table :
      (status : String) (amount : Value) (x : Float) (escalated : Bool) (confidence : Float)
      → get facts "policy_status" ≡ some (str status)
      → get facts "policy_found" ≡ some (bool true)
      → get facts "amount" ≡ some amount
      → to_float read amount ≡ ok x
      → get facts "escalated" ≡ some (bool escalated)
      → get facts "confidence" ≡ some (float confidence)
      → adjudicate read auto_fnol facts ≡ ok (fnol_result facts status x escalated confidence)
  unfolding adjudicate all_hold holds to_float eq unit confidence_floor
  fnol_table status amount x escalated confidence hs hf ha hx he hc =
      ground (arith, limit_exact, eq_iff status "active")

  -- A claim on a policy that reference data does not know is never approved, whatever else the
  -- facts say, when adjudication returns.
  pub fnol_not_found :
      (r : AdjudicationResult)
      → get facts "policy_found" ≡ some (bool false)
      → adjudicate read auto_fnol facts ≡ ok r
      → r.decision ≢ approve
  unfolding adjudicate all_hold holds to_float eq unit
  fnol_not_found r h ran = ground arith
