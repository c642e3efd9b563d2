-- ===== src/RefData.antt =====
-- claimpipe/refdata.py: the policies that the carrier knows, and the facts grounded in them.
-- `show` is Python's `str` of what is no text.
pub mod Grounding
use mathlib.Core.Logic.{ite}
use insurance_claim_ai.Prelude.{
  ℕ, zero, suc, ◌≤◌, ◌<◌, ◌+◌, ◌-◌, ◌*◌, ◌^◌, ◌≡◌, ◌≢◌, ◌⊎◌, inl, inr, refl, sym, ap, ◌∙◌, ◌↔◌,
  String, Bool, true, false, not, ◌&&◌, ◌||◌, Option, none, some, List, [], ◌∷◌, ◌++◌, map, arith,
  any, all, All, if◌then◌else◌, or_else, length, ◌==◌, eq_iff, eq_refl, Dict, get, put, has,
  get-put, get-put_self, get-put_ne, get-empty, keep_if, keep_if-append, is_some, is_yes,
  Bool-cases, Option-cases, length-append, take, drop, values, append-nil, append_assoc, ltb, leb,
  nat_eq,
}
use insurance_claim_ai.Prelude.Int.{ℤ, pos, negsuc}
use insurance_claim_ai.Domain.Errors.{
  Result, ok, err, Error, illegal_transition, invalid_pipeline, unknown_claim_type, unknown_tenant,
  intake_error, output_error, key_error, value_error, type_error, overflow_error, assertion_error,
  validation_error, delivery_error, timeout_error, activity_error, unauthorized, forbidden,
  not_found, bad_request, conflict, unprocessable, >>=-eq-ok, is_ok, ◌>>=◌, ◌>>◌, guard, require,
  Result-cases, ok-injective,
}
use insurance_claim_ai.Value.{
  Value, Float, bool, int, float, str, null, list, dict, field, end, nan, finite, inf, neg_inf, ltf,
  lef, eq, whole, unit, eqf,
}

pub record PolicyRecord : Type 0 where
  pub policy_number : String
  pub status : String
  pub line : String
  pub limit : Option Float

-- InMemoryRefData
abbrev pub Policies : Type 0
Policies = Dict PolicyRecord

unfoldable pub add_policy : Policies → PolicyRecord → Policies
add_policy policies r = put policies r.policy_number r

unfoldable pub get_policy : Policies → String → Option PolicyRecord
get_policy policies number = get policies number

-- `str(v)`
abbrev pub text_of : (Value → String) → Value → String
text_of show (str s) = s
text_of show null = "None"
text_of show (bool true) = "True"
text_of show (bool false) = "False"
text_of show v = show v

abbrev pub add_limit : Option Float → Dict Value → Dict Value
add_limit none facts = facts
add_limit (some x) facts = put facts "policy_limit" (float x)

-- The facts with what reference data says of the policy.
unfoldable pub with_policy : Option PolicyRecord → Dict Value → Dict Value
with_policy none facts = put facts "policy_found" (bool false)
with_policy (some r) facts =
    add_limit r.limit (put (put facts "policy_found" (bool true)) "policy_status" (str r.status))

abbrev pub ground_in :
    (Value → String) → (String → Option PolicyRecord) → Option Value → Dict Value → Dict Value
ground_in show source none facts = facts
ground_in show source (some number) facts = with_policy (source (text_of show number)) facts

-- A RefDataSource is its `get_policy`.
unfoldable pub enrich_facts :
    (Value → String) → Option (String → Option PolicyRecord) → Dict Value → Dict Value
enrich_facts show none facts = facts
enrich_facts show (some source) facts = ground_in show source (get facts "policy_number") facts
