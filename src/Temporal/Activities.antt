-- ===== src/Temporal/Activities.antt =====
-- claimpipe/temporal/activities.py: ClaimActivities.
use insurance_claim_ai.Prelude.{
  ◌+◌, String, Bool, false, Option, none, some, List, [], ◌∷◌, if◌then◌else◌, or_else, Dict, get,
  put,
}
use insurance_claim_ai.Prelude.Int.{pos}
use insurance_claim_ai.Domain.Errors.{Result, ok, err, assertion_error, require}
use insurance_claim_ai.Value.{
  Value, Float, bool, int, float, str, null, list, dict, Values, nil, cons, Fields, field, end, ltf,
  whole,
}
use insurance_claim_ai.Domain.Models.{Claim, ModelPrediction, validate_prediction}
use insurance_claim_ai.Domain.Events.{
  DomainEvent, EventType, Payload, ocr_completed, predictions_ready, claim_adjudicated,
  empty_payload,
}
use insurance_claim_ai.EventStore.{EventStore, append, predictions_of, log_of}
use insurance_claim_ai.ObjectStore.{get_object}
use insurance_claim_ai.Llm.{ModelClient, should_escalate}
use insurance_claim_ai.Agent.{AgentState, Validation, Critique}
use insurance_claim_ai.Adjudication.{RuleSet, AdjudicationResult, adjudicate, decision_text}
use insurance_claim_ai.RefData.{enrich_facts}
use insurance_claim_ai.Tenancy.{Directory, TenantConfig, get_tenant}
use insurance_claim_ai.Value.Conversion.{truth, to_float}
use Prim.Native.String as Text
use insurance_claim_ai.Temporal.Action.{
  Action, continue, pure, lift, gets, ◌>>=◌, ◌>>◌, World, Services,
}

-- `self._store.append(...)`, with the next id and time.
unfoldable pub append_event : Services → String → EventType → Payload → Action World (Unit {0})
append_event sv claim_id type payload w =
    let (r, store) = append w.store (sv.stamp w.calls) claim_id type payload none in
    continue r (λ e. pure tt) (record w { store = store; calls = w.calls + 1 })

unfoldable pub record_event : Services → String → EventType → Payload → Action World (Unit {0})
unfolding append_event
record_event sv claim_id type payload = append_event sv claim_id type payload

abbrev pub ocr_key : String → String
ocr_key claim_id = Text.◌++◌ claim_id "/ocr.txt"

-- `self._obj.put(...)`, of whichever store: its reference of the key, and the text under it. A put
-- that fails is a lost attempt, since nothing was written before it.
abbrev put_text : Services → String → String → Action World String
put_text sv key text w = (ok (sv.reference key), record w { objects = put w.objects key text })

unfoldable pub run_ocr : Services → String → String → Action World String
run_ocr sv claim_id pdf_key = do
  pdf ← (λ w. (get_object w.objects pdf_key, w))
  text ← lift (sv.extract_text pdf)
  ref ← put_text sv (ocr_key claim_id) text
  append_event sv claim_id ocr_completed (record empty_payload { ocr_ref = some ref })
  pure ref

-- `float(attributes.get("amount", 0) or 0)`
abbrev pub amount_or_zero : Option Value → Value
amount_or_zero none = int (pos 0)
amount_or_zero (some v) = if truth v then v else int (pos 0)

unfoldable pub claim_value : Services → Claim → Result Float
claim_value sv claim = to_float sv.read (amount_or_zero (get claim.metadata.attributes "amount"))

abbrev str_or_null : Option String → Value
str_or_null none = null
str_or_null (some s) = str s

abbrev fields_of : Dict Value → Fields
fields_of [] = end
fields_of ((k, v) ∷ d) = field k v (fields_of d)

abbrev texts_of : List String → Values
texts_of [] = nil
texts_of (s ∷ l) = cons (str s) (texts_of l)

abbrev validation_value : Option Validation → Value
validation_value none = null
validation_value (some v) =
    dict (field "passed" (bool v.passed) (field "checked" (list (texts_of v.checked)) end))

abbrev critique_value : Option Critique → Value
critique_value none = null
critique_value (some c) =
    dict
      (field "confidence" (float c.confidence) (field "flag_for_human" (bool c.flag_for_human) end))

abbrev extracted_value : Option (Dict Value) → Value
extracted_value none = null
extracted_value (some d) = dict (fields_of d)

-- The prediction that stands for a review of the agent.
abbrev pub agent_prediction : AgentState → ModelPrediction
agent_prediction review = record {
  model_name = "langgraph-review";
  model_version = "1";
  output =
      ("recommendation", str_or_null review.recommendation)
      ∷ ("validation", validation_value review.validation)
      ∷ ("critique", critique_value review.critique)
      ∷ ("extracted", extracted_value review.extracted)
      ∷ [];
  confidence = or_else review.confidence (whole (pos 0));
  latency_ms = 0;
  tokens_cost = 0;
}

abbrev as_prediction : Result AgentState → Result ModelPrediction
as_prediction (ok state) = validate_prediction (agent_prediction state)
as_prediction (err e) = err e

-- The second opinion: the agent's where one is wired, else the accuracy tier's.
unfoldable pub second_opinion :
    Option (String → Result AgentState) → ModelClient → String → Result ModelPrediction
second_opinion none accuracy_model text = accuracy_model text
second_opinion (some review) accuracy_model text = as_prediction (review text)

abbrev pub add_opinion : ModelPrediction → Result ModelPrediction → Result (List ModelPrediction)
add_opinion cost (ok p) = ok (cost ∷ p ∷ [])
add_opinion cost (err e) = err e

unfoldable pub run_llm : Services → String → Action World Bool
run_llm sv claim_id = do
  claim ← (λ w. (require (get w.store.claims claim_id) assertion_error, w))
  text ← (λ w. (get_object w.objects (ocr_key claim_id), w))
  value ← lift (claim_value sv claim)
  cost ← lift (sv.cost_model text)
  let escalated = should_escalate cost sv.confidence_threshold value sv.high_value_amount
  predictions ← lift (
      if escalated
      then add_opinion cost (second_opinion sv.agent sv.accuracy_model text)
      else ok (cost ∷ []))
  append_event sv claim_id predictions_ready
      (record empty_payload { predictions = some predictions; escalated = some escalated })
  pure escalated

-- `escalated` of the last PREDICTIONS_READY.
abbrev escalated_by : EventType → Payload → Bool → Bool
escalated_by predictions_ready p old = or_else p.escalated false
escalated_by _ p old = old

unfoldable pub last_escalated : Bool → List DomainEvent → Bool
last_escalated old [] = old
last_escalated old (e ∷ log) = last_escalated (escalated_by e.type e.payload old) log

-- `max(p.confidence for p in preds)`: the first of the greatest.
abbrev larger : Float → Float → Float
larger m x = if ltf m x then x else m

abbrev max_confidence : Float → List ModelPrediction → Float
max_confidence m [] = m
max_confidence m (p ∷ preds) = max_confidence (larger m p.confidence) preds

abbrev pub with_confidence : List ModelPrediction → Dict Value → Dict Value
with_confidence [] facts = facts
with_confidence (p ∷ preds) facts =
    put facts "confidence" (float (max_confidence p.confidence preds))

unfoldable pub facts_of : Services → EventStore → String → Claim → Dict Value
facts_of sv store claim_id claim = enrich_facts sv.show sv.refdata (
    with_confidence (predictions_of store claim_id) (
      put (put claim.metadata.attributes "claim_type" (str claim.metadata.claim_type)) "escalated"
        (bool (last_escalated false (log_of store claim_id)))))

-- An unknown tenant has no rule sets.
abbrev tenant_rulesets : Result TenantConfig → Dict RuleSet
tenant_rulesets (ok t) = t.rulesets
tenant_rulesets (err e) = []

abbrev rulesets_for : Services → Option Directory → Claim → Dict RuleSet
rulesets_for sv none claim = sv.rulesets
rulesets_for sv (some tenants) claim = tenant_rulesets (get_tenant tenants claim.metadata.tenant_id)

unfoldable pub rule_set_for : Services → Claim → RuleSet
rule_set_for sv claim =
    or_else (get (rulesets_for sv sv.tenants claim) claim.metadata.claim_type)
      (record { name = claim.metadata.claim_type; version = "unregistered"; rules = [] })

-- `result.model_dump()`
abbrev pub result_payload : AdjudicationResult → Payload
result_payload r = record empty_payload {
  decision = some (decision_text r.decision);
  reason_codes = some r.reason_codes;
  rule_id = r.rule_id;
  rule_set = some r.rule_set;
  rule_set_version = some r.rule_set_version;
  facts = some r.facts;
}

unfoldable pub run_adjudication : Services → String → Action World String
run_adjudication sv claim_id = do
  claim ← (λ w. (require (get w.store.claims claim_id) assertion_error, w))
  facts ← gets (λ w. facts_of sv w.store claim_id claim)
  result ← lift (adjudicate sv.read (rule_set_for sv claim) facts)
  append_event sv claim_id claim_adjudicated (result_payload result)
  pure (decision_text result.decision)
