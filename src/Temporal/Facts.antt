-- ===== src/Temporal/Facts.antt =====
-- The facts that adjudication reads hold no integer past the doubles, where the claim's attributes
-- hold none.
use insurance_claim_ai.Prelude.{
  ◌≡◌, refl, String, true, false, Option, none, some, List, [], ◌∷◌, arith, Dict, get, put, get-put,
}
use insurance_claim_ai.Value.{Value, Float, bool, float, str}
use insurance_claim_ai.Domain.Models.{Claim, ModelPrediction}
use insurance_claim_ai.EventStore.{EventStore, predictions_of, log_of}
use insurance_claim_ai.RefData.{PolicyRecord, enrich_facts, ground_in, with_policy, add_limit}
use insurance_claim_ai.Adjudication.Totality.{is_bounded, AreBounded}
use insurance_claim_ai.Temporal.Action.{Services}
use insurance_claim_ai.Temporal.Activities.{facts_of, with_confidence, last_escalated}

pub put-AreBounded :
    (facts : Dict Value) (key : String) (new : Value)
    → AreBounded facts
    → is_bounded new ≡ true
    → AreBounded (put facts key new)
put-AreBounded facts key new bounded h k v found =
    ground (arith, get-put facts key k new, bounded k v)

with_confidence-AreBounded :
    (preds : List ModelPrediction) (facts : Dict Value)
    → AreBounded facts
    → AreBounded (with_confidence preds facts)
with_confidence-AreBounded [] facts bounded = bounded
with_confidence-AreBounded (p ∷ preds) facts bounded =
    put-AreBounded facts "confidence" _ bounded refl

add_limit-AreBounded :
    (limit : Option Float) (facts : Dict Value)
    → AreBounded facts
    → AreBounded (add_limit limit facts)
add_limit-AreBounded none facts bounded = bounded
add_limit-AreBounded (some x) facts bounded =
    put-AreBounded facts "policy_limit" (float x) bounded refl

with_policy-AreBounded :
    (found : Option PolicyRecord) (facts : Dict Value)
    → AreBounded facts
    → AreBounded (with_policy found facts)
unfolding with_policy
with_policy-AreBounded none facts bounded =
    put-AreBounded facts "policy_found" (bool false) bounded refl
with_policy-AreBounded (some r) facts bounded =
    add_limit-AreBounded r.limit
      (put (put facts "policy_found" (bool true)) "policy_status" (str r.status))
      (put-AreBounded (put facts "policy_found" (bool true)) "policy_status" (str r.status)
        (put-AreBounded facts "policy_found" (bool true) bounded refl) refl)

ground_in-AreBounded :
    (show : Value → String) (source : String → Option PolicyRecord) (number : Option Value)
    (facts : Dict Value)
    → AreBounded facts
    → AreBounded (ground_in show source number facts)
ground_in-AreBounded show source none facts bounded = bounded
ground_in-AreBounded show source (some v) facts bounded = with_policy-AreBounded _ facts bounded

enrich_facts-AreBounded :
    (show : Value → String) (source : Option (String → Option PolicyRecord)) (facts : Dict Value)
    → AreBounded facts
    → AreBounded (enrich_facts show source facts)
unfolding enrich_facts
enrich_facts-AreBounded show none facts bounded = bounded
enrich_facts-AreBounded show (some source) facts bounded =
    ground_in-AreBounded show source (get facts "policy_number") facts bounded

pub facts_of-AreBounded :
    (sv : Services) (store : EventStore) (claim_id : String) (claim : Claim)
    → AreBounded claim.metadata.attributes
    → AreBounded (facts_of sv store claim_id claim)
unfolding facts_of
facts_of-AreBounded sv store claim_id claim bounded = enrich_facts-AreBounded sv.show sv.refdata _ (
    with_confidence-AreBounded (predictions_of store claim_id) _ (
      put-AreBounded (put claim.metadata.attributes "claim_type" (str claim.metadata.claim_type))
        "escalated" (bool (last_escalated false (log_of store claim_id)))
        (put-AreBounded claim.metadata.attributes "claim_type" (str claim.metadata.claim_type)
          bounded refl)
        refl))
