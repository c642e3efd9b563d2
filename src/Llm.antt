-- ===== src/Llm.antt =====
-- claimpipe/llm.py and claimpipe/adapters/model_client.py: tiered routing over models. A model is
-- its `predict`, which may raise.
pub mod Clients
use insurance_claim_ai.Prelude.{
  ◌≡◌, String, Bool, true, false, ◌||◌, List, [], ◌∷◌, arith, if◌then◌else◌,
}
use insurance_claim_ai.Domain.Errors.{Result, ok, ◌>>=◌}
use insurance_claim_ai.Value.{Float, ltf, lef}
use insurance_claim_ai.Domain.Models.{ModelPrediction}

abbrev pub ModelClient : Type 0
ModelClient = String → Result ModelPrediction

pub record RoutingResult : Type 0 where
  pub predictions : List ModelPrediction
  pub escalated : Bool

unfoldable pub should_escalate : ModelPrediction → Float → Float → Float → Bool
should_escalate cost threshold claim_value high_value_amount =
    ltf cost.confidence threshold || lef high_value_amount claim_value

unfoldable pub route_and_predict :
    ModelClient → ModelClient → String → Float → Float → Float → Result RoutingResult
route_and_predict cost_model accuracy_model ocr_text threshold claim_value high_value_amount = do
  cost ← cost_model ocr_text
  if should_escalate cost threshold claim_value high_value_amount
      then (do
        accurate ← accuracy_model ocr_text
        ok (record { predictions = cost ∷ accurate ∷ []; escalated = true }))
      else ok (record { predictions = cost ∷ []; escalated = false })

module _ (cost_model accuracy_model : ModelClient) (text : String)
    (threshold value high : Float) where
  -- The expensive model is on the path exactly of the claims that are escalated: with the cost tier
  -- confident and the claim not of high value, its answer, or its failure, makes no difference.
  pub accuracy_only_escalated :
      (other : ModelClient) (cost : ModelPrediction)
      → cost_model text ≡ ok cost
      → should_escalate cost threshold value high ≡ false
      → route_and_predict cost_model accuracy_model text threshold value high
        ≡ route_and_predict cost_model other text threshold value high
  unfolding route_and_predict
  accuracy_only_escalated other cost h calm = ground arith
