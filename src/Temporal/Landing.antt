-- ===== src/Temporal/Landing.antt =====
-- Where the activities leave the status of their claim, over every schedule of attempts.
use insurance_claim_ai.Prelude.{
  ◌≡◌, inl, inr, refl, String, Bool, true, false, some, List, [], ◌∷◌, arith, if◌then◌else◌, Dict,
  get,
}
use insurance_claim_ai.Domain.Errors.{Result, ok, err, Error, Result-cases}
use insurance_claim_ai.Value.{Value}
use insurance_claim_ai.Domain.Models.{
  Claim, ClaimStatus, ocr_running, ocr_done, llm_running, llm_done, adjudicated, ModelPrediction,
}
use insurance_claim_ai.Domain.Events.{ocr_completed, predictions_ready, claim_adjudicated}
use insurance_claim_ai.ObjectStore.{get_object}
use insurance_claim_ai.Llm.{should_escalate}
use insurance_claim_ai.Adjudication.{adjudicate}
use insurance_claim_ai.Temporal.Action.{Ensures, continue_rule, World, Services}
use insurance_claim_ai.Temporal.Activities.{
  run_ocr, run_llm, run_adjudication, ocr_key, claim_value, add_opinion, second_opinion, facts_of,
  rule_set_for,
}
use insurance_claim_ai.Projection.{event_status, allowed}
use insurance_claim_ai.Temporal.Faults.{
  Safe, AreSafe, adjudicate-Safe, claim_value-Safe, get_object-Safe,
}
use insurance_claim_ai.Temporal.Storing.{At, Within, Fails, stored_lands}

-- The predictions that run_llm stores.
abbrev pub opinions : Services → Bool → ModelPrediction → String → Result (List ModelPrediction)
opinions sv escalated cost text =
    if escalated
    then add_opinion cost (second_opinion sv.agent sv.accuracy_model text)
    else ok (cost ∷ [])

module _ (sv : Services) (safe : AreSafe sv) (claim_id : String) where
  -- The claim that an activity loads is there.
  claim_there :
      (a b : ClaimStatus) (w : World)
      → Within claim_id a b w
      → (c : Claim) × (get w.store.claims claim_id ≡ some c)
  claim_there a b w (inl (c, there, at_a)) = (c, there)
  claim_there a b w (inr (c, there, at_b)) = (c, there)

  -- run_ocr takes the claim from OCR_RUNNING to OCR_DONE.
  pub run_ocr_lands :
      (key : String) (w : World)
      → Within claim_id ocr_running ocr_done w
      → Ensures
          (Fails claim_id ocr_running ocr_done)
          (λ ref t. At claim_id ocr_done t)
          (run_ocr sv claim_id key w)
  unfolding run_ocr allowed event_status
  run_ocr_lands key w h = elim (Result-cases (get_object w.objects key)) [
    | inr (x, bad) ↦ rw bad (get_object-Safe w.objects key x bad, h)
    | inl (pdf, found) ↦ elim (Result-cases (sv.extract_text pdf)) [
      | inr (x, bad) ↦ rw (found, bad) (safe.text_safe pdf x bad, h)
      | inl (text, read) ↦
          rw (found, read)
            (continue_rule (Fails claim_id ocr_running ocr_done) (λ u t. At claim_id ocr_done t)
              (λ ref t. At claim_id ocr_done t) _ _ _
              (stored_lands sv claim_id ocr_running ocr_done ocr_completed _ (λ p. cc) refl tt refl
                refl _ h)
              (λ u q. q))
    ]
  ]

  opinions-Safe :
      (escalated : Bool) (cost : ModelPrediction) (text : String) (e : Error)
      → opinions sv escalated cost text ≡ err e
      → Safe e
  opinions-Safe true cost text e h =
      elim (Result-cases (second_opinion sv.agent sv.accuracy_model text)) [
        | inl (p, fine) ↦ absurd (ground (arith, fine))
        | inr (x, bad) ↦ ground (arith, bad, safe.opinion_safe text x bad)
      ]
  opinions-Safe false cost text e h = cc

  -- With services that raise no order errors, run_llm on a claim at LLM_RUNNING, or at LLM_DONE after
  -- a first try, leaves it at LLM_DONE when it returns; when it raises, that is no order error, and the
  -- claim is at one of the two.
  pub run_llm_lands :
      (w : World)
      → Within claim_id llm_running llm_done w
      → Ensures
          (Fails claim_id llm_running llm_done)
          (λ x t. At claim_id llm_done t)
          (run_llm sv claim_id w)
  unfolding run_llm allowed event_status
  run_llm_lands w h =
      let (c, there) = claim_there llm_running llm_done w h in
      elim (Result-cases (get_object w.objects (ocr_key claim_id))) [
        | inr (x, bad) ↦ rw (there, bad) (get_object-Safe w.objects (ocr_key claim_id) x bad, h)
        | inl (text, found) ↦ elim (Result-cases (claim_value sv c)) [
          | inr (x, bad) ↦ rw (there, found, bad) (claim_value-Safe sv c x bad, h)
          | inl (value, valued) ↦ elim (Result-cases (sv.cost_model text)) [
            | inr (x, bad) ↦ rw (there, found, valued, bad) (safe.cost_safe text x bad, h)
            | inl (cost, scored) ↦
                let escalated : Bool =
                  should_escalate cost sv.confidence_threshold value sv.high_value_amount in
                elim (Result-cases (opinions sv escalated cost text)) [
                  | inr (x, bad) ↦
                      rw (there, found, valued, scored, bad)
                        (opinions-Safe escalated cost text x bad, h)
                  | inl (preds, told) ↦
                      rw (there, found, valued, scored, told)
                        (continue_rule (Fails claim_id llm_running llm_done)
                          (λ u t. At claim_id llm_done t) (λ x t. At claim_id llm_done t) _ _ _
                          (stored_lands sv claim_id llm_running llm_done predictions_ready _
                            (λ p. cc) tt refl refl refl _ h)
                          (λ u q. q))
                ]
          ]
        ]
      ]

  -- run_adjudication takes the claim to ADJUDICATED.
  pub run_adjudication_lands :
      (a : ClaimStatus) (w : World)
      → allowed a adjudicated ≡ true
      → Within claim_id a adjudicated w
      → Ensures
          (Fails claim_id a adjudicated)
          (λ x t. At claim_id adjudicated t)
          (run_adjudication sv claim_id w)
  unfolding run_adjudication event_status
  run_adjudication_lands a w legal h =
      let (c, there) = claim_there a adjudicated w h in
      let facts : Dict Value = facts_of sv w.store claim_id c in
      elim (Result-cases (adjudicate sv.read (rule_set_for sv c) facts)) [
        | inr (x, bad) ↦
            rw (there, bad) (adjudicate-Safe sv.read (rule_set_for sv c) facts x bad, h)
        | inl (result, decided) ↦
            rw (there, decided)
              (continue_rule (Fails claim_id a adjudicated) (λ u t. At claim_id adjudicated t)
                (λ x t. At claim_id adjudicated t) _ _ _
                (stored_lands sv claim_id a adjudicated claim_adjudicated _ (λ p. cc) refl tt refl
                  legal _ h)
                (λ u q. q))
      ]
