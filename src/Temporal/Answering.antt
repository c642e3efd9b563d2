-- ===== src/Temporal/Answering.antt =====
-- The activities return, where the services that they call answer.
use insurance_claim_ai.Prelude.{
  ◌≡◌, ◌≢◌, inl, inr, refl, String, Bool, true, false, some, List, arith, Dict, get, put,
  get-put_self, is_some,
}
use insurance_claim_ai.Domain.Errors.{Result, ok, err, Error, Result-cases, is_ok}
use insurance_claim_ai.Value.{Value}
use insurance_claim_ai.Value.Conversion.{to_float}
use insurance_claim_ai.Domain.Models.{
  Claim, ClaimStatus, ClaimMetadata, ocr_running, ocr_done, llm_running, llm_done, adjudicated,
  ModelPrediction,
}
use insurance_claim_ai.Domain.Events.{
  EventType, Payload, claim_received, ocr_completed, predictions_ready, claim_adjudicated,
}
use insurance_claim_ai.ObjectStore.{Objects, get_object, put_object}
use insurance_claim_ai.Llm.{should_escalate}
use insurance_claim_ai.Adjudication.{AdjudicationResult}
use insurance_claim_ai.Adjudication as Adjudication
use insurance_claim_ai.Adjudication.Totality.{AreBounded, rules_bounded, adjudicate-is_ok}
use insurance_claim_ai.Temporal.Facts.{facts_of-AreBounded}
use insurance_claim_ai.EventStore.Frame.{IsWritable}
use insurance_claim_ai.Projection.{event_status, allowed}
use insurance_claim_ai.Projection.Diagram.{IsComplete}
use insurance_claim_ai.Temporal.Action.{Ensures, continue_rule, World, Services}
use insurance_claim_ai.Temporal.Activities.{
  append_event, run_ocr, run_llm, run_adjudication, ocr_key, claim_value, amount_or_zero,
  second_opinion, facts_of, rule_set_for,
}
use insurance_claim_ai.Temporal.Workflow.{Signal}
use insurance_claim_ai.Temporal.Storing.{At, Within}
use insurance_claim_ai.Temporal.Arriving.{Never, stored_returns}
use insurance_claim_ai.Temporal.Landing.{opinions}
use insurance_claim_ai.Temporal.Keeping.{
  Kept, append_event-Kept, put-IsDelivered, put-some, both_rule,
}

-- The services answer for a claim with this metadata: OCR and the models return, its amount is a
-- number, and no integer of its attributes, or of its rules, is past the largest double.
pub record Answers (sv : Services) (m : ClaimMetadata) : Type 0 where
  pub reads : (pdf : String) → is_ok (sv.extract_text pdf) ≡ true
  pub predicts : (text : String) → is_ok (sv.cost_model text) ≡ true
  pub opines : (text : String) → is_ok (second_opinion sv.agent sv.accuracy_model text) ≡ true
  pub valued : is_ok (to_float sv.read (amount_or_zero (get m.attributes "amount"))) ≡ true
  pub bounded : AreBounded m.attributes
  pub ruled : (c : Claim) → c.metadata ≡ m → rules_bounded (rule_set_for sv c).rules ≡ true

ok-ne-err {ℓ} : {T : Type ℓ} (r : Result T) (x : Error) → is_ok r ≡ true → r ≡ err x → ⊥
ok-ne-err (ok v) x h bad = cc
ok-ne-err (err y) x h bad = cc

found-ne-err :
    (objects : Objects) (key : String) (x : Error)
    → is_some (get objects key) ≡ true
    → get_object objects key ≡ err x
    → ⊥
unfolding get_object
found-ne-err objects key x h bad = ground arith

module _ (sv : Services) (claim_id : String) (m : ClaimMetadata) (signals : List Signal)
    (answers : Answers sv m) where
  abbrev pub Holds : Bool → World → Type 0
  Holds read w = Kept claim_id m signals read w

  -- An event that moves the claim keeps what there is.
  pub stored_keeps :
      (a b : ClaimStatus) (read : Bool) (type : EventType) (payload : Payload)
      → type ≢ claim_received
      → IsComplete type payload
      → IsWritable type payload
      → event_status type ≡ some b
      → allowed a b ≡ true
      → (w : World) → Within claim_id a b w × Holds read w
      → Ensures Never
          (λ u t. At claim_id b t × Holds read t)
          (append_event sv claim_id type payload w)
  stored_keeps a b read type payload other complete writable goes legal w h =
      both_rule Never (λ u t. At claim_id b t) (Holds read) _
        (stored_returns sv claim_id a b type payload other complete writable goes legal w h.0)
        (append_event-Kept sv claim_id m signals read type payload w h.1)

  append_event-objects :
      (type : EventType) (payload : Payload) (w : World)
      → (append_event sv claim_id type payload w).1.objects ≡ w.objects
  unfolding append_event
  append_event-objects type payload w = ground arith

  abbrev pub HasDocument : String → World → Type 0
  HasDocument key w = is_some (get w.objects key) ≡ true

  -- Putting the text in the object store.
  put-Kept :
      (w : World) (text : String)
      → Holds false w
      → Holds true (record w { objects = put w.objects (ocr_key claim_id) text })
  put-Kept w text k = record {
    claimed = k.claimed;
    delivered = put-IsDelivered w.objects (ocr_key claim_id) text signals k.delivered;
    texted = λ due. rw get-put_self refl;
  }

  abbrev pub AtOcrDone : String → String → World → Type 0
  AtOcrDone key ref t = (At claim_id ocr_done t × Holds true t) × HasDocument key t

  opinions-is_ok :
      (escalated : Bool) (cost : ModelPrediction) (text : String)
      → is_ok (opinions sv escalated cost text) ≡ true
  opinions-is_ok true cost text =
      elim (Result-cases (second_opinion sv.agent sv.accuracy_model text)) [
        | inl (p, told) ↦ rw told refl
        | inr (x, bad) ↦
            absurd (
              ok-ne-err (second_opinion sv.agent sv.accuracy_model text) x (answers.opines text)
                bad)
      ]
  opinions-is_ok false cost text = refl

  pub ocr_returns :
      (key : String) (w : World)
      → Within claim_id ocr_running ocr_done w
      → Holds false w
      → HasDocument key w
      → Ensures Never (AtOcrDone key) (run_ocr sv claim_id key w)
  unfolding run_ocr allowed event_status put_object
  ocr_returns key w h k there = elim (Result-cases (get_object w.objects key)) [
    | inr (x, bad) ↦ absurd (found-ne-err w.objects key x there bad)
    | inl (pdf, found) ↦ elim (Result-cases (sv.extract_text pdf)) [
      | inr (x, bad) ↦ absurd (ok-ne-err (sv.extract_text pdf) x (answers.reads pdf) bad)
      | inl (text, read) ↦
          rw (found, read)
            (continue_rule Never
              (λ u t. (At claim_id ocr_done t × Holds true t) × HasDocument key t) (AtOcrDone key) _
              _ _
              (both_rule Never (λ u t. At claim_id ocr_done t × Holds true t) (HasDocument key) _
                (stored_keeps ocr_running ocr_done true ocr_completed _ (λ p. cc) refl tt refl refl
                  _ (h, put-Kept w text k))
                (rw append_event-objects (put-some w.objects (ocr_key claim_id) key text there)))
              (λ u q. q))
    ]
  ]

  pub llm_returns :
      (w : World)
      → Within claim_id llm_running llm_done w
      → Holds true w
      → Ensures Never (λ x t. At claim_id llm_done t × Holds true t) (run_llm sv claim_id w)
  unfolding run_llm allowed event_status claim_value
  llm_returns w h k =
      let (c, there, same) = k.claimed in
      elim (Result-cases (get_object w.objects (ocr_key claim_id))) [
        | inr (x, bad) ↦ absurd (found-ne-err w.objects (ocr_key claim_id) x (k.texted refl) bad)
        | inl (text, found) ↦ elim (Result-cases (claim_value sv c)) [
          | inr (x, bad) ↦ absurd (ok-ne-err (claim_value sv c) x (rw same answers.valued) bad)
          | inl (value, valued) ↦ elim (Result-cases (sv.cost_model text)) [
            | inr (x, bad) ↦ absurd (ok-ne-err (sv.cost_model text) x (answers.predicts text) bad)
            | inl (cost, scored) ↦
                let escalated : Bool =
                  should_escalate cost sv.confidence_threshold value sv.high_value_amount in
                elim (Result-cases (opinions sv escalated cost text)) [
                  | inr (x, bad) ↦ absurd (
                      ok-ne-err (opinions sv escalated cost text) x
                        (opinions-is_ok escalated cost text) bad)
                  | inl (preds, told) ↦
                      rw (there, found, valued, scored, told)
                        (continue_rule Never (λ u t. At claim_id llm_done t × Holds true t)
                          (λ x t. At claim_id llm_done t × Holds true t) _ _ _
                          (stored_keeps llm_running llm_done true predictions_ready _ (λ p. cc) tt
                            refl refl refl _ (h, k))
                          (λ u q. q))
                ]
          ]
        ]
      ]

  decided_lem :
      (c : Claim) (facts : Dict Value)
      → c.metadata ≡ m
      → AreBounded facts
      → is_ok (Adjudication.adjudicate sv.read (rule_set_for sv c) facts) ≡ true
  decided_lem c facts same bounded =
      adjudicate-is_ok sv.read (rule_set_for sv c) facts bounded (answers.ruled c same)

  pub adjudication_returns :
      (a : ClaimStatus) (read : Bool) (w : World)
      → allowed a adjudicated ≡ true
      → Within claim_id a adjudicated w
      → Holds read w
      → Ensures Never
          (λ x t. At claim_id adjudicated t × Holds read t)
          (run_adjudication sv claim_id w)
  unfolding run_adjudication event_status
  adjudication_returns a read w legal h k =
      let (c, there, same) = k.claimed in
      elim (Result-cases
        (Adjudication.adjudicate sv.read (rule_set_for sv c) (facts_of sv w.store claim_id c))) [
          | inr (x, bad) ↦ absurd (
              ok-ne-err
                (Adjudication.adjudicate sv.read (rule_set_for sv c)
                  (facts_of sv w.store claim_id c))
                x
                (decided_lem c (facts_of sv w.store claim_id c) same
                  (facts_of-AreBounded sv w.store claim_id c (rw same answers.bounded)))
                bad)
          | inl (result, decided) ↦
              rw (there, decided)
                (continue_rule Never (λ u t. At claim_id adjudicated t × Holds read t)
                  (λ x t. At claim_id adjudicated t × Holds read t) _ _ _
                  (stored_keeps a adjudicated read claim_adjudicated _ (λ p. cc) refl tt refl legal
                    _ (h, k))
                  (λ u q. q))
        ]
