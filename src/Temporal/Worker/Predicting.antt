-- ===== src/Temporal/Worker/Predicting.antt =====
-- claimpipe/temporal/worker.py: the two model tiers as run_llm uses them.
use insurance_claim_ai.Prelude.{
  if◌then◌else◌, ◌*◌, ◌^◌, ◌≡◌, refl, sym, ap, ◌∙◌, String, true, some, [], ◌∷◌, get, Bool-cases,
  inl, inr,
}
use insurance_claim_ai.Prelude.Int.{pos}
use insurance_claim_ai.Domain.Errors.{ok, >>=-eq-ok, ok-injective}
use insurance_claim_ai.Domain.Models.{Claim, ModelPrediction}
use insurance_claim_ai.Domain.Events.{predictions_ready, empty_payload}
use insurance_claim_ai.Value.{Float, finite, whole, unit, lef}
use insurance_claim_ai.ObjectStore.{get_object}
use insurance_claim_ai.Llm.{should_escalate}
use insurance_claim_ai.ClaimTypes.Seed.{default_registry}
use insurance_claim_ai.Settings.{Settings, threshold_default, high_value_default, file_named}
use insurance_claim_ai.Temporal.Action.{World, Services, ◌>>◌, pure}
use insurance_claim_ai.Temporal.Activities.{
  second_opinion, run_llm, append_event, claim_value, ocr_key,
}
use insurance_claim_ai.Temporal.Worker.{
  Outside, seed_policies, wired, worker_services, mock_answer, cost_answers, accuracy_answers,
}

-- run_llm, where the claim and its text are there and both tiers answer.
tiers_store :
    (sv : Services) (claim_id text : String) (w : World) (c : Claim) (value : Float)
    (cost accurate : ModelPrediction)
    → get w.store.claims claim_id ≡ some c
    → get_object w.objects (ocr_key claim_id) ≡ ok text
    → claim_value sv c ≡ ok value
    → sv.cost_model text ≡ ok cost
    → second_opinion sv.agent sv.accuracy_model text ≡ ok accurate
    → let high = should_escalate cost sv.confidence_threshold value sv.high_value_amount in
      run_llm sv claim_id w
      ≡ (append_event sv claim_id predictions_ready (record empty_payload {
        predictions = some (if high then cost ∷ accurate ∷ [] else cost ∷ []);
        escalated = some high;
      })
            >> pure high)
          w
unfolding run_llm
tiers_store sv claim_id text w c value cost accurate there found valued cheap strong =
    elim (Bool-cases (should_escalate cost sv.confidence_threshold value sv.high_value_amount)) [
      | inl high ↦ rw (there, found, valued, cheap, strong, high) refl
      | inr low ↦ rw (there, found, valued, cheap, strong, low) refl
    ]

high_lem :
    (version text : String) (value : Float)
    → should_escalate
        (mock_answer "mock-cost" version (finite (pos (8556839292003942 * 2 ^ 1021))) text)
        threshold_default
        value
        high_value_default
      ≡ lef (whole (pos 25000)) value
unfolding should_escalate threshold_default high_value_default unit
high_lem version text value = refl

module _ (out : Outside) where
  -- With mock models, the default threshold and the default high value, run_llm on a claim that is
  -- there with its text and whose amount is a number stores in PREDICTIONS_READY the answer of
  -- mock-cost with confidence 0.95, and exactly from an amount of 25,000 on it is escalated, with the
  -- answer of mock-accuracy with confidence 0.99 behind it; then it returns whether it is escalated,
  -- or raises what the append raises.
  pub worker_predicts :
      (settings : Settings) (sv : Services) (claim_id text : String) (w : World) (c : Claim)
      (value : Float)
      → worker_services out settings ≡ ok sv
      → settings.use_mock_llm ≡ true
      → settings.confidence_threshold ≡ threshold_default
      → settings.high_value_amount ≡ high_value_default
      → get w.store.claims claim_id ≡ some c
      → get_object w.objects (ocr_key claim_id) ≡ ok text
      → claim_value sv c ≡ ok value
      → let high = lef (whole (pos 25000)) value in
        let cost =
          mock_answer "mock-cost" "0.0.1" (finite (pos (8556839292003942 * 2 ^ 1021))) text in
        let accurate =
          mock_answer "mock-accuracy" "acc" (finite (pos (8917127262193582 * 2 ^ 1021))) text in
        run_llm sv claim_id w
        ≡ (append_event sv claim_id predictions_ready (record empty_payload {
          predictions = some (if high then cost ∷ accurate ∷ [] else cost ∷ []);
          escalated = some high;
        })
              >> pure high)
            w
  unfolding worker_services second_opinion
  worker_predicts settings sv claim_id text w c value started mock threshold limit there found
        valued =
      let (policies, seeded, rest) =
        >>=-eq-ok (seed_policies out (file_named settings.refdata_file)) (λ x. _) started in
      let (registry, built, done) =
        >>=-eq-ok default_registry (λ x. ok (wired out settings policies x)) rest in
      let same = ok-injective done in
      let cheap = ap (λ s. s.cost_model text) (sym same) ∙ rw mock (cost_answers text) in
      let strong =
        ap (λ s. second_opinion s.agent s.accuracy_model text) (sym same)
        ∙ rw mock (accuracy_answers text) in
      let t : sv.confidence_threshold ≡ threshold_default =
        ap (λ s. s.confidence_threshold) (sym same) ∙ threshold in
      let l : sv.high_value_amount ≡ high_value_default =
        ap (λ s. s.high_value_amount) (sym same) ∙ limit in
      rw (← high_lem "0.0.1" text value) (
        rw (← t)
          (rw (← l) (tiers_store sv claim_id text w c value _ _ there found valued cheap strong)))
