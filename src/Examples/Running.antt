-- ===== src/Examples/Running.antt =====
-- The activities and the workflow at concrete inputs.
use insurance_claim_ai.Prelude.{
  some, ◌*◌, ◌^◌, ◌≡◌, ◌⊎◌, inr, refl, String, false, none, List, [], ◌∷◌, arith, get,
}
use insurance_claim_ai.Prelude.Int.{pos}
use insurance_claim_ai.Domain.Errors.{Result, ok}
use insurance_claim_ai.Value.{Float, whole, finite, unit}
use insurance_claim_ai.Domain.Models.{
  ClaimStatus, received, llm_running, persisted, failed, ModelPrediction,
}
use insurance_claim_ai.Domain.Events.{predictions_ready, empty_payload}
use insurance_claim_ai.Examples.Data.{claim_at, stamp_two, store_at}
use insurance_claim_ai.ObjectStore.{mem_reference, get_object}
use insurance_claim_ai.Temporal.Action.{Ensures, World, Services, ◌>>◌, pure}
use insurance_claim_ai.Temporal.Retry.{lost, unacked}
use insurance_claim_ai.Temporal.Faults.{AreSafe, is_order_error}
use insurance_claim_ai.Temporal.Storing.{At}
use insurance_claim_ai.Temporal.Activities.{second_opinion, run_llm, append_event, claim_value}
use insurance_claim_ai.Temporal.Workflow.{Environment, pdf_uploaded, run, init}
use insurance_claim_ai.Prelude.{true, any}
use insurance_claim_ai.Examples.Data.{metadata_one}
use insurance_claim_ai.Value.Conversion.{
  to_float, float_of_int, overflow_bound, round_to_double, round_at, extra_bits,
}
use insurance_claim_ai.ClaimTypes.{member}
use insurance_claim_ai.Temporal.Arriving.{Never}
use insurance_claim_ai.Domain.Errors.{err, value_error}
use insurance_claim_ai.Settings.{Settings, default_settings}
use insurance_claim_ai.ClaimTypes.Seed.{seed_registry, default_registry-is_ok}
use insurance_claim_ai.Temporal.Worker.{Outside, wired, worker_services, mock_answer}
use insurance_claim_ai.Temporal.Worker.Predicting.{worker_predicts}
use insurance_claim_ai.Temporal.Answering.{Answers}
use insurance_claim_ai.Temporal.Progress.{pipeline_returns}
use insurance_claim_ai.Temporal.Announced.{announces}
use insurance_claim_ai.Temporal.Activities.{rule_set_for}
use insurance_claim_ai.Adjudication.{undecided, try_rules}
use insurance_claim_ai.Adjudication as Adjudication
use insurance_claim_ai.Temporal.Pipelines.{pipeline_safe}
use insurance_claim_ai.ClaimTypes.{
  Stage, Stage-discrete, upload, ocr, llm, adjudicate, review, persist, validate_pipeline, set_of,
  misplaced, order,
}

abbrev scores : Float → String → Result ModelPrediction
scores x text = ok (record {
  model_name = "m";
  model_version = "1";
  output = [];
  confidence = x;
  latency_ms = 0;
  tokens_cost = 0;
})

abbrev services : Services
services = record {
  extract_text = λ pdf. ok "text";
  cost_model = scores (whole (pos 0));
  accuracy_model = scores (whole (pos 1));
  agent = none;
  confidence_threshold = whole (pos 1);
  high_value_amount = whole (pos 25000);
  rulesets = [];
  refdata = none;
  tenants = none;
  reference = mem_reference "b";
  read = λ s. none;
  show = λ v. "?";
  stamp = λ n. stamp_two;
}

services-AreSafe : AreSafe services
unfolding second_opinion
services-AreSafe = record {
  text_safe = λ pdf e h. absurd (cc);
  cost_safe = λ text e h. absurd (cc);
  opinion_safe = λ text e h. absurd (cc);
}

-- The document comes; every first attempt loses its answer.
abbrev rough : Environment
rough = record {
  until_upload = pdf_uploaded "c1/source.pdf" ∷ [];
  until_review = [];
  schedule = λ n. unacked ∷ lost ∷ [];
}

abbrev world_at : ClaimStatus → World
world_at status = record {
  store = store_at (claim_at status);
  objects = ("c1/source.pdf", "%PDF") ∷ ("c1/ocr.txt", "text") ∷ [];
  calls = 0;
}

abbrev full : List Stage
full = upload ∷ ocr ∷ llm ∷ adjudicate ∷ review ∷ persist ∷ []

pipeline_safe_example :
    Ensures
      (λ e t. is_order_error e ≡ false)
      (λ x t. At "c1" persisted t.world ⊎ At "c1" failed t.world)
      (run services rough "c1" full (init (world_at received)))
unfolding validate_pipeline set_of misplaced order Stage-discrete get
pipeline_safe_example =
    pipeline_safe services rough "c1" full (world_at received) services-AreSafe refl
      (λ h. inr (ground arith)) (claim_at received, refl, refl)

-- Without a rule set every claim PENDs.
services-Answers : Answers services metadata_one
unfolding second_opinion rule_set_for Adjudication.adjudicate try_rules get to_float float_of_int
    overflow_bound
services-Answers = record {
  reads = λ pdf. refl;
  predicts = λ text. refl;
  opines = λ text. refl;
  valued = refl;
  bounded = λ k v found. absurd (cc (found));
  ruled = λ c same. refl;
}

pipeline_returns_example :
    Ensures Never
      (λ x t.
        At "c1" persisted t.world
        ⊎ ((member upload full ≡ true)
            × (any announces rough.until_upload ≡ false)
            × At "c1" failed t.world))
      (run services rough "c1" full (init (world_at received)))
unfolding validate_pipeline set_of misplaced order Stage-discrete get
pipeline_returns_example =
    pipeline_returns services rough "c1" metadata_one services-Answers (λ n. tt) full
      (world_at received) refl (λ h. inr (ground arith)) (claim_at received, refl, refl)
      (record {
        claimed = (claim_at received, refl, refl);
        delivered = (refl, tt);
        texted = λ due. refl;
      })

-- The mock worker, over an outside world that knows nothing.
abbrev nothing_outside : Outside
nothing_outside = record {
  create = λ model text. err value_error;
  loads = λ text. err value_error;
  read = λ text. none;
  show = λ v. "?";
  show_dict = λ d. "?";
  show_nat = λ n. "?";
  load_policies = λ path. ok [];
  stamp = λ n. stamp_two;
}

abbrev mock_settings : Settings
mock_settings = record default_settings { use_mock_llm = true }

-- A claim at LLM_RUNNING with its text.
abbrev world_read : World
world_read = record (world_at llm_running) { objects = ("c1/ocr.txt", "hello") ∷ [] }

worker_predicts_example :
    let sv = wired nothing_outside mock_settings [] seed_registry in
    let cost =
      mock_answer "mock-cost" "0.0.1" (finite (pos (8556839292003942 * 2 ^ 1021))) "hello" in
    run_llm sv "c1" world_read
    ≡ (append_event sv "c1" predictions_ready
            (record empty_payload { predictions = some (cost ∷ []); escalated = some false })
          >> pure false)
        world_read
unfolding worker_services get get_object claim_value to_float float_of_int overflow_bound unit
    round_to_double round_at extra_bits
worker_predicts_example =
    worker_predicts nothing_outside mock_settings
      (wired nothing_outside mock_settings [] seed_registry) "c1" "hello" world_read
      (claim_at llm_running) (whole (pos 0)) (rw default_registry-is_ok refl) refl refl refl refl
      refl refl
