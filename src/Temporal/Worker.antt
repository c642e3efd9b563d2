-- ===== src/Temporal/Worker.antt =====
-- claimpipe/temporal/worker.py: what the worker wires into the activities.
pub mod Predicting
use insurance_claim_ai.Prelude.{
  if◌then◌else◌, ℕ, ◌*◌, ◌^◌, ◌/◌, ◌≡◌, refl, sym, ap, ◌∙◌, String, Bool, true, false, Option, none,
  some, List, [], ◌∷◌, arith, Dict, get, put, or_else, ◌==◌, Bool-cases, inl, inr,
}
use insurance_claim_ai.Prelude.Int.{pos}
use insurance_claim_ai.Domain.Errors.{Result, ok, is_ok, ◌>>=◌, >>=-eq-ok, ok-injective}
use insurance_claim_ai.Domain.Models.{Claim, ClaimMetadata, ModelPrediction, validate_prediction}
use insurance_claim_ai.Value.{Value, Float, str, finite, whole, unit, lef}
use insurance_claim_ai.Value.Conversion.{to_float, float_of_int, overflow_bound}
use insurance_claim_ai.EventStore.{Stamp}
use insurance_claim_ai.Llm.{ModelClient, should_escalate}
use insurance_claim_ai.Llm.Clients.{Response, mock_predict, anthropic_predict, first_chars}
use insurance_claim_ai.Agent.{AgentState, review_claim}
use insurance_claim_ai.RefData.{PolicyRecord, Policies, add_policy, get_policy}
use insurance_claim_ai.Tenancy.{directory, get_tenant}
use insurance_claim_ai.ClaimTypes.{Registry}
use insurance_claim_ai.ClaimTypes.Seed.{default_registry}
use insurance_claim_ai.Adjudication.Totality.{AreBounded, rules_bounded}
use insurance_claim_ai.Adjudication.Rulesets.{
  default_rulesets, generic_document, auto_fnol, structured_claim,
}
use insurance_claim_ai.Adjudication.{Rule, RuleSet}
use insurance_claim_ai.ObjectStore.S3.{s3_reference}
use insurance_claim_ai.Settings.{
  Settings, default_settings, threshold_default, high_value_default, mock_extract_text, file_named,
}
use insurance_claim_ai.Domain.Events.{predictions_ready, empty_payload}
use insurance_claim_ai.ObjectStore.{get_object}
use insurance_claim_ai.Temporal.Action.{World, Services, ◌>>◌, pure}
use insurance_claim_ai.Temporal.Activities.{
  amount_or_zero, rule_set_for, second_opinion, run_llm, append_event, claim_value, ocr_key,
}
use Prim.Native.String as Text
use insurance_claim_ai.Temporal.Answering.{Answers}

-- What is outside the program: the provider's API, JSON, Python's conversions, the file of policies as
-- its records, ids and times.
pub record Outside : Type 0 where
  pub create : String → String → Result Response
  pub loads : String → Result Value
  pub read : String → Option Float
  pub show : Value → String
  pub show_dict : Dict Value → String
  pub show_nat : ℕ → String
  pub load_policies : String → Result (List PolicyRecord)
  pub stamp : ℕ → Stamp

-- The doubles nearest to 0.95 and 0.99.
unfoldable pub cost_confidence : Float
cost_confidence = finite (pos (8556839292003942 * 2 ^ 1021))

unfoldable pub accuracy_confidence : Float
accuracy_confidence = finite (pos (8917127262193582 * 2 ^ 1021))

pub record Tiers : Type 0 where
  pub cost_model : ModelClient
  pub accuracy_model : ModelClient
  pub agent : Option (String → Result AgentState)

generic_bounded : rules_bounded generic_document.rules ≡ true
unfolding float_of_int overflow_bound
generic_bounded = refl

fnol_bounded : rules_bounded auto_fnol.rules ≡ true
unfolding float_of_int overflow_bound
fnol_bounded = refl

structured_bounded : rules_bounded structured_claim.rules ≡ true
unfolding float_of_int overflow_bound
structured_bounded = refl

-- The seed rule sets, and the rule set of an unknown claim type, have no number past the doubles.
abbrev seed_rules : Dict RuleSet → String → List Rule
seed_rules rulesets claim_type =
    (or_else (get rulesets claim_type)
      (record { name = claim_type; version = "unregistered"; rules = [] })).rules

default_bounded :
    (claim_type : String) → rules_bounded (seed_rules default_rulesets claim_type) ≡ true
unfolding default_rulesets get
default_bounded claim_type = elim (Bool-cases ("generic-document" == claim_type)) [
  | inl generic ↦ rw (seed_rules, generic) generic_bounded
  | inr not_generic ↦ elim (Bool-cases ("auto-fnol" == claim_type)) [
    | inl fnol ↦ rw (seed_rules, not_generic, fnol) fnol_bounded
    | inr not_fnol ↦ elim (Bool-cases ("structured-claim" == claim_type)) [
      | inl structured ↦ rw (seed_rules, not_generic, not_fnol, structured) structured_bounded
      | inr other ↦ rw (seed_rules, not_generic, not_fnol, other) refl
    ]
  ]
]

no_rules_bounded : (claim_type : String) → rules_bounded (seed_rules [] claim_type) ≡ true
unfolding get
no_rules_bounded claim_type = refl

-- The answer of a mock model, whatever the text.
abbrev pub mock_answer : String → String → Float → String → ModelPrediction
mock_answer name version confidence text = record {
  model_name = name;
  model_version = version;
  output = ("summary", str (first_chars 64 text)) ∷ ("category", str "auto") ∷ [];
  confidence = confidence;
  latency_ms = 1;
  tokens_cost = Text.count text / 4;
}

pub cost_answers :
    (text : String)
    → mock_predict "mock-cost" "0.0.1" cost_confidence text
      ≡ ok (mock_answer "mock-cost" "0.0.1" (finite (pos (8556839292003942 * 2 ^ 1021))) text)
unfolding mock_predict validate_prediction cost_confidence unit
cost_answers text = refl

pub accuracy_answers :
    (text : String)
    → mock_predict "mock-accuracy" "acc" accuracy_confidence text
      ≡ ok (mock_answer "mock-accuracy" "acc" (finite (pos (8917127262193582 * 2 ^ 1021))) text)
unfolding mock_predict validate_prediction accuracy_confidence unit
accuracy_answers text = refl

module _ (out : Outside) where
  abbrev claude : String → String → ModelClient
  claude model version = anthropic_predict out.create out.loads out.read model model version

  abbrev pub tiers_of : Bool → Tiers
  tiers_of true = record {
    cost_model = mock_predict "mock-cost" "0.0.1" cost_confidence;
    accuracy_model = mock_predict "mock-accuracy" "acc" accuracy_confidence;
    agent = none;
  }
  tiers_of false = record {
    cost_model = claude "claude-haiku-4-5" "cost";
    accuracy_model = claude "claude-opus-4-8" "accuracy";
    agent = some (
        review_claim out.show_dict (claude "claude-opus-4-8" "accuracy")
          (claude "claude-haiku-4-5" "cost"));
  }

  abbrev add_policies : Policies → List PolicyRecord → Policies
  add_policies policies [] = policies
  add_policies policies (r ∷ records) = add_policies (add_policy policies r) records

  abbrev pub seed_policies : Option String → Result Policies
  seed_policies none = ok []
  seed_policies (some path) = do records ← out.load_policies path; ok (add_policies [] records)

  abbrev pub wired : Settings → Policies → Registry → Services
  wired settings policies registry =
      let tiers = tiers_of settings.use_mock_llm in
      record {
        extract_text = mock_extract_text out.show_nat;
        cost_model = tiers.cost_model;
        accuracy_model = tiers.accuracy_model;
        agent = tiers.agent;
        confidence_threshold = settings.confidence_threshold;
        high_value_amount = settings.high_value_amount;
        rulesets = default_rulesets;
        refdata = some (get_policy policies);
        tenants = some (directory registry []);
        reference = s3_reference settings.s3_bucket;
        read = out.read;
        show = out.show;
        stamp = out.stamp;
      }

  -- `main`, up to the worker's start.
  unfoldable pub worker_services : Settings → Result Services
  worker_services settings = do
    policies ← seed_policies (file_named settings.refdata_file)
    registry ← default_registry
    ok (wired settings policies registry)

  wired_ruled :
      (settings : Settings) (policies : Policies) (registry : Registry) (c : Claim)
      → rules_bounded (rule_set_for (wired settings policies registry) c).rules ≡ true
  unfolding rule_set_for directory get_tenant get put
  wired_ruled settings policies registry c = elim (Bool-cases ("default" == c.metadata.tenant_id)) [
    | inl known ↦ rw known (default_bounded c.metadata.claim_type)
    | inr unknown ↦ rw unknown (no_rules_bounded c.metadata.claim_type)
  ]

  -- With mock models the services of the worker answer for every claim whose amount is a number, and
  -- whose attributes have no integer past the largest double.
  pub worker_services-Answers :
      (settings : Settings) (sv : Services) (m : ClaimMetadata)
      → worker_services settings ≡ ok sv
      → settings.use_mock_llm ≡ true
      → is_ok (to_float out.read (amount_or_zero (get m.attributes "amount"))) ≡ true
      → AreBounded m.attributes
      → Answers sv m
  unfolding worker_services second_opinion
  worker_services-Answers settings sv m started mock valued bounded =
      let (policies, seeded, rest) =
        >>=-eq-ok (seed_policies (file_named settings.refdata_file)) (λ x. _) started in
      let (registry, built, done) =
        >>=-eq-ok default_registry (λ x. ok (wired settings policies x)) rest in
      let same = ok-injective done in
      record {
        reads = λ pdf. ap (λ s. is_ok (s.extract_text pdf)) (sym same);
        predicts = λ text.
            ap (λ s. is_ok (s.cost_model text)) (sym same) ∙ rw mock (rw (cost_answers text) refl);
        opines = λ text.
            ap (λ s. is_ok (second_opinion s.agent s.accuracy_model text)) (sym same)
            ∙ rw mock (rw (accuracy_answers text) refl);
        valued =
            ap (λ s. is_ok (to_float s.read (amount_or_zero (get m.attributes "amount"))))
              (sym same)
            ∙ valued;
        bounded = bounded;
        ruled = λ c of_m.
            ap (λ s. rules_bounded (rule_set_for s c).rules) (sym same)
            ∙ wired_ruled settings policies registry c;
      }
