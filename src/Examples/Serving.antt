-- ===== src/Examples/Serving.antt =====
-- The endpoints and the API keys at concrete requests.
use insurance_claim_ai.Prelude.{
  if◌then◌else◌, ◌≡◌, ◌⊎◌, refl, ◌↔◌, String, Bool, true, false, none, some, [], ◌∷◌, ◌++◌, get,
  put,
}
use insurance_claim_ai.Domain.Errors.{ok, err, rpc_error, not_found, is_ok}
use insurance_claim_ai.Value.{str}
use insurance_claim_ai.Domain.Models.{Claim, ClaimMetadata, received, persisted, validate_metadata}
use insurance_claim_ai.Domain.Events.{DomainEvent, claim_received}
use insurance_claim_ai.EventStore.{EventStore, append, empty, find, find_by_idempotency_key}
use insurance_claim_ai.Projection.{project}
use insurance_claim_ai.Examples.Data.{
  metadata_one, claim_at, decided_at, stamp_one, stamp_two, store_at,
}
use insurance_claim_ai.Customers.{Customer, authenticate, integration, submitter}
use insurance_claim_ai.ClaimTypes.{ClaimTypeDef, get_type, validate_attributes, Stage-discrete}
use insurance_claim_ai.ClaimTypes.Seed.{generic_type}
use insurance_claim_ai.Tenancy.{TenantConfig, get_tenant}
use insurance_claim_ai.Temporal.Workflow.{review_signal}
use insurance_claim_ai.Api.{
  App, Config, stamp_metadata, accept_type, open_claim, submit, received_payload, answer_new,
  answer_earlier, visible_claim,
}
use insurance_claim_ai.Api.Endpoints.{submit_review, ReviewRequest, is_verdict, verdict_of}
use insurance_claim_ai.Api.Access.{MaySee, visible_claim_iff}
use insurance_claim_ai.Api.Submission.{submit_new}
use insurance_claim_ai.Api.Repeat.{submit_shared, start_lost}
use insurance_claim_ai.Api.Review.{submit_review_lem}
use insurance_claim_ai.Api.Main.{Inputs, serve, create_app, serve-dev_keys}
use insurance_claim_ai.Api.{require_customer}
use insurance_claim_ai.Domain.Errors.{require, unauthorized}
use insurance_claim_ai.Customers.{default_customers, dev_keys}
use insurance_claim_ai.ClaimTypes.Seed.{seed_registry, default_registry-is_ok}
use insurance_claim_ai.Settings.{default_settings}

abbrev plain : String → String
plain s = s

abbrev tenant_one : TenantConfig
tenant_one = record {
  name = "default";
  registry = ("generic-document", generic_type) ∷ [];
  rulesets = [];
}

abbrev config : Bool → Config
config up = record {
  hash_key = plain;
  customers = ("key", integration) ∷ [];
  tenants = ("default", tenant_one) ∷ [];
  intake = [];
  output = [];
  upload_url = λ id. id;
  starts = λ id. up;
  takes_signal = λ id. up;
}

abbrev idle : EventStore → App
idle s = record { store = s; started = []; signals = [] }

-- What a request of the integration customer is stored as.
abbrev owned : ClaimMetadata
owned = record metadata_one {
  customer_id = "dev-integration";
  attributes = ("submitted_customer_ref", str "acme") ∷ [];
}

abbrev owned_event : DomainEvent
owned_event = record {
  event_id = "e1";
  claim_id = "c9";
  seq = 1;
  type = claim_received;
  payload = received_payload owned;
  occurred_at = 1;
}

submit_new_example :
    let app = idle (store_at (claim_at received)) in
    let t = (submit (config true) stamp_one "c9" metadata_one none integration app).1 in
    let m = stamp_metadata integration metadata_one in
    (tenant : TenantConfig) × (defn : ClaimTypeDef) × (c : Claim) × (get_tenant
        (config true).tenants
        "default"
      ≡ ok tenant)
    × (get_type tenant.registry m.claim_type ≡ ok defn)
    × (validate_attributes defn.attributes m.attributes ≡ [])
    × (answer_new (config true) generic_type "c9" ≡ answer_new (config true) defn "c9")
    × (find t.store "c9" ≡ some c)
    × (c.status ≡ received)
    × (c.metadata.customer_id ≡ "dev-integration")
    × (c.metadata.tenant_id ≡ "default")
    × (t.started ≡ [] ++ ("c9", defn.stages) ∷ [])
unfolding submit accept_type stamp_metadata open_claim append project get put get_tenant get_type
    validate_attributes validate_metadata
submit_new_example =
    submit_new (config true) stamp_one "c9" metadata_one none integration
      (idle (store_at (claim_at received))) (answer_new (config true) generic_type "c9") refl refl
      refl

-- Another customer, with the submit role only.
abbrev rival : Customer
rival = record submitter { customer_id = "rival"; tenant_id = "other" }

abbrev two_tenants : Config
two_tenants = record (config true) {
  tenants = ("default", tenant_one) ∷ ("other", tenant_one) ∷ [];
}

submit_shared_example :
    let (r, t) =
      submit two_tenants stamp_one "c9" metadata_one (some "k9") integration (idle empty) in
    let (r', u) = submit two_tenants stamp_two "c10" metadata_one (some "k9") rival t in
    (r ≡ ok (answer_new two_tenants generic_type "c9"))
    × (r'
        ≡ ok (record {
          claim_id = "c9";
          status = received;
          claim_type = "generic-document";
          stages = generic_type.stages;
          upload_url = some "c9";
          idempotent = true;
        }))
    × (u ≡ t)
    × (t.started ≡ ("c9", generic_type.stages) ∷ [])
    × (is_ok (visible_claim u.store rival "c9") ≡ false)
unfolding accept_type stamp_metadata find_by_idempotency_key append project get put get_tenant
    get_type validate_attributes Stage-discrete
submit_shared_example =
    submit_shared two_tenants stamp_one stamp_two "c9" "c10" "k9" metadata_one metadata_one
      integration rival (idle empty) generic_type generic_type owned_event refl refl refl refl refl
      refl refl refl

start_lost_example :
    let app = idle empty in
    let (r, t) = submit (config false) stamp_one "c9" metadata_one (some "k9") integration app in
    let (r', u) = submit (config false) stamp_two "c10" metadata_one (some "k9") integration t in
    (r ≡ err rpc_error)
    × (c : Claim) × (r' ≡ ok (answer_earlier (config false) generic_type.stages c))
    × (find_by_idempotency_key u.store "k9" ≡ some c)
    × (u.started ≡ [])
unfolding accept_type stamp_metadata find_by_idempotency_key append project get put get_tenant
    get_type validate_attributes
start_lost_example =
    start_lost (config false) stamp_one stamp_two "c9" "c10" "k9" metadata_one integration
      (idle empty) generic_type owned_event refl refl refl refl refl refl

visible_claim_iff_example :
    let s = store_at (claim_at received) in
    ((visible_claim s submitter "c1" ≡ ok (claim_at received))
      ↔ ((find s "c1" ≡ some (claim_at received)) × MaySee submitter (claim_at received)))
    × ((is_ok (visible_claim s submitter "c1") ≡ true)
        ⊎ (visible_claim s submitter "c1" ≡ err not_found))
visible_claim_iff_example =
    visible_claim_iff (store_at (claim_at received)) submitter "c1" (claim_at received)

abbrev approval : ReviewRequest
approval = record { decision = "APPROVE"; reason_code = "OK"; reviewer = "ann" }

submit_review_lem_example :
    let c = decided_at persisted "PEND" in
    let app = idle (store_at c) in
    let (r, t) = submit_review (config true) (some "key") "c1" approval app in
    ((is_ok r ≡ true) ↔ (
      (is_verdict approval ≡ true)
      × MaySee integration c
      × (c.decision ≡ some "PEND")
      × ((config true).takes_signal "c1" ≡ true)))
    × (t ≡ (
        if is_ok r
        then record app {
          signals = app.signals ++ ("c1", review_signal (verdict_of approval)) ∷ [];
        }
        else app))
unfolding authenticate get
submit_review_lem_example =
    submit_review_lem (config true) (some "key") "c1" approval
      (idle (store_at (decided_at persisted "PEND"))) integration (decided_at persisted "PEND") refl
      refl

abbrev inputs : Inputs
inputs = record {
  loads = λ s. none;
  read = λ s. none;
  show = λ v. "?";
  dump = λ doc. "{}";
  hash_key = plain;
  entries_of = λ path. err rpc_error;
  upload_url = λ id. id;
  starts = λ id. true;
  takes_signal = λ id. true;
}

serve-dev_keys_example :
    require_customer
      (create_app inputs (default_customers plain) seed_registry)
      (some "ck_payer_reviewer_01")
    ≡ require (get dev_keys "ck_payer_reviewer_01") unauthorized
unfolding serve
serve-dev_keys_example =
    serve-dev_keys inputs default_settings
      (create_app inputs (default_customers plain) seed_registry) "ck_payer_reviewer_01"
      (λ a b h. h) refl (rw default_registry-is_ok refl)
