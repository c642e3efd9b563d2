-- ===== src/Api/Endpoints.antt =====
-- claimpipe/api/app.py: the endpoints other than POST /claims.
use insurance_claim_ai.Prelude.{
  String, Bool, false, not, ◌&&◌, ◌||◌, Option, none, some, List, [], ◌∷◌, ◌++◌, if◌then◌else◌,
  ◌==◌, get, keep_if,
}
use insurance_claim_ai.Domain.Errors.{
  Result, ok, err, not_found, bad_request, conflict, unprocessable, intake_error, output_error,
  rpc_error, guard, require, ◌>>=◌, ◌>>◌,
}
use insurance_claim_ai.Domain.Models.{Claim, ClaimMetadata, ModelPrediction}
use insurance_claim_ai.EventStore.{EventStore, Stamp, list_pending_review, predictions_of}
use insurance_claim_ai.Temporal.Workflow.{Signal, pdf_uploaded, review_signal}
use insurance_claim_ai.Temporal.Workflow as Workflow
use Prim.Native.String as Text
use insurance_claim_ai.Api.{
  App, Config, require_customer, require_role, tenant_of, visible_claim, SubmitResponse, submit,
  on_ok,
}

-- An IntakeError is a 400; anything else that `normalize` raises goes through.
abbrev pub as_bad_request {ℓ} : {A : Type ℓ} → Result A → Result A
as_bad_request (err intake_error) = err bad_request
as_bad_request r = r

abbrev pub normalized : Config → String → String → Result ClaimMetadata
normalized cfg adapter_name body = do
  normalize ← require (get cfg.intake adapter_name) not_found
  as_bad_request (normalize body)

-- POST /intake/{adapter_name}
unfoldable pub intake_submit :
    Config
    → Stamp
    → String
    → Option String
    → Option String
    → String
    → String
    → App
    → Result SubmitResponse × App
intake_submit cfg stamp claim_id api_key key adapter_name body app =
    on_ok (require_role cfg "submit" api_key) app (λ customer.
      on_ok (normalized cfg adapter_name body) app
        (λ metadata. submit cfg stamp claim_id metadata key customer app))

-- `handle.signal`
abbrev pub send_signal : Config → String → Signal → App → Result String × App
send_signal cfg claim_id signal app =
    if cfg.takes_signal claim_id
    then (ok claim_id, record app { signals = app.signals ++ (claim_id, signal) ∷ [] })
    else (err rpc_error, app)

-- POST /claims/{claim_id}/uploaded
unfoldable pub mark_uploaded : Config → Option String → String → App → Result String × App
mark_uploaded cfg api_key claim_id app =
    on_ok
      (do customer ← require_role cfg "submit" api_key; visible_claim app.store customer claim_id)
      app (λ c. send_signal cfg c.claim_id (pdf_uploaded (Text.◌++◌ c.claim_id "/source.pdf")) app)

-- GET /claims/{claim_id}: the fields of the claim that the response has are the claim's own.
unfoldable pub get_claim : Config → Option String → String → EventStore → Result Claim
get_claim cfg api_key claim_id s = do
  customer ← require_customer cfg api_key
  visible_claim s customer claim_id

-- GET /review-queue
unfoldable pub review_queue : Config → Option String → EventStore → Result (List Claim)
review_queue cfg api_key s = do
  customer ← require_role cfg "review" api_key
  tenant ← tenant_of cfg customer.tenant_id
  ok (keep_if (λ c. c.metadata.tenant_id == customer.tenant_id) (list_pending_review s))

-- ReviewRequest, and what pydantic checks of it.
pub record ReviewRequest : Type 0 where
  pub decision : String
  pub reason_code : String
  pub reviewer : String

abbrev pub is_verdict : ReviewRequest → Bool
is_verdict r = (r.decision == "APPROVE" || r.decision == "DENY") && not (r.reviewer == "")

abbrev pub verdict_of : ReviewRequest → Workflow.Review
verdict_of r = record {
  decision = r.decision;
  reason_code = some r.reason_code;
  reviewer = some r.reviewer;
}

abbrev pub is_pended : Option String → Bool
is_pended none = false
is_pended (some d) = d == "PEND"

-- POST /claims/{claim_id}/review
unfoldable pub submit_review :
    Config → Option String → String → ReviewRequest → App → Result String × App
submit_review cfg api_key claim_id req app =
    on_ok
      (do
        customer ← require_role cfg "review" api_key
        guard (is_verdict req) unprocessable
        c ← visible_claim app.store customer claim_id
        guard (is_pended c.decision) conflict
        ok c)
      app (λ c. send_signal cfg c.claim_id (review_signal (verdict_of req)) app)

abbrev pub as_conflict {ℓ} : {A : Type ℓ} → Result A → Result A
as_conflict (err output_error) = err conflict
as_conflict r = r

-- GET /claims/{claim_id}/documents/{adapter_name}
unfoldable pub render_document :
    Config → Option String → String → String → EventStore → Result (String × String)
render_document cfg api_key claim_id adapter_name s = do
  customer ← require_customer cfg api_key
  adapter ← require (get cfg.output adapter_name) not_found
  c ← visible_claim s customer claim_id
  body ← as_conflict (adapter.render c (predictions_of s c.claim_id))
  ok (adapter.content_type, body)

-- GET /claims/{claim_id}/predictions
unfoldable pub get_predictions :
    Config → Option String → String → EventStore → Result (String × List ModelPrediction)
get_predictions cfg api_key claim_id s = do
  customer ← require_customer cfg api_key
  c ← visible_claim s customer claim_id
  ok (c.claim_id, predictions_of s c.claim_id)
