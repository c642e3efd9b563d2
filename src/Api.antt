-- ===== src/Api.antt =====
-- claimpipe/api/app.py: the endpoints. A handler is a function of the application's state that
-- returns what it answers, an HTTP status as an error, and the state after it. Arguments: SHA-256,
-- the presigned upload URL of a claim, the ids and times of a call, and whether Temporal takes a
-- start or a signal.
pub mod Endpoints
pub mod Access
pub mod Submission
pub mod Repeat
pub mod Review
pub mod Types
pub mod Main
use insurance_claim_ai.Prelude.{
  ◌≡◌, refl, String, Bool, true, false, not, ◌&&◌, ◌||◌, Option, none, some, List, [], ◌∷◌, ◌++◌,
  any, arith, if◌then◌else◌, ◌==◌, is_some, or_else, Dict, get, put, keep_if,
}
use insurance_claim_ai.Domain.Errors.{
  Result, ok, err, Error, unauthorized, forbidden, not_found, bad_request, conflict, unprocessable,
  intake_error, output_error, rpc_error, guard, require, ◌>>=◌, ◌>>◌, unknown_tenant,
}
use insurance_claim_ai.Domain.Models.{
  Claim, ClaimMetadata, ClaimStatus, received, ModelPrediction, validate_metadata,
}
use insurance_claim_ai.Domain.Events.{
  DomainEvent, EventType, Payload, claim_received, empty_payload,
}
use insurance_claim_ai.Value.{Value, str}
use insurance_claim_ai.EventStore.{
  EventStore, Stamp, append, find, find_by_idempotency_key, list_pending_review, predictions_of,
}
use insurance_claim_ai.ClaimTypes.{
  Stage, upload, ClaimTypeDef, Registry, get_type, validate_attributes, member,
}
use insurance_claim_ai.Tenancy.{TenantConfig, Directory, get_tenant}
use insurance_claim_ai.Customers.{Customer, can, authenticate}
use insurance_claim_ai.Output.{OutputAdapter}
use insurance_claim_ai.Temporal.Workflow.{Signal, pdf_uploaded, review_signal}
use insurance_claim_ai.Temporal.Workflow as Workflow
use Prim.Native.String as Text

-- What the application shares between requests: the event store, the workflows that were started,
-- with their stages, and the signals that were sent.
pub record App : Type 0 where
  pub store : EventStore
  pub started : List (String × List Stage)
  pub signals : List (String × Signal)

-- create_app's arguments, and Temporal's answers.
pub record Config : Type 0 where
  pub hash_key : String → String
  pub customers : Dict Customer
  pub tenants : Directory
  pub intake : Dict (String → Result ClaimMetadata)
  pub output : Dict OutputAdapter
  pub upload_url : String → String
  pub starts : String → Bool
  pub takes_signal : String → Bool

-- require_customer and require_role.
abbrev pub require_customer : Config → Option String → Result Customer
require_customer cfg api_key =
    require (authenticate cfg.hash_key cfg.customers api_key) unauthorized

abbrev pub require_role : Config → String → Option String → Result Customer
require_role cfg role api_key = do
  c ← require_customer cfg api_key
  guard (can c role) forbidden
  ok c

-- `_tenant`
abbrev pub as_not_found {ℓ} : {A : Type ℓ} → Result A → Result A
as_not_found (ok a) = ok a
as_not_found (err e) = err not_found

abbrev pub tenant_of : Config → String → Result TenantConfig
tenant_of cfg name = as_not_found (get_tenant cfg.tenants name)

abbrev pub may_see : Customer → Claim → Bool
may_see customer c =
    (can customer "submit" && c.metadata.customer_id == customer.customer_id)
    || (can customer "review" && c.metadata.tenant_id == customer.tenant_id)

-- `_visible_claim`
unfoldable pub visible_claim : EventStore → Customer → String → Result Claim
visible_claim s customer claim_id = do
  c ← require (find s claim_id) not_found
  guard (may_see customer c) not_found
  ok c

pub record SubmitResponse : Type 0 where
  pub claim_id : String
  pub status : ClaimStatus
  pub claim_type : String
  pub stages : List Stage
  pub upload_url : Option String
  pub idempotent : Bool

-- The metadata with the caller's identity on it; a different reference of the body is kept aside.
unfoldable pub stamp_metadata : Customer → ClaimMetadata → ClaimMetadata
stamp_metadata customer m =
    let owned = record m { tenant_id = customer.tenant_id; customer_id = customer.customer_id } in
    if not (m.customer_id == "") && not (m.customer_id == customer.customer_id)
    then record owned { attributes = put m.attributes "submitted_customer_ref" (str m.customer_id) }
    else owned

abbrev pub is_empty {ℓ} : {A : Type ℓ} → List A → Bool
is_empty [] = true
is_empty (x ∷ xs) = false

abbrev pub as_unprocessable {ℓ} : {A : Type ℓ} → Result A → Result A
as_unprocessable (ok a) = ok a
as_unprocessable (err e) = err unprocessable

-- The claim type of a submission, once its tenant, type and attributes are found good.
unfoldable pub accept_type : Config → Customer → ClaimMetadata → Result ClaimTypeDef
accept_type cfg customer m = do
  tenant ← tenant_of cfg customer.tenant_id
  defn ← as_unprocessable (get_type tenant.registry m.claim_type)
  guard (is_empty (validate_attributes defn.attributes m.attributes)) unprocessable
  ok defn

abbrev pub url_if : Config → List Stage → String → Option String
url_if cfg stages claim_id = if member upload stages then some (cfg.upload_url claim_id) else none

-- `if idempotency_key: existing = ...`
abbrev pub earlier : EventStore → Option String → Option Claim
earlier s none = none
earlier s (some key) = if key == "" then none else find_by_idempotency_key s key

abbrev pub answer_earlier : Config → List Stage → Claim → SubmitResponse
answer_earlier cfg stages c = record {
  claim_id = c.claim_id;
  status = c.status;
  claim_type = c.metadata.claim_type;
  stages = stages;
  upload_url = url_if cfg stages c.claim_id;
  idempotent = true;
}

abbrev pub answer_new : Config → ClaimTypeDef → String → SubmitResponse
answer_new cfg defn claim_id = record {
  claim_id = claim_id;
  status = received;
  claim_type = defn.name;
  stages = defn.stages;
  upload_url = url_if cfg defn.stages claim_id;
  idempotent = false;
}

-- `temporal_client.start_workflow`
abbrev pub start_workflow : Config → ClaimTypeDef → String → App → Result SubmitResponse × App
start_workflow cfg defn claim_id app =
    if cfg.starts claim_id
    then (
      ok (answer_new cfg defn claim_id),
      record app { started = app.started ++ (claim_id, defn.stages) ∷ [] },
    )
    else (err rpc_error, app)

abbrev pub appended :
    Config → ClaimTypeDef → String → App → Result DomainEvent → Result SubmitResponse × App
appended cfg defn claim_id app (ok e) = start_workflow cfg defn claim_id app
appended cfg defn claim_id app (err x) = (err x, app)

abbrev pub received_payload : ClaimMetadata → Payload
received_payload m = record empty_payload { metadata = some m }

-- The rest of `_submit`: an earlier claim under the key is answered with, else a new claim is stored
-- and its workflow started.
unfoldable pub open_claim :
    Config
    → Stamp
    → String
    → ClaimMetadata
    → Option String
    → ClaimTypeDef
    → Option Claim
    → App
    → Result SubmitResponse × App
open_claim cfg stamp claim_id m key defn (some c) app = (ok (answer_earlier cfg defn.stages c), app)
open_claim cfg stamp claim_id m key defn none app =
    let (r, store) = append app.store stamp claim_id claim_received (received_payload m) key in
    appended cfg defn claim_id (record app { store = store }) r

abbrev pub with_type :
    Config
    → Stamp
    → String
    → ClaimMetadata
    → Option String
    → Result ClaimTypeDef
    → App
    → Result SubmitResponse × App
with_type cfg stamp claim_id m key (err x) app = (err x, app)
with_type cfg stamp claim_id m key (ok defn) app =
    open_claim cfg stamp claim_id m key defn (earlier app.store key) app

-- `_submit`; `claim_id` is the uuid4 that the call draws.
unfoldable pub submit :
    Config
    → Stamp
    → String
    → ClaimMetadata
    → Option String
    → Customer
    → App
    → Result SubmitResponse × App
submit cfg stamp claim_id metadata key customer app =
    let m = stamp_metadata customer metadata in
    with_type cfg stamp claim_id m key (accept_type cfg customer m) app

-- A handler goes on with what a check found, or answers its error with nothing changed.
abbrev pub on_ok {ℓ} : {A B : Type ℓ} → Result A → App → (A → Result B × App) → Result B × App
on_ok (ok a) app f = f a
on_ok (err e) app f = (err e, app)

-- The body of a request, as pydantic builds it; what it refuses FastAPI answers with 422.
abbrev request_body : ClaimMetadata → Result ClaimMetadata
request_body metadata = as_unprocessable (validate_metadata metadata)

-- POST /claims: FastAPI resolves the customer before it validates the body.
unfoldable pub submit_claim :
    Config
    → Stamp
    → String
    → Option String
    → Option String
    → ClaimMetadata
    → App
    → Result SubmitResponse × App
submit_claim cfg stamp claim_id api_key key metadata app =
    on_ok (require_role cfg "submit" api_key) app (λ customer.
      on_ok (request_body metadata) app (λ m. submit cfg stamp claim_id m key customer app))
