-- ===== src/Domain/Models.antt =====
-- claimpipe/domain/models.py: the claim, its status and the predictions. A time is the number of
-- its instant.
use insurance_claim_ai.Prelude.{
  ℕ, String, Bool, true, false, not, ◌&&◌, Option, List, ◌==◌, if◌then◌else◌, Dict,
}
use insurance_claim_ai.Domain.Errors.{Result, ok, err, validation_error}
use insurance_claim_ai.Value.{Value, Float, lef, whole}
use insurance_claim_ai.Prelude.Int.{pos}

pub data ClaimStatus : Type 0 where
  received ocr_running ocr_done llm_running llm_done adjudicated persisted notified : ClaimStatus
  failed partial_success notify_failed : ClaimStatus

unfoldable pub ClaimStatus-discrete : Discrete ClaimStatus
ClaimStatus-discrete = hlevel

-- TERMINAL_STATUSES
abbrev pub is_terminal : ClaimStatus → Bool
is_terminal notified = true
is_terminal failed = true
is_terminal notify_failed = true
is_terminal _ = false

pub record ClaimMetadata : Type 0 where
  pub customer_id : String
  pub callback_url : String
  pub claim_type : String
  pub tenant_id : String
  pub schema_version : String
  pub attributes : Dict Value

-- The field constraints that pydantic checks in `ClaimMetadata(**fields)`: `min_length=1`.
unfoldable pub validate_metadata : ClaimMetadata → Result ClaimMetadata
validate_metadata m =
    if not (m.customer_id == "") && not (m.callback_url == "") then ok m else err validation_error

pub record Claim : Type 0 where
  pub claim_id : String
  pub status : ClaimStatus
  pub metadata : ClaimMetadata
  pub pdf_ref : Option String
  pub ocr_ref : Option String
  pub decision : Option String
  pub reason_codes : List String
  pub created_at : Option ℕ
  pub updated_at : Option ℕ

pub record ModelPrediction : Type 0 where
  pub model_name : String
  pub model_version : String
  pub output : Dict Value
  pub confidence : Float
  pub latency_ms : ℕ
  pub tokens_cost : ℕ

-- The constraint that pydantic checks in `ModelPrediction(...)`: `ge=0.0, le=1.0`, which a NaN fails.
unfoldable pub validate_prediction : ModelPrediction → Result ModelPrediction
validate_prediction p =
    if lef (whole (pos 0)) p.confidence && lef p.confidence (whole (pos 1))
    then ok p
    else err validation_error

pub record NotificationPayload : Type 0 where
  pub claim_id : String
  pub status : ClaimStatus
  pub decision : Option String
  pub reason_codes : List String
  pub predictions : List ModelPrediction
  pub idempotency_id : String
