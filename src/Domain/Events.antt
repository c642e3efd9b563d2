-- ===== src/Domain/Events.antt =====
-- claimpipe/domain/events.py: the events of the append-only log. A payload is the dict of the
-- keys that the program writes or reads, each absent (`none`) or at its value.
use insurance_claim_ai.Prelude.{ℕ, String, Bool, Option, none, List, Dict}
use insurance_claim_ai.Value.{Value}
use insurance_claim_ai.Domain.Models.{ClaimMetadata, ModelPrediction}

pub data EventType : Type 0 where
  claim_received metadata_logged ocr_started ocr_completed claim_failed : EventType
  llm_started predictions_ready claim_adjudicated review_completed claim_persisted : EventType
  claim_notified notify_failed : EventType

unfoldable pub EventType-discrete : Discrete EventType
EventType-discrete = hlevel

pub record Payload : Type 0 where
  pub metadata : Option ClaimMetadata
  pub ocr_ref : Option String
  pub decision : Option String
  pub reason_codes : Option (List String)
  pub rule_id : Option String
  pub rule_set : Option String
  pub rule_set_version : Option String
  pub facts : Option (Dict Value)
  pub reviewer : Option String
  pub predictions : Option (List ModelPrediction)
  pub escalated : Option Bool
  pub reason : Option String
  pub idempotency_id : Option String

-- `{}`
abbrev pub empty_payload : Payload
empty_payload = record {
  metadata = none;
  ocr_ref = none;
  decision = none;
  reason_codes = none;
  rule_id = none;
  rule_set = none;
  rule_set_version = none;
  facts = none;
  reviewer = none;
  predictions = none;
  escalated = none;
  reason = none;
  idempotency_id = none;
}

pub record DomainEvent : Type 0 where
  pub event_id : String
  pub claim_id : String
  pub seq : ℕ
  pub type : EventType
  pub payload : Payload
  pub occurred_at : ℕ
