-- ===== src/Examples/Data.antt =====
-- A claim, its log and its store, for the examples.
use insurance_claim_ai.Prelude.{ℕ, String, none, some, List, [], ◌∷◌}
use insurance_claim_ai.Domain.Models.{Claim, ClaimStatus, ClaimMetadata}
use insurance_claim_ai.Domain.Events.{
  DomainEvent, EventType, Payload, claim_received, claim_adjudicated, review_completed,
  claim_persisted, empty_payload,
}
use insurance_claim_ai.EventStore.{EventStore, Stamp, append, empty}

abbrev pub metadata_one : ClaimMetadata
metadata_one = record {
  customer_id = "acme";
  callback_url = "https://acme/hook";
  claim_type = "generic-document";
  tenant_id = "default";
  schema_version = "v1";
  attributes = [];
}

abbrev pub claim_at : ClaimStatus → Claim
claim_at status = record {
  claim_id = "c1";
  status = status;
  metadata = metadata_one;
  pdf_ref = none;
  ocr_ref = none;
  decision = none;
  reason_codes = [];
  created_at = some 1;
  updated_at = some 1;
}

abbrev pub decided_at : ClaimStatus → String → Claim
decided_at status d = record (claim_at status) { decision = some d }

abbrev pub event_of : ℕ → EventType → Payload → DomainEvent
event_of n type payload = record {
  event_id = "e";
  claim_id = "c1";
  seq = n;
  type = type;
  payload = payload;
  occurred_at = n;
}

abbrev pub receipt : Payload
receipt = record empty_payload { metadata = some metadata_one }

abbrev pub verdict : String → Payload
verdict d = record empty_payload { decision = some d; reason_codes = some ("R" ∷ []) }

-- The log of a claim with no document.
abbrev pub short_log : List DomainEvent
short_log =
    event_of 2 claim_adjudicated (verdict "PEND")
    ∷ event_of 3 review_completed (verdict "APPROVE")
    ∷ event_of 4 claim_persisted empty_payload
    ∷ []

abbrev pub stamp_one : Stamp
stamp_one = record { id = "e1"; now = 1 }

abbrev pub stamp_two : Stamp
stamp_two = record { id = "e2"; now = 2 }

-- A store with one claim in it, at a status.
abbrev pub store_at : Claim → EventStore
store_at c = record {
  claims = ("c1", c) ∷ [];
  events = [];
  seq = [];
  idem = ("k1", "c1") ∷ [];
  outbox = [];
  predictions = [];
}

-- A store after the receipt of one claim.
abbrev pub one_claim : EventStore
one_claim = (append empty stamp_one "c1" claim_received receipt (some "k1")).1

-- Its record, read off.
abbrev pub one_event : DomainEvent
one_event = record {
  event_id = "e1";
  claim_id = "c1";
  seq = 1;
  type = claim_received;
  payload = receipt;
  occurred_at = 1;
}
