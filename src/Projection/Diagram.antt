-- ===== src/Projection/Diagram.antt =====
-- The status machine of the projection as a diagram: which events it accepts, which moves they make.
use insurance_claim_ai.Prelude.{
  ℕ, ◌<◌, ◌≡◌, ◌≢◌, ◌⊎◌, inl, inr, ◌↔◌, true, Option, none, some, arith, is_some,
}
use insurance_claim_ai.Domain.Errors.{ok, is_ok}
use insurance_claim_ai.Domain.Models.{
  Claim, ClaimStatus, received, ocr_running, ocr_done, llm_running, llm_done, adjudicated,
  persisted, notified, failed, partial_success,
}
use insurance_claim_ai.Domain.Events.{
  DomainEvent, EventType, Payload, claim_received, ocr_completed, claim_adjudicated,
  review_completed,
}
use insurance_claim_ai.Projection.{project, allowed, event_status}

-- The payload has the keys that the projection reads for the event's type.
abbrev pub IsComplete : EventType → Payload → Type 0
IsComplete ocr_completed p = is_some p.ocr_ref ≡ true
IsComplete claim_adjudicated p = is_some p.decision ≡ true
IsComplete review_completed p = is_some p.decision ≡ true
IsComplete _ p = Unit {0}

-- The status may go where the event sends it.
abbrev pub MayMove : ClaimStatus → Option ClaimStatus → Type 0
MayMove s none = Unit {0}
MayMove s (some t) = (t ≡ s) ⊎ (allowed s t ≡ true)

-- A claim that is there accepts an event exactly when the event does not open a claim, its payload
-- is complete, and its target status is the present one or a move of the table.
pub project-ok_iff :
    (c : Claim) (e : DomainEvent)
    → (is_ok (project (some c) e) ≡ true) ↔ (
        (e.type ≢ claim_received)
        × IsComplete e.type e.payload
        × MayMove c.status (event_status e.type))
unfolding project
project-ok_iff c e = (ground arith, ground arith)

-- An accepted event keeps the status or moves it along an edge of the table.
pub project-allowed :
    (c c' : Claim) (e : DomainEvent)
    → project (some c) e ≡ ok c'
    → (c'.status ≡ c.status) ⊎ (allowed c.status c'.status ≡ true)
unfolding project
project-allowed c c' e h = ground arith

-- How far a claim has come.
abbrev pub rank : ClaimStatus → ℕ
rank received = 0
rank ocr_running = 1
rank ocr_done = 2
rank llm_running = 3
rank llm_done = 4
rank partial_success = 4
rank adjudicated = 5
rank persisted = 6
rank ClaimStatus.notify_failed = 7
rank notified = 8
rank failed = 9

pub allowed-rank : (s t : ClaimStatus) → allowed s t ≡ true → rank s < rank t
unfolding allowed
allowed-rank s t h = ground arith

pub project-rank :
    (c c' : Claim) (e : DomainEvent)
    → project (some c) e ≡ ok c'
    → (c'.status ≡ c.status) ⊎ (rank c.status < rank c'.status)
project-rank c c' e h = elim (project-allowed c c' e h) [
  | inl same ↦ inl same
  | inr moved ↦ inr (allowed-rank c.status c'.status moved)
]
