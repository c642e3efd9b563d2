-- ===== src/Projection.antt =====
-- claimpipe/projection.py: one event folded into the claim read model, with the transition check.
pub mod Diagram
pub mod Replay
pub mod Fields
pub mod Redelivery
use mathlib.Core.Logic.{ite}
use insurance_claim_ai.Prelude.{
  String, Bool, true, false, Option, none, some, List, [], ◌∷◌, if◌then◌else◌, or_else,
}
use insurance_claim_ai.Domain.Errors.{
  Result, ok, err, require, illegal_transition, key_error, ◌>>=◌,
}
use insurance_claim_ai.Domain.Models.{
  Claim, ClaimStatus, ClaimStatus-discrete, ClaimMetadata, validate_metadata, received, ocr_running,
  ocr_done, llm_running, llm_done, adjudicated, persisted, notified, failed, partial_success,
}
use insurance_claim_ai.Domain.Events.{
  DomainEvent, EventType, Payload, claim_received, ocr_started, ocr_completed, claim_failed,
  llm_started, predictions_ready, claim_adjudicated, review_completed, claim_persisted,
  claim_notified,
}

-- ALLOWED: the legal moves, `b in ALLOWED.get(a, set())`.
unfoldable pub allowed : ClaimStatus → ClaimStatus → Bool
allowed received ocr_running = true
allowed received adjudicated = true
allowed received persisted = true
allowed received failed = true
allowed ocr_running ocr_done = true
allowed ocr_running failed = true
allowed ocr_done llm_running = true
allowed ocr_done adjudicated = true
allowed ocr_done persisted = true
allowed ocr_done failed = true
allowed llm_running llm_done = true
allowed llm_running partial_success = true
allowed llm_running failed = true
allowed llm_done adjudicated = true
allowed llm_done persisted = true
allowed llm_done failed = true
allowed partial_success adjudicated = true
allowed partial_success persisted = true
allowed partial_success failed = true
allowed adjudicated persisted = true
allowed adjudicated failed = true
allowed persisted notified = true
allowed persisted ClaimStatus.notify_failed = true
allowed ClaimStatus.notify_failed notified = true
allowed _ _ = false

-- _EVENT_STATUS: the status that an event moves the claim to, if it moves it.
unfoldable pub event_status : EventType → Option ClaimStatus
event_status ocr_started = some ocr_running
event_status ocr_completed = some ocr_done
event_status llm_started = some llm_running
event_status predictions_ready = some llm_done
event_status claim_adjudicated = some adjudicated
event_status claim_persisted = some persisted
event_status claim_notified = some notified
event_status claim_failed = some failed
event_status EventType.notify_failed = some ClaimStatus.notify_failed
event_status _ = none

-- The decision and the reason codes that a verdict carries.
abbrev decide_claim : Payload → Claim → Result Claim
decide_claim p c = do
  d ← require p.decision key_error
  ok (record c { decision = some d; reason_codes = or_else p.reason_codes [] })

-- The fields that an event updates.
update_fields : EventType → Payload → Claim → Result Claim
update_fields ocr_completed p c = do
  ref ← require p.ocr_ref key_error
  ok (record c { ocr_ref = some ref })
update_fields claim_adjudicated p c = decide_claim p c
update_fields review_completed p c = decide_claim p c
update_fields _ p c = ok c

-- The transition check: a move to the status that the claim has is no move.
move_to : Option ClaimStatus → Claim → Result Claim
move_to none c = ok c
move_to (some s) c =
    ite (ClaimStatus-discrete s c.status) (ok c)
      (if allowed c.status s then ok (record c { status = s }) else err illegal_transition)

-- The claim that CLAIM_RECEIVED opens.
opened : DomainEvent → Result Claim
opened event = do
  given ← require event.payload.metadata key_error
  meta ← validate_metadata given
  ok (record {
    claim_id = event.claim_id;
    status = received;
    metadata = meta;
    pdf_ref = none;
    ocr_ref = none;
    decision = none;
    reason_codes = [];
    created_at = some event.occurred_at;
    updated_at = some event.occurred_at;
  })

-- An event on a claim that is there.
abbrev amend : DomainEvent → Claim → Result Claim
amend event c = do
  c' ← update_fields event.type event.payload (record c { updated_at = some event.occurred_at })
  move_to (event_status event.type) c'

abbrev dispatch : EventType → Option Claim → DomainEvent → Result Claim
dispatch claim_received none event = opened event
dispatch claim_received (some c) event = err illegal_transition
dispatch _ none event = err illegal_transition
dispatch _ (some c) event = amend event c

unfoldable pub project : Option Claim → DomainEvent → Result Claim
unfolding allowed event_status update_fields move_to opened validate_metadata
project claim event = dispatch event.type claim event

-- The log of a claim, folded from nothing.
unfoldable pub replay_from : Option Claim → List DomainEvent → Result (Option Claim)
replay_from claim [] = ok claim
replay_from claim (e ∷ log) = do c ← project claim e; replay_from (some c) log

abbrev pub replay : List DomainEvent → Result (Option Claim)
replay log = replay_from none log
