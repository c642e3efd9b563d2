-- ===== src/Relay.antt =====
-- claimpipe/relay.py and claimpipe/adapters/bus.py: the outbox published to a bus.
pub mod Outbox
pub mod Delivery
use insurance_claim_ai.Prelude.{
  nat_eq, zero, suc, ℕ, ◌≤◌, ◌<◌, ◌+◌, ◌≡◌, ◌≢◌, ◌⊎◌, inl, inr, refl, sym, ap, ◌∙◌, ◌↔◌, String,
  Bool, true, false, not, ◌&&◌, ◌||◌, Option, none, some, List, [], ◌∷◌, ◌++◌, map, arith, any,
  if◌then◌else◌, or_else, length, ◌==◌, eq_iff, eq_refl, Dict, get, put, get-put, get-put_self,
  get-put_ne, get-empty, keep_if, keep_if-append, is_some, is_yes, Bool-cases, Option-cases,
  length-append, take, drop, values, append-nil, append_assoc,
}
use insurance_claim_ai.Domain.Errors.{
  Result, ok, err, Error, illegal_transition, key_error, validation_error, >>=-eq-ok, is_ok, ◌>>=◌,
  Result-cases,
}
use insurance_claim_ai.Domain.Models.{
  Claim, ClaimStatus, ClaimMetadata, ClaimStatus-discrete, received, ocr_running, ocr_done,
  llm_running, llm_done, adjudicated, persisted, notified, failed, partial_success, is_terminal,
  ModelPrediction,
}
use insurance_claim_ai.Domain.Events.{
  DomainEvent, EventType, Payload, claim_received, ocr_started, ocr_completed, claim_failed,
  llm_started, predictions_ready, claim_adjudicated, review_completed, claim_persisted,
  metadata_logged, claim_notified,
}
use insurance_claim_ai.Projection.{project, replay_from, replay}
use insurance_claim_ai.EventStore.{
  EventStore, OutboxRow, Stamp, empty, log_of, seq_of, next_event, note_key, append, find,
  predictions_of, find_by_idempotency_key, list_by_status, is_decision, awaits_review,
  list_pending_review, is_unpublished, row_event, unpublished, fetch_unpublished, mark_row,
  mark_published,
}

-- The interface MessageBus: `publish` may raise, and keeps what it did before.
pub record MessageBus : Type 1 where
  pub Bus : Type 0
  pub publish : Bus → String → String → String → Result (Unit {0}) × Bus

-- InMemoryBus: the list of published messages.
pub record Message : Type 0 where
  pub topic : String
  pub key : String
  pub value : String

abbrev pub in_memory_bus : MessageBus
in_memory_bus = record {
  Bus = List Message;
  publish = λ bus topic key value.
      (ok tt, bus ++ (record { topic = topic; key = key; value = value }) ∷ []);
}

abbrev pub ids_of : List DomainEvent → List String
ids_of log = map (λ e. e.event_id) log

-- `if events: await self._store.mark_published(...)`
abbrev pub mark_sent : EventStore → List DomainEvent → EventStore
mark_sent s [] = s
mark_sent s (e ∷ log) = mark_published s (ids_of (e ∷ log))

-- `dump` is pydantic's `model_dump_json().encode()`.
module _ (bus : MessageBus) (dump : DomainEvent → String) (topic : String) where
  -- `for ev in events: await self._bus.publish(...)`, which ends at the first failure.
  unfoldable pub publish_all : bus.Bus → List DomainEvent → Result (Unit {0}) × bus.Bus
  publish_all b [] = (ok tt, b)
  publish_all b (e ∷ log) =
      let (r, b') = bus.publish b topic e.claim_id (dump e) in
      elim r [ ok u ↦ publish_all b' log | err x ↦ (err x, b') ]

  unfoldable pub run_once : EventStore → bus.Bus → ℕ → Result ℕ × EventStore × bus.Bus
  run_once s b batch =
      let events = fetch_unpublished s batch in
      let (r, b') = publish_all b events in
      elim r [ ok u ↦ (ok (length events), mark_sent s events, b') | err x ↦ (err x, s, b') ]

  abbrev continue :
      Result ℕ
      → EventStore
      → bus.Bus
      → (EventStore × bus.Bus → Option (EventStore × bus.Bus))
      → Option (EventStore × bus.Bus)
  continue (ok n) s b again = if nat_eq n 0 then some (s, b) else again (s, b)
  continue (err x) s b again = none

  -- The rounds of `run` up to the first that finds nothing to publish, after which it sleeps.
  -- `none`: the fuel is used up, or the bus raised, which ends the process.
  unfoldable pub run : ℕ → EventStore → bus.Bus → ℕ → Option (EventStore × bus.Bus)
  run zero s b batch = none
  run (suc fuel) s b batch =
      let (r, s', b') = run_once s b batch in continue r s' b' (λ q. run fuel q.0 q.1 batch)
