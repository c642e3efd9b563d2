-- ===== src/EventStore/Reachable.antt =====
-- The agreement of the store's parts over any history of calls.
use insurance_claim_ai.Prelude.{◌≡◌, inl, inr, refl, String, Option, List, [], ◌∷◌, map, arith, get}
use insurance_claim_ai.Domain.Errors.{Result, Result-cases}
use insurance_claim_ai.Domain.Events.{DomainEvent, EventType, Payload}
use insurance_claim_ai.Projection.{replay_from}
use insurance_claim_ai.EventStore.{
  EventStore, OutboxRow, Stamp, empty, append, row_event, mark_row, mark_published,
}
use insurance_claim_ai.EventStore.Frame.{IsWritable, append-Appended, append-err}
use insurance_claim_ai.EventStore.Invariant.{IsConsistent, Appended-IsConsistent}

-- Stored or refused, an event whose payload is complete leaves the parts of the store in agreement.
pub append-IsConsistent :
    (s : EventStore) (stamp : Stamp) (claim_id : String) (type : EventType) (payload : Payload)
    (key : Option String)
    → IsWritable type payload
    → IsConsistent s
    → IsConsistent (append s stamp claim_id type payload key).1
append-IsConsistent s stamp claim_id type payload key w c = elim (Result-cases r.0) [
  | inl (e, stored) ↦
      Appended-IsConsistent s stamp claim_id type payload key e r.1
        (append-Appended s stamp claim_id type payload key e r.1 (ground (arith, stored))) c
  | inr (x, refused) ↦
      rw (append-err s stamp claim_id type payload key x r.1 w (ground (arith, refused))).0 c
]
  where
    r : Result DomainEvent × EventStore
    r = append s stamp claim_id type payload key

pub empty-IsConsistent : IsConsistent empty
unfolding get replay_from
empty-IsConsistent = record {
  folded = λ k. refl;
  counted = λ k. refl;
  numbered = λ k. tt;
  queued = λ k. refl;
  predicted = λ k. refl;
  keyed = λ k j found. cc;
}

events-mark_row :
    (ids : List String) (rows : List OutboxRow)
    → map row_event (map (mark_row ids) rows) ≡ map row_event rows
events-mark_row ids [] = refl
events-mark_row ids (o ∷ rows) = ground (arith, events-mark_row ids rows)

pub mark_published-IsConsistent :
    (s : EventStore) (ids : List String) → IsConsistent s → IsConsistent (mark_published s ids)
unfolding mark_published
mark_published-IsConsistent s ids c = record {
  folded = c.folded;
  counted = c.counted;
  numbered = c.numbered;
  queued = λ k. rw events-mark_row (c.queued k);
  predicted = c.predicted;
  keyed = c.keyed;
}

-- The states that calls with complete payloads lead to, from an empty store.
pub data Reachable : EventStore → Type 0 where
  start : Reachable empty
  append_step :
      {s : EventStore} (stamp : Stamp) (claim_id : String) (type : EventType) (payload : Payload)
      (key : Option String)
      → IsWritable type payload
      → Reachable s
      → Reachable (append s stamp claim_id type payload key).1
  relayed : {s : EventStore} (ids : List String) → Reachable s → Reachable (mark_published s ids)

-- In every reachable store each claim is the fold of its log, the log is numbered 1, 2, ... without
-- a gap, the outbox holds each event of it once and in order, the predictions are those of the last
-- PREDICTIONS_READY, and every idempotency key leads to a claim that is there.
pub Reachable-IsConsistent : (s : EventStore) → Reachable s → IsConsistent s
Reachable-IsConsistent s start = empty-IsConsistent
Reachable-IsConsistent s (append_step {s = r} stamp claim_id type payload key w h) =
    append-IsConsistent r stamp claim_id type payload key w (Reachable-IsConsistent r h)
Reachable-IsConsistent s (relayed {s = r} ids h) =
    mark_published-IsConsistent r ids (Reachable-IsConsistent r h)
