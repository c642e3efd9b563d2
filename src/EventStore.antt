-- ===== src/EventStore.antt =====
-- claimpipe/eventstore.py, InMemoryEventStore: the log, its projection and the outbox. A method
-- that writes returns its result and the state that it leaves, also when it raises.
pub mod Frame
pub mod Invariant
pub mod Reachable
pub mod Atomic
pub mod Status
pub mod Listing
pub mod Queries
use insurance_claim_ai.Prelude.{
  ℕ, ◌+◌, String, Bool, true, false, not, ◌&&◌, Option, none, some, List, [], ◌∷◌, ◌++◌, map, ◌==◌,
  if◌then◌else◌, Dict, get, put, or_else, values, keep_if, take, any, is_yes,
}
use insurance_claim_ai.Domain.Errors.{Result, ok, err, key_error}
use insurance_claim_ai.Domain.Models.{
  Claim, ClaimStatus, ClaimStatus-discrete, ModelPrediction, adjudicated,
}
use insurance_claim_ai.Domain.Events.{DomainEvent, EventType, Payload, predictions_ready}
use insurance_claim_ai.Projection.{project}

-- A row of the outbox.
pub record OutboxRow : Type 0 where
  pub event : DomainEvent
  pub published : Bool

pub record EventStore : Type 0 where
  pub claims : Dict Claim
  pub events : Dict (List DomainEvent)
  pub seq : Dict ℕ
  pub idem : Dict String
  pub outbox : List OutboxRow
  pub predictions : Dict (List ModelPrediction)

abbrev pub empty : EventStore
empty = record { claims = []; events = []; seq = []; idem = []; outbox = []; predictions = [] }

-- What the environment gives a call of `append`: `uuid4().hex` and `_now()`.
pub record Stamp : Type 0 where
  pub id : String
  pub now : ℕ

abbrev pub log_of : EventStore → String → List DomainEvent
log_of s claim_id = or_else (get s.events claim_id) []

abbrev pub seq_of : EventStore → String → ℕ
seq_of s claim_id = or_else (get s.seq claim_id) 0

-- The event that `append` builds.
abbrev pub next_event : EventStore → Stamp → String → EventType → Payload → DomainEvent
next_event s stamp claim_id type payload = record {
  event_id = stamp.id;
  claim_id = claim_id;
  seq = seq_of s claim_id + 1;
  type = type;
  payload = payload;
  occurred_at = stamp.now;
}

-- `if idempotency_key: self._idem[idempotency_key] = claim_id`: an empty key counts as none.
abbrev pub note_key : Option String → String → Dict String → Dict String
note_key none claim_id idem = idem
note_key (some key) claim_id idem = if key == "" then idem else put idem key claim_id

-- `append` after the projection: the writes up to the predictions, which do not raise.
abbrev record_claim : DomainEvent → Claim → Option String → EventStore → EventStore
record_claim e claim key s = record s {
  seq = put s.seq e.claim_id e.seq;
  claims = put s.claims e.claim_id claim;
  events = put s.events e.claim_id (log_of s e.claim_id ++ e ∷ []);
  idem = note_key key e.claim_id s.idem;
}

abbrev publish_later : DomainEvent → EventStore → EventStore
publish_later e s = record s { outbox = s.outbox ++ (record { event = e; published = false }) ∷ [] }

-- The last writes: the predictions of PREDICTIONS_READY, and the outbox.
abbrev finish :
    EventType
    → Option (List ModelPrediction)
    → DomainEvent
    → EventStore
    → Result DomainEvent × EventStore
finish predictions_ready none e s = (err key_error, s)
finish predictions_ready (some preds) e s =
    (ok e, publish_later e (record s { predictions = put s.predictions e.claim_id preds }))
finish _ preds e s = (ok e, publish_later e s)

abbrev commit :
    Result Claim → DomainEvent → Option String → EventStore → Result DomainEvent × EventStore
commit (err x) e key s = (err x, s)
commit (ok claim) e key s = finish e.type e.payload.predictions e (record_claim e claim key s)

unfoldable pub append :
    EventStore
    → Stamp
    → String
    → EventType
    → Payload
    → Option String
    → Result DomainEvent × EventStore
append s stamp claim_id type payload key =
    let e = next_event s stamp claim_id type payload in
    commit (project (get s.claims claim_id) e) e key s

-- The queries.
abbrev pub find : EventStore → String → Option Claim
find s claim_id = get s.claims claim_id

-- get_predictions. The source builds the predictions anew from their dumps; those were taken from
-- predictions that had passed pydantic, so that they pass again.
abbrev pub predictions_of : EventStore → String → List ModelPrediction
predictions_of s claim_id = or_else (get s.predictions claim_id) []

abbrev find_claim : EventStore → Option String → Option Claim
find_claim s none = none
find_claim s (some claim_id) = if claim_id == "" then none else get s.claims claim_id

unfoldable pub find_by_idempotency_key : EventStore → String → Option Claim
find_by_idempotency_key s key = find_claim s (get s.idem key)

abbrev pub keys_with : ClaimStatus → Dict Claim → List String
keys_with status [] = []
keys_with status ((k, c) ∷ d) =
    let rest = keys_with status d in
    if is_yes (ClaimStatus-discrete c.status status) then k ∷ rest else rest

unfoldable pub list_by_status : EventStore → ClaimStatus → List String
list_by_status s status = keys_with status s.claims

abbrev pub is_decision : String → Option String → Bool
is_decision d none = false
is_decision d (some e) = e == d

-- `c.decision == "PEND" and c.status == ClaimStatus.ADJUDICATED`
abbrev pub awaits_review : Claim → Bool
awaits_review c =
    is_decision "PEND" c.decision && is_yes (ClaimStatus-discrete c.status adjudicated)

unfoldable pub list_pending_review : EventStore → List Claim
list_pending_review s = keep_if awaits_review (values s.claims)

abbrev pub is_unpublished : OutboxRow → Bool
is_unpublished o = not o.published

abbrev pub row_event : OutboxRow → DomainEvent
row_event o = o.event

abbrev pub unpublished : List OutboxRow → List DomainEvent
unpublished rows = map row_event (keep_if is_unpublished rows)

unfoldable pub fetch_unpublished : EventStore → ℕ → List DomainEvent
fetch_unpublished s limit = take limit (unpublished s.outbox)

abbrev pub mark_row : List String → OutboxRow → OutboxRow
mark_row ids o = if any (λ i. i == o.event.event_id) ids then record o { published = true } else o

unfoldable pub mark_published : EventStore → List String → EventStore
mark_published s ids = record s { outbox = map (mark_row ids) s.outbox }
