-- ===== src/Notifier.antt =====
-- claimpipe/notifier.py: the consumer that tells the customer. The webhook is a function of the
-- number of the request: whether it is taken. `dump` writes the payload, `hmac` signs it.
pub mod Delivery
pub mod Outcome
pub mod Pauses
pub mod Told
pub mod Replay
pub mod Rounds
pub mod Consumer
pub mod Chain
use mathlib.Core.Logic.{ite}
use insurance_claim_ai.Prelude.{
  ℕ, zero, suc, ◌≤◌, ◌<◌, ◌+◌, ◌-◌, ◌*◌, ◌^◌, ◌≡◌, ◌≢◌, ◌⊎◌, inl, inr, refl, sym, ap, ◌∙◌, ◌↔◌,
  String, Bool, true, false, not, ◌&&◌, ◌||◌, Option, none, some, List, [], ◌∷◌, ◌++◌, map, arith,
  any, all, All, if◌then◌else◌, or_else, length, ◌==◌, eq_iff, eq_refl, Dict, get, put, has,
  get-put, get-put_self, get-put_ne, get-empty, keep_if, keep_if-append, is_some, is_yes,
  Bool-cases, Option-cases, length-append, take, drop, values, append-nil, append_assoc, ltb, leb,
  nat_eq,
}
use insurance_claim_ai.Prelude.Int.{ℤ, pos, negsuc}
use insurance_claim_ai.Domain.Errors.{
  Result, ok, err, Error, illegal_transition, invalid_pipeline, unknown_claim_type, unknown_tenant,
  intake_error, output_error, key_error, value_error, type_error, overflow_error, assertion_error,
  validation_error, delivery_error, timeout_error, activity_error, unauthorized, forbidden,
  not_found, bad_request, conflict, unprocessable, >>=-eq-ok, is_ok, guard, require, Result-cases,
  ok-injective,
}
use insurance_claim_ai.Value.{
  Value, Float, bool, int, float, str, null, list, dict, field, end, nan, finite, inf, neg_inf, ltf,
  lef, eq, whole, unit, eqf,
}
use insurance_claim_ai.Domain.Models.{
  Claim, ClaimStatus, ClaimMetadata, ClaimStatus-discrete, received, ocr_running, ocr_done,
  llm_running, llm_done, adjudicated, persisted, notified, failed, partial_success, ModelPrediction,
}
use insurance_claim_ai.Domain.Events.{
  DomainEvent, EventType, Payload, claim_received, ocr_started, ocr_completed, claim_failed,
  llm_started, predictions_ready, claim_adjudicated, review_completed, claim_persisted,
  metadata_logged, claim_notified, empty_payload,
}
use insurance_claim_ai.EventStore.{
  EventStore, Stamp, append, find, predictions_of, list_by_status, next_event,
}
use insurance_claim_ai.Projection.{project, event_status, allowed}
use insurance_claim_ai.Projection.Diagram.{IsComplete, MayMove, project-ok_iff}
use insurance_claim_ai.EventStore.Frame.{IsWritable, Appended, append-Appended, append-is_ok}
use insurance_claim_ai.Domain.Models.{NotificationPayload}
use Prim.Native.String as Text

abbrev pub sign : (String → String → String) → String → String → String
sign hmac secret body = hmac secret body

-- `hmac.compare_digest`
abbrev pub verify : (String → String → String) → String → String → String → Bool
verify hmac secret body signature = sign hmac secret body == signature

pub record Request : Type 0 where
  pub url : String
  pub body : String
  pub signature : String

-- The store, the requests that were posted, and the pauses, each by its factor of the backoff.
pub record Desk : Type 0 where
  pub store : EventStore
  pub posted : List Request
  pub pauses : List ℕ

-- NotificationService.__init__ and its environment: how the n-th request fares, and the id and time
-- that a call is given.
pub record Service : Type 0 where
  pub takes : ℕ → Request → Bool
  pub secret : String
  pub max_attempts : ℕ
  pub backs_off : Bool
  pub hmac : String → String → String
  pub dump : NotificationPayload → String

abbrev pub post : Request → Desk → Desk
post q d = record d { posted = d.posted ++ q ∷ [] }

abbrev pub pause : Bool → ℕ → ℕ → Desk → Desk
pause backs_off left attempt d =
    if ltb 0 left && backs_off then record d { pauses = d.pauses ++ attempt ∷ [] } else d

-- The loop over the attempts: `left` of them, from the number `attempt`.
unfoldable pub deliver : Service → Request → ℕ → ℕ → Desk → Bool × Desk
deliver sv q zero attempt d = (false, d)
deliver sv q (suc left) attempt d =
    let again = deliver sv q left (attempt + 1) (pause sv.backs_off left attempt (post q d)) in
    if sv.takes (length d.posted) q then (true, post q d) else again

abbrev pub payload_of : EventStore → Claim → String → NotificationPayload
payload_of s c idempotency_id = record {
  claim_id = c.claim_id;
  status = c.status;
  decision = c.decision;
  reason_codes = c.reason_codes;
  predictions = predictions_of s c.claim_id;
  idempotency_id = idempotency_id;
}

abbrev pub request_of : Service → EventStore → Claim → String → Request
request_of sv s c idempotency_id =
    let body = sv.dump (payload_of s c idempotency_id) in
    record { url = c.metadata.callback_url; body = body; signature = sign sv.hmac sv.secret body }

abbrev pub outcome_type : Bool → EventType
outcome_type true = claim_notified
outcome_type false = EventType.notify_failed

abbrev pub outcome_payload : Bool → String → Payload
outcome_payload true i = record empty_payload { idempotency_id = some i }
outcome_payload false i = record empty_payload {
  idempotency_id = some i;
  reason = some "delivery_exhausted";
}

abbrev pub answer : {A : Type 0} → Bool → Result A → Result Bool
answer delivered (ok e) = ok delivered
answer delivered (err x) = err x

-- The end of `_notify`: the event for the outcome.
unfoldable pub report : Stamp → String → String → Bool → Desk → Result Bool × Desk
report stamp claim_id idempotency_id delivered d =
    let (r, store) =
      append d.store stamp claim_id (outcome_type delivered)
        (outcome_payload delivered idempotency_id) none in
    (answer delivered r, record d { store = store })

abbrev pub notify_claim :
    Service → Stamp → String → String → Option Claim → Desk → Result Bool × Desk
notify_claim sv stamp claim_id idempotency_id none d = (ok false, d)
notify_claim sv stamp claim_id idempotency_id (some c) d =
    let (delivered, d') = deliver sv (request_of sv d.store c idempotency_id) sv.max_attempts 1 d in
    report stamp claim_id idempotency_id delivered d'

-- NotificationService._notify
unfoldable pub notify : Service → Stamp → String → String → Desk → Result Bool × Desk
notify sv stamp claim_id idempotency_id d =
    notify_claim sv stamp claim_id idempotency_id (get d.store.claims claim_id) d

abbrev pub handle_type : EventType → Service → Stamp → DomainEvent → Desk → Result (Unit {0}) × Desk
handle_type claim_persisted sv stamp e d =
    let (r, d') = notify sv stamp e.claim_id e.event_id d in
    (elim r [ ok b ↦ ok tt | err x ↦ err x ], d')
handle_type _ sv stamp e d = (ok tt, d)

-- NotificationService.handle_event
unfoldable pub handle_event : Service → Stamp → DomainEvent → Desk → Result (Unit {0}) × Desk
handle_event sv stamp e d = handle_type e.type sv stamp e d

-- NotificationService.retry
unfoldable pub retry : Service → Stamp → String → Desk → Result Bool × Desk
retry sv stamp claim_id d = notify sv stamp claim_id (Text.◌++◌ "retry-" claim_id) d

abbrev pub tally : Result Bool → ℕ → Result ℕ
tally (ok true) n = ok (n + 1)
tally (ok false) n = ok n
tally (err x) n = err x

abbrev go_on : Result ℕ → Desk → (ℕ → Desk → Result ℕ × Desk) → Result ℕ × Desk
go_on (ok n) d f = f n d
go_on (err x) d f = (err x, d)

-- The loop of replay_failed_notifications; an exception ends it.
unfoldable pub replay_all : Service → (ℕ → Stamp) → List String → ℕ → Desk → Result ℕ × Desk
replay_all sv stamps [] recovered d = (ok recovered, d)
replay_all sv stamps (claim_id ∷ others) recovered d =
    let (r, d') = retry sv (stamps (length others)) claim_id d in
    go_on (tally r recovered) d' (replay_all sv stamps others)

unfoldable pub replay_failed : Service → (ℕ → Stamp) → Desk → Result ℕ × Desk
unfolding replay_all
replay_failed sv stamps d =
    replay_all sv stamps (list_by_status d.store ClaimStatus.notify_failed) 0 d
