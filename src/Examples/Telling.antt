-- ===== src/Examples/Telling.antt =====
-- The notifier and the outbound documents at concrete inputs.
use insurance_claim_ai.Prelude.{
  ◌⊎◌, ◌≡◌, inl, refl, String, true, false, some, [], ◌++◌, get, nat_eq,
}
use insurance_claim_ai.Domain.Errors.{ok, err, illegal_transition}
use insurance_claim_ai.Domain.Models.{Claim, persisted, notified}
use insurance_claim_ai.Examples.Data.{claim_at, stamp_two, store_at}
use insurance_claim_ai.Notifier.{Desk, Service, request_of, notify}
use insurance_claim_ai.Notifier.Delivery.{copies, first_taken}
use insurance_claim_ai.Notifier.Outcome.{notify_lem, notify_again, IsReported, outcome_status}
use insurance_claim_ai.Notifier.Pauses.{waits, notify-pauses}
use insurance_claim_ai.Prelude.{length, ◌≤◌, ◌+◌}
use insurance_claim_ai.EventStore.{EventStore, append, list_by_status}
use insurance_claim_ai.EventStore.Reachable.{Reachable, start, append_step}
use insurance_claim_ai.Domain.Models.{ClaimStatus, ClaimStatus-discrete}
use insurance_claim_ai.Projection.{project, allowed, event_status}
use insurance_claim_ai.Domain.Events.{
  DomainEvent, EventType, claim_received, claim_adjudicated, claim_persisted, empty_payload,
}
use insurance_claim_ai.Examples.Data.{one_claim, stamp_one, receipt, verdict, event_of}
use insurance_claim_ai.Notifier.{replay_failed, replay_all, retry, deliver, report}
use insurance_claim_ai.Notifier.Replay.{count_notified}
use insurance_claim_ai.Notifier.Rounds.{round, requests_of, replay_failed_lem}
use insurance_claim_ai.Notifier.Consumer.{consume}
use insurance_claim_ai.Prelude.{none, ◌∷◌, put, arith}
use insurance_claim_ai.Notifier.Chain.{run-consume}
use insurance_claim_ai.Notifier.Consumer.{Consumed}
use insurance_claim_ai.Relay.{Message, in_memory_bus, run}
use insurance_claim_ai.EventStore.{unpublished}
use insurance_claim_ai.Prelude.{List, map}
use insurance_claim_ai.EventStore.Status.{HasStatus}

-- A webhook that takes the third request.
abbrev service : Service
service = record {
  takes = λ n q. nat_eq n 2;
  secret = "s";
  max_attempts = 5;
  backs_off = true;
  hmac = λ secret body. body;
  dump = λ p. p.claim_id;
}

abbrev desk : Claim → Desk
desk c = record { store = store_at c; posted = []; pauses = [] }

notify_lem_example :
    let q = request_of service (store_at (claim_at persisted)) (claim_at persisted) "e4" in
    let (k, taken) = first_taken service.takes q 0 5 in
    let (r, t) = notify service stamp_two "c1" "e4" (desk (claim_at persisted)) in
    (r ≡ ok taken) × HasStatus t.store "c1" (outcome_status taken) × (t.posted ≡ [] ++ copies k q)
unfolding get
notify_lem_example =
    notify_lem service stamp_two "c1" "e4" (desk (claim_at persisted)) (claim_at persisted) refl
      (inl refl)

notify_again_example :
    let q = request_of service (store_at (claim_at notified)) (claim_at notified) "e4" in
    let taken = (first_taken service.takes q 0 5).1 in
    let (r, t) = notify service stamp_two "c1" "e4" (desk (claim_at notified)) in
    ((taken ≡ true)
      × (r ≡ ok true)
      × HasStatus t.store "c1" notified
      × IsReported (store_at (claim_at notified)) t.store "c1" "e4")
    ⊎ ((taken ≡ false) × (r ≡ err illegal_transition) × (t.store ≡ store_at (claim_at notified)))
unfolding get
notify_again_example =
    notify_again service stamp_two "c1" "e4" (desk (claim_at notified)) (claim_at notified) refl
      refl

notify-pauses_example :
    let q = request_of service (store_at (claim_at persisted)) (claim_at persisted) "e4" in
    let k = (first_taken service.takes q 0 5).0 in
    let t = (notify service stamp_two "c1" "e4" (desk (claim_at persisted))).1 in
    (length t.posted ≡ 0 + k) × (k ≤ 5) × (t.pauses ≡ [] ++ waits true 1 k)
unfolding get
notify-pauses_example =
    notify-pauses service stamp_two "c1" "e4" (desk (claim_at persisted)) (claim_at persisted) refl

-- A store whose claim was persisted.
abbrev persisted_store : EventStore
persisted_store =
    let one = one_claim in
    let two = (append one stamp_two "c1" claim_adjudicated (verdict "APPROVE") none).1 in
    (append two stamp_two "c1" claim_persisted empty_payload none).1

-- And whose notification failed.
abbrev failed_store : EventStore
failed_store = (append persisted_store stamp_two "c1" EventType.notify_failed empty_payload none).1

failed-Reachable : Reachable failed_store
failed-Reachable = append_step stamp_two "c1" EventType.notify_failed empty_payload none tt (
    append_step stamp_two "c1" claim_persisted empty_payload none tt (
      append_step stamp_two "c1" claim_adjudicated (verdict "APPROVE") none tt
        (append_step stamp_one "c1" claim_received receipt (some "k1") tt start)))

replay_failed_lem_example :
    let d : Desk = record { store = failed_store; posted = []; pauses = [] } in
    let ids = list_by_status failed_store ClaimStatus.notify_failed in
    let (r, t) = replay_failed service (λ n. stamp_two) d in
    let (posted, count) = round service (requests_of service failed_store ids) 0 in
    (r ≡ ok count)
    × (t.posted ≡ [] ++ posted)
    × (count_notified t.store ids ≡ count)
    × ((k : String)
        → HasStatus failed_store k ClaimStatus.notify_failed
        → HasStatus t.store k notified ⊎ HasStatus t.store k ClaimStatus.notify_failed)
    × ((k : String)
        → ¬ HasStatus failed_store k ClaimStatus.notify_failed
        → get t.store.claims k ≡ get failed_store.claims k)
replay_failed_lem_example =
    replay_failed_lem service (λ n. stamp_two)
      (record { store = failed_store; posted = []; pauses = [] }) failed-Reachable

-- The replay recovers the claim: the third post is taken.
replays :
    (replay_failed service
      (λ n. stamp_two)
      (record { store = failed_store; posted = []; pauses = [] })).0
    ≡ ok 1
unfolding replay_failed replay_all retry notify deliver report append project list_by_status get put
    ClaimStatus-discrete allowed event_status
replays = refl

abbrev announcement : DomainEvent
announcement = event_of 4 claim_persisted empty_payload

abbrev queued_store : EventStore
queued_store = record (store_at (claim_at persisted)) {
  outbox = (record { event = announcement; published = false }) ∷ [];
}

abbrev queued_desk : Desk
queued_desk = record { store = queued_store; posted = []; pauses = [] }

run-consume_example :
    (t : EventStore) × (bus : List Message) × (run in_memory_bus
        (λ e. "m")
        "topic"
        2
        queued_store
        []
        100
      ≡ some (t, bus))
    × (unpublished t.outbox ≡ [])
    × Consumed queued_desk ("c1" ∷ []) (
        consume
          (λ s. ok announcement)
          service
          (λ n. stamp_two)
          (map (λ (m : Message). m.value) bus)
          (record queued_desk { store = t }))
unfolding get
run-consume_example =
    run-consume (λ s. ok announcement) (λ e. "m") "topic" service (λ n. stamp_two) 2 100 queued_desk
      (omega arith) (omega arith) (tt, tt) (refl, tt) (refl, tt)
      (λ k there. (claim_at persisted, ground (arith, there), refl))
