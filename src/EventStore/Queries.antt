-- ===== src/EventStore/Queries.antt =====
-- What the queries of the store answer.
use insurance_claim_ai.Prelude.{◌≡◌, String, false, some, arith, ◌==◌, get, get-put_self}
use insurance_claim_ai.Domain.Errors.{ok}
use insurance_claim_ai.Domain.Events.{DomainEvent, EventType, Payload}
use insurance_claim_ai.EventStore.{EventStore, Stamp, append, find_by_idempotency_key}
use insurance_claim_ai.EventStore.Frame.{append-Appended}

-- A key that is not empty, of an accepted event, leads to the event's claim.
pub find-append_key :
    (s : EventStore) (stamp : Stamp) (claim_id k : String) (type : EventType) (payload : Payload)
    (e : DomainEvent) (t : EventStore)
    → append s stamp claim_id type payload (some k) ≡ (ok e, t)
    → (k == "") ≡ false
    → (claim_id == "") ≡ false
    → find_by_idempotency_key t k ≡ get t.claims claim_id
unfolding find_by_idempotency_key
find-append_key s stamp claim_id k type payload e t h nonempty named =
    let a = append-Appended s stamp claim_id type payload (some k) e t h in
    ground (arith, a.idem_eq, get-put_self s.idem k claim_id)
