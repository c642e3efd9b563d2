-- ===== src/EventStore/Status.antt =====
-- The status behind an `append` that the projection accepts.
use insurance_claim_ai.Prelude.{
  ◌≡◌, ◌≢◌, inl, inr, ap, ◌∙◌, String, true, Option, none, some, arith, get, get-put_self,
}
use insurance_claim_ai.Domain.Errors.{Result, ok, is_ok, Result-cases}
use insurance_claim_ai.Domain.Models.{Claim, ClaimStatus}
use insurance_claim_ai.Domain.Events.{DomainEvent, EventType, Payload, claim_received}
use insurance_claim_ai.EventStore.{EventStore, Stamp, append, next_event}
use insurance_claim_ai.Projection.{project, event_status}
use insurance_claim_ai.Projection.Diagram.{IsComplete, MayMove, project-ok_iff}
use insurance_claim_ai.EventStore.Frame.{IsWritable, append-Appended, append-is_ok}

-- The status that an event leads to.
abbrev pub target : ClaimStatus → Option ClaimStatus → ClaimStatus
target s none = s
target s (some t) = t

pub project-target :
    (c c' : Claim) (e : DomainEvent)
    → project (some c) e ≡ ok c'
    → c'.status ≡ target c.status (event_status e.type)
unfolding project
project-target c c' e h = ground arith

-- The claim is in the store, at a status.
abbrev pub HasStatus : EventStore → String → ClaimStatus → Type 0
HasStatus s claim_id status = (c : Claim) × (get s.claims claim_id ≡ some c) × (c.status ≡ status)

-- A legal event with what its type reads is stored, and leaves the claim at its target.
pub append-HasStatus :
    (s : EventStore) (stamp : Stamp) (claim_id : String) (type : EventType) (payload : Payload)
    (key : Option String) (c : Claim)
    → type ≢ claim_received
    → IsComplete type payload
    → IsWritable type payload
    → get s.claims claim_id ≡ some c
    → MayMove c.status (event_status type)
    → (e : DomainEvent) × ((append s stamp claim_id type payload key).0 ≡ ok e)
      × HasStatus
          (append s stamp claim_id type payload key).1
          claim_id
          (target c.status (event_status type))
append-HasStatus s stamp claim_id type payload key c other complete writable there may =
    let accepted : is_ok (project (get s.claims claim_id) e) ≡ true =
      rw there ((project-ok_iff c e).1 (other, complete, may)) in
    let stored = append-is_ok s stamp claim_id type payload key accepted writable in
    elim (Result-cases r.0) [
      | inl (d, done) ↦
          let a = append-Appended s stamp claim_id type payload key d r.1 (ground (arith, done)) in
          (
            d,
            done,
            (
              a.claim,
              rw a.claims_eq (get-put_self s.claims claim_id a.claim),
              project-target c a.claim d (rw (← there) a.projected)
                  ∙ ap (λ (x : DomainEvent). target c.status (event_status x.type)) a.event_eq,
            ),
          )
      | inr (x, refused) ↦ absurd (ground (arith, stored, refused))
    ]
  where
    e : DomainEvent
    e = next_event s stamp claim_id type payload

    r : Result DomainEvent × EventStore
    r = append s stamp claim_id type payload key
