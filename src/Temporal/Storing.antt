-- ===== src/Temporal/Storing.antt =====
-- Where an event that an activity stores leaves its claim.
use mathlib.Core.Path.{subst}
use insurance_claim_ai.Prelude.{
  ◌≡◌, ◌≢◌, ◌⊎◌, inl, inr, refl, ap, ◌∙◌, String, true, none, some, arith, get, get-put_self,
}
use insurance_claim_ai.Domain.Errors.{Result, Error, is_ok, Result-cases}
use insurance_claim_ai.Domain.Models.{Claim, ClaimStatus}
use insurance_claim_ai.Domain.Events.{DomainEvent, EventType, Payload, claim_received}
use insurance_claim_ai.EventStore.{EventStore, append}
use insurance_claim_ai.Projection.{project}
use insurance_claim_ai.Temporal.Action.{Ensures, World, Services}
use insurance_claim_ai.Temporal.Activities.{append_event}
use insurance_claim_ai.Projection.{event_status, allowed}
use insurance_claim_ai.Projection.Diagram.{IsComplete, MayMove, project-ok_iff}
use insurance_claim_ai.EventStore.Frame.{IsWritable, append-Appended, append-is_ok}
use insurance_claim_ai.EventStore.{next_event}
use insurance_claim_ai.Temporal.Faults.{Safe}
use insurance_claim_ai.EventStore.Status.{target, project-target}

-- The claim is there, at a status.
abbrev pub At : String → ClaimStatus → World → Type 0
At claim_id status w = (c : Claim) × (get w.store.claims claim_id ≡ some c) × (c.status ≡ status)

module _ (sv : Services) (claim_id : String) (type : EventType) (payload : Payload)
    (other : type ≢ claim_received) (complete : IsComplete type payload)
    (writable : IsWritable type payload) where
  -- A legal event is stored, and leaves the claim at its target.
  pub append_event-At :
      (E : Error → World → Type 0) (w : World) (c : Claim)
      → get w.store.claims claim_id ≡ some c
      → MayMove c.status (event_status type)
      → Ensures E
          (λ u t. At claim_id (target c.status (event_status type)) t)
          (append_event sv claim_id type payload w)
  unfolding append_event
  append_event-At E w c there may =
      let accepted : is_ok (project (get w.store.claims claim_id) e) ≡ true =
        rw there ((project-ok_iff c e).1 (other, complete, may)) in
      let stored =
        append-is_ok w.store (sv.stamp w.calls) claim_id type payload none accepted writable in
      elim (Result-cases r.0) [
        | inl (d, done) ↦
            let a =
              append-Appended w.store (sv.stamp w.calls) claim_id type payload none d r.1
                (ground (arith, done)) in
            rw done (
              a.claim,
              rw a.claims_eq (get-put_self w.store.claims claim_id a.claim),
              project-target c a.claim d (rw (← there) a.projected)
                  ∙ ap (λ (x : DomainEvent). target c.status (event_status x.type)) a.event_eq,
            )
        | inr (x, refused) ↦ absurd (ground (arith, stored, refused))
      ]
    where
      e : DomainEvent
      e = next_event w.store (sv.stamp w.calls) claim_id type payload

      r : Result DomainEvent × EventStore
      r = append w.store (sv.stamp w.calls) claim_id type payload none

-- Before or after a move.
abbrev pub Within : String → ClaimStatus → ClaimStatus → World → Type 0
Within claim_id a b w = At claim_id a w ⊎ At claim_id b w

abbrev pub Fails : String → ClaimStatus → ClaimStatus → Error → World → Type 0
Fails claim_id a b e w = Safe e × Within claim_id a b w

pub stored_lands :
    (sv : Services) (claim_id : String) (a b : ClaimStatus) (type : EventType) (payload : Payload)
    → type ≢ claim_received
    → IsComplete type payload
    → IsWritable type payload
    → event_status type ≡ some b
    → allowed a b ≡ true
    → (w : World) → Within claim_id a b w
    → Ensures
        (Fails claim_id a b)
        (λ u t. At claim_id b t)
        (append_event sv claim_id type payload w)
stored_lands sv claim_id a b type payload other complete writable goes legal w
      (inl (c, there, at_a)) =
    subst
      (λ s.
        Ensures (Fails claim_id a b) (λ u t. At claim_id s t)
          (append_event sv claim_id type payload w))
      (ap (target c.status) goes)
      (append_event-At sv claim_id type payload other complete writable (Fails claim_id a b) w c
        there (rw (goes, at_a) (inr legal)))
stored_lands sv claim_id a b type payload other complete writable goes legal w
      (inr (c, there, at_b)) =
    subst
      (λ s.
        Ensures (Fails claim_id a b) (λ u t. At claim_id s t)
          (append_event sv claim_id type payload w))
      (ap (target c.status) goes)
      (append_event-At sv claim_id type payload other complete writable (Fails claim_id a b) w c
        there (rw (goes, at_b) (inl refl)))

-- An event that moves no status leaves it.
pub stored_stays :
    (sv : Services) (claim_id : String) (a : ClaimStatus) (type : EventType) (payload : Payload)
    → type ≢ claim_received
    → IsComplete type payload
    → IsWritable type payload
    → event_status type ≡ none
    → (w : World) → At claim_id a w
    → Ensures
        (λ e t. Safe e × At claim_id a t)
        (λ u t. At claim_id a t)
        (append_event sv claim_id type payload w)
stored_stays sv claim_id a type payload other complete writable stays w (c, there, at_a) =
    subst
      (λ s.
        Ensures (λ e t. Safe e × At claim_id a t) (λ u t. At claim_id s t)
          (append_event sv claim_id type payload w))
      (ap (target c.status) stays ∙ at_a)
      (append_event-At sv claim_id type payload other complete writable
        (λ e t. Safe e × At claim_id a t) w c there (rw stays tt))
