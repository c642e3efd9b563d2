-- ===== src/Temporal/Keeping.antt =====
-- What the activities never lose: the metadata of the claim, the documents, the text of the OCR.
use insurance_claim_ai.Prelude.{
  ◌≡◌, inl, inr, refl, ◌∙◌, String, Bool, true, Option, none, some, List, [], ◌∷◌, arith, get, put,
  get-put, get-put_self, is_some, All,
}
use insurance_claim_ai.Domain.Errors.{Result, ok, err, Error, Result-cases}
use insurance_claim_ai.Domain.Models.{Claim, ClaimMetadata}
use insurance_claim_ai.Domain.Events.{DomainEvent, EventType, Payload}
use insurance_claim_ai.EventStore.{EventStore, Stamp, append, next_event}
use insurance_claim_ai.Projection.{project}
use insurance_claim_ai.Projection.Fields.{project-IsAfter}
use insurance_claim_ai.ObjectStore.{Objects}
use insurance_claim_ai.Temporal.Action.{World, Services, Ensures}
use insurance_claim_ai.Temporal.Activities.{append_event, ocr_key}
use insurance_claim_ai.Temporal.Workflow.{Signal, pdf_uploaded, review_signal}

-- Stored, torn or refused, an event leaves the metadata of a claim.
append-metadata :
    (s : EventStore) (stamp : Stamp) (claim_id : String) (type : EventType) (payload : Payload)
    (key : Option String) (c : Claim)
    → get s.claims claim_id ≡ some c
    → (d : Claim) × (get (append s stamp claim_id type payload key).1.claims claim_id ≡ some d)
      × (d.metadata ≡ c.metadata)
unfolding append
append-metadata s stamp claim_id type payload key c there =
    elim (Result-cases (project (get s.claims claim_id) e)) [
      | inl (d, accepted) ↦ (
        d,
        ground (arith, accepted, get-put_self s.claims claim_id d),
        (project-IsAfter c d e (rw (← there) accepted)).same_metadata,
      )
      | inr (x, refused) ↦ (c, ground (arith, refused), refl)
    ]
  where
    e : DomainEvent
    e = next_event s stamp claim_id type payload

-- The document that a signal announces is in the object store.
abbrev pub IsDelivered : Objects → Signal → Type 0
IsDelivered objects (pdf_uploaded key) = is_some (get objects key) ≡ true
IsDelivered objects (review_signal r) = Unit {0}

-- `read` says whether the text of the OCR is due.
pub record Kept (claim_id : String) (m : ClaimMetadata) (signals : List Signal) (read : Bool)
    (w : World) : Type 0 where
  pub claimed : (c : Claim) × (get w.store.claims claim_id ≡ some c) × (c.metadata ≡ m)
  pub delivered : All (IsDelivered w.objects) signals
  pub texted : read ≡ true → is_some (get w.objects (ocr_key claim_id)) ≡ true

pub append_event-Kept :
    (sv : Services) (claim_id : String) (m : ClaimMetadata) (signals : List Signal) (read : Bool)
    (type : EventType) (payload : Payload) (w : World)
    → Kept claim_id m signals read w
    → Kept claim_id m signals read (append_event sv claim_id type payload w).1
unfolding append_event
append_event-Kept sv claim_id m signals read type payload w k =
    let (c, there, same) = k.claimed in
    let (d, found, kept) =
      append-metadata w.store (sv.stamp w.calls) claim_id type payload none c there in
    elim (Result-cases (append w.store (sv.stamp w.calls) claim_id type payload none).0) [
      | inl (e, stored) ↦
          rw stored (record {
            claimed = (d, found, kept ∙ same);
            delivered = k.delivered;
            texted = k.texted;
          })
      | inr (x, refused) ↦
          rw refused (record {
            claimed = (d, found, kept ∙ same);
            delivered = k.delivered;
            texted = k.texted;
          })
    ]

pub put-some :
    (objects : Objects) (key k content : String)
    → is_some (get objects k) ≡ true
    → is_some (get (put objects key content) k) ≡ true
put-some objects key k content h = ground (arith, get-put objects key k content)

pub put-IsDelivered :
    (objects : Objects) (key content : String) (signals : List Signal)
    → All (IsDelivered objects) signals
    → All (IsDelivered (put objects key content)) signals
put-IsDelivered objects key content [] h = tt
put-IsDelivered objects key content (pdf_uploaded k ∷ signals) h =
    (put-some objects key k content h.0, put-IsDelivered objects key content signals h.1)
put-IsDelivered objects key content (review_signal r ∷ signals) h =
    (tt, put-IsDelivered objects key content signals h.1)

-- Two things that an action ensures, one of them of every state that it leaves.
pub both_rule :
    {S A : Type 0} (E : Error → S → Type 0) (Q : A → S → Type 0) (R : S → Type 0) (r : Result A × S)
    → Ensures E Q r
    → R r.1
    → Ensures E (λ a s. Q a s × R s) r
both_rule E Q R (ok a, s) h k = (h, k)
both_rule E Q R (err e, s) h k = h
