-- ===== src/EventStore/Atomic.antt =====
-- What a refused `append` leaves behind, and what one on a claim leaves of the others.
use insurance_claim_ai.Prelude.{
  ◌+◌, ◌≡◌, inl, inr, String, false, Option, none, some, [], ◌∷◌, ◌++◌, arith, or_else, ◌==◌, get,
  get-put, get-put_self,
}
use insurance_claim_ai.Domain.Errors.{ok, err, Error, key_error, Result-cases}
use insurance_claim_ai.Domain.Models.{Claim}
use insurance_claim_ai.Domain.Events.{DomainEvent, EventType, Payload, predictions_ready}
use insurance_claim_ai.Projection.{project}
use insurance_claim_ai.EventStore.{EventStore, Stamp, log_of, seq_of, next_event, append}

-- An event that the projection refuses, with whatever error, changes nothing in the store, and the
-- caller gets that error.
pub append_refused :
    (s : EventStore) (stamp : Stamp) (claim_id : String) (type : EventType) (payload : Payload)
    (key : Option String) (x : Error)
    → project (get s.claims claim_id) (next_event s stamp claim_id type payload) ≡ err x
    → append s stamp claim_id type payload key ≡ (err x, s)
unfolding append
append_refused s stamp claim_id type payload key x h = ground arith

-- PREDICTIONS_READY with no predictions in its payload is torn: the call raises, yet the claim has
-- moved to the new status and the event is in the log, while the outbox does not have it.
pub append_torn :
    (s : EventStore) (stamp : Stamp) (claim_id : String) (payload : Payload) (key : Option String)
    (c : Claim)
    → payload.predictions ≡ none
    → project (get s.claims claim_id) (next_event s stamp claim_id predictions_ready payload) ≡ ok c
    → let (r, t) = append s stamp claim_id predictions_ready payload key in
      (r ≡ err key_error)
      × (get t.claims claim_id ≡ some c)
      × (log_of t claim_id
          ≡ log_of s claim_id ++ next_event s stamp claim_id predictions_ready payload ∷ [])
      × (t.outbox ≡ s.outbox)
unfolding append
append_torn s stamp claim_id payload key c p h = (
  ground arith,
  ground (arith, get-put_self s.claims claim_id c),
  ground (
    arith,
    get-put_self s.events claim_id
        (log_of s claim_id ++ next_event s stamp claim_id predictions_ready payload ∷ []),
  ),
  ground arith,
)

-- An `append` on one claim leaves every other claim, its log, its number and its predictions alone.
pub append_other :
    (s : EventStore) (stamp : Stamp) (claim_id j : String) (type : EventType) (payload : Payload)
    (key : Option String)
    → (claim_id == j) ≡ false
    → let t = (append s stamp claim_id type payload key).1 in
      (get t.claims j ≡ get s.claims j)
      × (get t.events j ≡ get s.events j)
      × (get t.seq j ≡ get s.seq j)
      × (get t.predictions j ≡ get s.predictions j)
unfolding append
append_other s stamp claim_id j type payload key other =
    elim (Result-cases (project (get s.claims claim_id) e)) [
      | inl (c, accepted) ↦ ground (
        arith,
        accepted,
        get-put s.claims claim_id j c,
        get-put s.events claim_id j (log_of s claim_id ++ e ∷ []),
        get-put s.seq claim_id j (seq_of s claim_id + 1),
        get-put s.predictions claim_id j (or_else payload.predictions []),
      )
      | inr (x, refused) ↦ ground (arith, refused)
    ]
  where
    e : DomainEvent
    e = next_event s stamp claim_id type payload
