-- ===== src/EventStore/Frame.antt =====
-- What one call of `append` does to each part of the store, on every branch.
use insurance_claim_ai.Prelude.{
  ◌+◌, ◌≡◌, inl, inr, String, true, false, Option, List, [], ◌∷◌, ◌++◌, arith, or_else, Dict, get,
  put, is_some,
}
use insurance_claim_ai.Domain.Errors.{ok, err, Error, is_ok, Result-cases}
use insurance_claim_ai.Domain.Models.{Claim, ModelPrediction}
use insurance_claim_ai.Domain.Events.{DomainEvent, EventType, Payload, predictions_ready}
use insurance_claim_ai.Projection.{project}
use insurance_claim_ai.EventStore.{EventStore, Stamp, log_of, seq_of, next_event, note_key, append}

-- The payload has what the last writes of `append` read.
abbrev pub IsWritable : EventType → Payload → Type 0
IsWritable predictions_ready p = is_some p.predictions ≡ true
IsWritable _ p = Unit {0}

abbrev pub note_predictions :
    EventType → Payload → String → Dict (List ModelPrediction) → Dict (List ModelPrediction)
note_predictions predictions_ready p claim_id d = put d claim_id (or_else p.predictions [])
note_predictions _ p claim_id d = d

module _ (s : EventStore) (stamp : Stamp) (claim_id : String) (type : EventType) (payload : Payload)
    (key : Option String) where
  -- The state after an accepted event, part by part.
  pub record Appended (e : DomainEvent) (t : EventStore) : Type 0 where
    pub claim : Claim
    pub event_eq : e ≡ next_event s stamp claim_id type payload
    pub written : IsWritable type payload
    pub projected : project (get s.claims claim_id) e ≡ ok claim
    pub claims_eq : t.claims ≡ put s.claims claim_id claim
    pub events_eq : t.events ≡ put s.events claim_id (log_of s claim_id ++ e ∷ [])
    pub seq_eq : t.seq ≡ put s.seq claim_id (seq_of s claim_id + 1)
    pub idem_eq : t.idem ≡ note_key key claim_id s.idem
    pub outbox_eq : t.outbox ≡ s.outbox ++ (record { event = e; published = false }) ∷ []
    pub predictions_eq : t.predictions ≡ note_predictions type payload claim_id s.predictions

  pub append-Appended :
      (e : DomainEvent) (t : EventStore)
      → append s stamp claim_id type payload key ≡ (ok e, t)
      → Appended e t
  unfolding append
  append-Appended e t h =
      elim (Result-cases
        (project (get s.claims claim_id) (next_event s stamp claim_id type payload))) [
          | inl (c, accepted) ↦ record {
            claim = c;
            event_eq = ground arith;
            written = ground arith;
            projected = ground arith;
            claims_eq = ground arith;
            events_eq = ground arith;
            seq_eq = ground arith;
            idem_eq = ground arith;
            outbox_eq = ground arith;
            predictions_eq = ground arith;
          }
          | inr (x, refused) ↦ absurd (ground arith)
        ]

  pub append-err :
      (x : Error) (t : EventStore)
      → IsWritable type payload
      → append s stamp claim_id type payload key ≡ (err x, t)
      → (t ≡ s)
        × (project (get s.claims claim_id) (next_event s stamp claim_id type payload) ≡ err x)
  unfolding append
  append-err x t w h = ground arith

  -- An event that the projection accepts is stored.
  pub append-is_ok :
      is_ok (project (get s.claims claim_id) (next_event s stamp claim_id type payload)) ≡ true
      → IsWritable type payload
      → is_ok (append s stamp claim_id type payload key).0 ≡ true
  unfolding append
  append-is_ok h w = ground arith
