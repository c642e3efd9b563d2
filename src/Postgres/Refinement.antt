-- ===== src/Postgres/Refinement.antt =====
-- PostgresEventStore.append beside InMemoryEventStore.append, on stores that hold the same.
use insurance_claim_ai.Prelude.{
  ◌<◌, ◌≡◌, ◌⊎◌, inl, inr, refl, ap, ◌∙◌, String, true, false, Option, List, [], ◌∷◌, arith, All,
  get, any, is_some, ◌==◌, or_else,
}
use insurance_claim_ai.Domain.Errors.{ok, err, is_ok, ◌>>=◌, Error, Result-cases}
use insurance_claim_ai.Domain.Models.{Claim, ModelPrediction}
use insurance_claim_ai.Domain.Events.{DomainEvent, EventType, Payload}
use insurance_claim_ai.Projection.{project}
use insurance_claim_ai.EventStore.{EventStore, Stamp, append, next_event}
use insurance_claim_ai.EventStore.Frame.{IsWritable, append-Appended}
use insurance_claim_ai.Prelude.{some, ◌++◌, sym, get-put_self}
use insurance_claim_ai.Domain.Errors.{ok-injective}
use insurance_claim_ai.Postgres.Append.{load_claim, queue_row_of}
use insurance_claim_ai.Postgres.Agree.{stamp_of, write-Written}
use insurance_claim_ai.EventStore.Invariant.{IsConsistent}
use insurance_claim_ai.EventStore.Atomic.{append_refused}
use insurance_claim_ai.Postgres.{
  Database, Columns, IsLossless, clashes, same_key, upsert_model, insert_event, insert_outbox,
  upsert_claim, ModelRow, EventRow, max_seq,
}
use insurance_claim_ai.Postgres.Append.{
  read_seq, check_event, write, append_row, commit_or_rollback, event_row_of, claim_row_of,
  model_row_of, write_models, write_predictions,
}
use insurance_claim_ai.Postgres.Agree.{Agree, write-Agree, event_row-cases, claim_row-cases}
use insurance_claim_ai.Postgres.Numbering.{max_seq-seq_of, check_event-project}

-- The tables have no row that the new ones would clash with.
abbrev pub IsFresh : Database → String → Option String → Type 0
IsFresh db id key =
    (any (λ r. r.event_id == id) db.claim_events ≡ false)
    × (any (λ r. r.event_id == id) db.outbox ≡ false)
    × (any (λ r. same_key key r.idempotency_key) db.claims ≡ false)

-- The columns take what the transaction writes.
abbrev pub AreTaken : Columns → String → Option (List ModelPrediction) → Type 0
AreTaken columns claim_id preds =
    All (λ p. is_ok (columns.model_row (model_row_of claim_id p)) ≡ true) (or_else preds [])

pub record IsTaken (columns : Columns) (e : DomainEvent) (c : Claim) (key : Option String)
    : Type 0 where
  pub event_taken : is_ok (columns.event_row (event_row_of e)) ≡ true
  pub created : is_some c.created_at ≡ true
  pub updated : is_some c.updated_at ≡ true
  pub claim_taken :
      is_ok (
        columns.claim_row
          (claim_row_of e.claim_id c key (or_else c.created_at 0) (or_else c.updated_at 0)))
      ≡ true
  pub models_taken : AreTaken columns e.claim_id e.payload.predictions

clashes-fresh :
    (rows : List EventRow) (new : EventRow)
    → any (λ r. r.event_id == new.event_id) rows ≡ false
    → max_seq new.claim_id rows < new.seq
    → any (clashes new) rows ≡ false
clashes-fresh [] new id h = refl
clashes-fresh (r ∷ rows) new id h = ground (arith, clashes-fresh rows new)

module _ (columns : Columns) (lossless : IsLossless columns) where
  module _ (db : Database) (s : EventStore) (stamp : Stamp) (claim_id : String) (type : EventType)
      (payload : Payload) (key : Option String) (agree : Agree db s) (good : IsConsistent s) where
    read_seq-next_event :
        read_seq db stamp claim_id type payload ≡ next_event s stamp claim_id type payload
    read_seq-next_event = ground (arith, max_seq-seq_of columns lossless db s claim_id agree good)

    abbrev e : DomainEvent
    e = next_event s stamp claim_id type payload

    append_row-committed :
        append_row columns db stamp claim_id type payload key
        ≡ commit_or_rollback db e
            (project (get s.claims claim_id) e >>= λ c. write columns db e c key)
    unfolding append_row
    append_row-committed =
        ap (λ d. commit_or_rollback db d (check_event db d >>= λ c. write columns db d c key))
          read_seq-next_event
        ∙ ap (λ r. commit_or_rollback db e (r >>= λ c. write columns db e c key))
            (check_event-project columns lossless db s e agree)

    write_models-is_ok :
        (preds : List ModelPrediction) (rows : List ModelRow)
        → All (λ p. is_ok (columns.model_row (model_row_of claim_id p)) ≡ true) preds
        → is_ok (write_models columns claim_id preds rows) ≡ true
    unfolding write_models
    write_models-is_ok [] rows h = refl
    write_models-is_ok (p ∷ preds) rows h =
        elim (Result-cases (columns.model_row (model_row_of claim_id p))) [
          | inl (row, taken) ↦ rw taken (write_models-is_ok preds (upsert_model rows row) h.1)
          | inr (x, refused) ↦ absurd (ground (arith, h.0, refused))
        ]

    write_predictions-is_ok :
        IsWritable type payload
        → AreTaken columns claim_id payload.predictions
        → is_ok (write_predictions columns e type db.model_outputs) ≡ true
    write_predictions-is_ok w taken =
        ground (arith, write_models-is_ok (or_else payload.predictions []) db.model_outputs taken)

    write-is_ok :
        (c : Claim)
        → IsWritable type payload
        → IsTaken columns e c key
        → IsFresh db stamp.id key
        → is_ok (write columns db e c key) ≡ true
    unfolding write insert_event upsert_claim insert_outbox
    write-is_ok c w taken fresh = ground (
      arith,
      event_row-cases columns lossless (event_row_of e),
      claim_row-cases columns lossless
          (claim_row_of claim_id c key (or_else c.created_at 0) (or_else c.updated_at 0)),
      clashes-fresh db.claim_events (event_row_of e),
      max_seq-seq_of columns lossless db s claim_id agree good,
      write_predictions-is_ok w taken.models_taken,
    )

    -- What the projection takes, with a complete payload and rows that the columns take, and of which
    -- neither the id nor the key is in the tables.
    abbrev pub IsStorable : Claim → Type 0
    IsStorable c =
        (project (get s.claims claim_id) e ≡ ok c)
        × IsWritable type payload
        × IsTaken columns e c key
        × IsFresh db stamp.id key

    append_row-write :
        (c : Claim)
        → IsStorable c
        → (db' : Database) × (write columns db e c key ≡ ok db')
          × (append_row columns db stamp claim_id type payload key ≡ (ok e, db'))
    append_row-write c (accepted, w, taken, fresh) =
        elim (Result-cases (write columns db e c key)) [
          | inl (db', stored) ↦ (db', stored, rw (append_row-committed, accepted, stored) refl)
          | inr (x, refused) ↦ absurd (ground (arith, write-is_ok c w taken fresh, refused))
        ]

    -- An event that the projection takes is stored, if its payload is complete, the columns take the
    -- rows, and its id and its key are new to the tables: its row is the last of claim_events and of
    -- the outbox, unpublished, and the claim reads back as it was projected.
    pub append_row-stored :
        (c : Claim)
        → IsStorable c
        → let (r, t) = append_row columns db stamp claim_id type payload key in
          (r ≡ ok e)
          × (t.claim_events ≡ db.claim_events ++ event_row_of e ∷ [])
          × (t.outbox ≡ db.outbox ++ queue_row_of e ∷ [])
          × (load_claim t claim_id ≡ ok (some c))
    unfolding insert_event insert_outbox
    append_row-stored c storable =
        let (db', stored, ran) = append_row-write c storable in
        let written = write-Written columns lossless db e c key db' stored in
        let (w, (s', same, agree')) =
          write-Agree columns lossless db db' s e c key agree refl storable.0 stored in
        let a = append-Appended s (stamp_of e) claim_id type payload key e s' same in
        rw ran (
          refl,
          ground (arith, written.event_eq),
          ground (arith, written.queue_eq),
          agree'.held claim_id
              ∙ ap (λ (o : Option Claim). ok o)
                  (ap (λ d. get d claim_id) a.claims_eq
                    ∙ get-put_self s.claims claim_id a.claim
                    ∙ ap some (ok-injective (sym a.projected ∙ storable.0))),
        )

    -- Where the logs, the claims and the outbox of the two are the same, a transaction that runs in one
    -- go gives the result of the in-memory `append`, an error of the projection included, and the
    -- logs, the claims and the outbox are the same after it; or else the projection takes the event,
    -- no row is written, and the database had reason to refuse: a payload that is not complete, a row
    -- that the columns do not take, or an id or a key that is there already.
    pub append_row-append :
        let (r, db') = append_row columns db stamp claim_id type payload key in
        let (q, s') = append s stamp claim_id type payload key in
        ((r ≡ q) × Agree db' s')
        ⊎ ((x : Error) × (r ≡ err x)
            × (db' ≡ db)
            × (is_ok (project (get s.claims claim_id) (next_event s stamp claim_id type payload))
                ≡ true)
            × ¬ ((c : Claim) × IsStorable c))
    append_row-append = elim (Result-cases (project (get s.claims claim_id) e)) [
      | inr (x, refused) ↦ inl (
          rw
            (
              append_row-committed,
              refused,
              append_refused s stamp claim_id type payload key x refused,
            )
            (refl, agree))
      | inl (c, accepted) ↦ elim (Result-cases (write columns db e c key)) [
        | inr (x, refused) ↦ inr (
          x,
          rw (append_row-committed, accepted, refused) refl,
          rw (append_row-committed, accepted, refused) refl,
          rw accepted refl,
          λ (c', storable).
              let (db', stored, ran) = append_row-write c' storable in
              absurd (ground (arith, refused, stored, accepted, storable.0)),
        )
        | inl (db', stored) ↦
            let (w, (s', same, agree')) =
              write-Agree columns lossless db db' s e c key agree refl accepted stored in
            inl (rw (append_row-committed, accepted, stored, same) (refl, agree'))
      ]
    ]
