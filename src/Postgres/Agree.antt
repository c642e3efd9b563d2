-- ===== src/Postgres/Agree.antt =====
-- A database that holds what an in-memory store holds, and one transaction's writes on both.
use insurance_claim_ai.Prelude.{
  ◌+◌, ◌≡◌, ◌⊎◌, inl, inr, refl, sym, ap, ◌∙◌, String, true, false, Option, none, some, List, [],
  ◌∷◌, ◌++◌, map, arith, eq_iff, get, get-put, or_else, is_some,
}
use insurance_claim_ai.Domain.Errors.{ok, err, Error, Result-cases, ok-injective}
use insurance_claim_ai.Domain.Models.{Claim, validate_metadata}
use insurance_claim_ai.Domain.Events.{DomainEvent}
use insurance_claim_ai.Projection.{project}
use insurance_claim_ai.Projection.Fields.{project-IsAfter}
use insurance_claim_ai.EventStore.{
  EventStore, OutboxRow, Stamp, log_of, seq_of, next_event, append, mark_row, mark_published, empty,
}
use insurance_claim_ai.EventStore.Frame.{IsWritable, Appended, append-Appended}
use insurance_claim_ai.Postgres.{
  EventRow, ClaimRow, QueueRow, Database, Columns, IsLossless, insert_event, upsert_claim,
  insert_outbox, empty_database,
}
use insurance_claim_ai.Postgres.Append.{
  row_of, read_row, read_claim, load_claim, event_row_of, claim_row_of, queue_row_of,
  write_predictions, write,
}
use insurance_claim_ai.Postgres.Queries.{rows_of, mark_queued, mark_rows}
use insurance_claim_ai.Postgres.Rows.{
  merged, row_of-upsert_claim, rows_of-insert_event, read-claim_row_of, read-update_claim,
}

project-none :
    (e : DomainEvent) (c : Claim)
    → project none e ≡ ok c
    → (c.claim_id ≡ e.claim_id)
      × (c.pdf_ref ≡ none)
      × (validate_metadata c.metadata ≡ ok c.metadata)
unfolding project
project-none e c h = ground arith

pub row_of-claim_id :
    (rows : List ClaimRow) (claim_id : String) (r : ClaimRow)
    → row_of rows claim_id ≡ some r
    → r.claim_id ≡ claim_id
row_of-claim_id [] claim_id r h = absurd (cc)
row_of-claim_id (q ∷ rows) claim_id r h =
    ground (arith, row_of-claim_id rows claim_id r, eq_iff q.claim_id claim_id)

map-append_one {ℓ κ} :
    {A : Type ℓ} {B : Type κ} (f : A → B) (xs : List A) (x : A)
    → map f (xs ++ x ∷ []) ≡ map f xs ++ f x ∷ []
map-append_one f [] x = refl
map-append_one f (y ∷ xs) x = ap (λ l. f y ∷ l) (map-append_one f xs x)

some-or_else {ℓ} : {A : Type ℓ} (o : Option A) (d : A) → is_some o ≡ true → o ≡ some (or_else o d)
some-or_else none d h = absurd (cc)
some-or_else (some v) d h = refl

-- What `append` was given for an event.
abbrev pub stamp_of : DomainEvent → Stamp
stamp_of e = record { id = e.event_id; now = e.occurred_at }

abbrev pub queued_row : OutboxRow → QueueRow
queued_row o = record (queue_row_of o.event) { published = o.published }

-- The two hold the same logs, claims and outbox. Predictions and idempotency keys are no part of it:
-- there the two stores differ.
pub record Agree (db : Database) (s : EventStore) : Type 0 where
  pub logged :
      (claim_id : String) → rows_of claim_id db.claim_events ≡ map event_row_of (log_of s claim_id)
  pub held : (claim_id : String) → load_claim db claim_id ≡ ok (get s.claims claim_id)
  pub queued : db.outbox ≡ map queued_row s.outbox

module _ (columns : Columns) (lossless : IsLossless columns) where
  -- The row that `write` puts in claims.
  abbrev new_row : DomainEvent → Claim → Option String → ClaimRow
  new_row e c key = claim_row_of e.claim_id c key (or_else c.created_at 0) (or_else c.updated_at 0)

  pub event_row-cases :
      (r : EventRow) → (columns.event_row r ≡ ok r) ⊎ ((x : Error) × (columns.event_row r ≡ err x))
  event_row-cases r = elim (Result-cases (columns.event_row r)) [
    | inl (q, taken) ↦ inl (taken ∙ ap ok (lossless.event_row-eq r q taken))
    | inr refused ↦ inr refused
  ]

  pub claim_row-cases :
      (r : ClaimRow) → (columns.claim_row r ≡ ok r) ⊎ ((x : Error) × (columns.claim_row r ≡ err x))
  claim_row-cases r = elim (Result-cases (columns.claim_row r)) [
    | inl (q, taken) ↦ inl (taken ∙ ap ok (lossless.claim_row-eq r q taken))
    | inr refused ↦ inr refused
  ]

  -- What a `write` that succeeds did.
  pub record Written (db : Database) (e : DomainEvent) (c : Claim) (key : Option String)
      (db' : Database) : Type 0 where
    pub event_eq : insert_event db.claim_events (event_row_of e) ≡ ok db'.claim_events
    pub created_eq : is_some c.created_at ≡ true
    pub updated_eq : is_some c.updated_at ≡ true
    pub claim_eq : upsert_claim db.claims (new_row e c key) ≡ ok db'.claims
    pub queue_eq : insert_outbox db.outbox (queue_row_of e) ≡ ok db'.outbox
    pub models_eq : write_predictions columns e e.type db.model_outputs ≡ ok db'.model_outputs

  pub write-Written :
      (db : Database) (e : DomainEvent) (c : Claim) (key : Option String) (db' : Database)
      → write columns db e c key ≡ ok db'
      → Written db e c key db'
  unfolding write
  write-Written db e c key db' h = record {
    event_eq = ground (arith, event_row-cases (event_row_of e));
    created_eq = ground arith;
    updated_eq = ground arith;
    claim_eq = ground (arith, claim_row-cases (new_row e c key));
    queue_eq = ground arith;
    models_eq = ground arith;
  }

  -- PREDICTIONS_READY is written only with its predictions.
  Written-IsWritable :
      (db : Database) (e : DomainEvent) (c : Claim) (key : Option String) (db' : Database)
      → Written db e c key db'
      → IsWritable e.type e.payload
  Written-IsWritable db e c key db' w = let h = w.models_eq in ground arith

  module _ (db : Database) (s : EventStore) (e : DomainEvent) (c : Claim) (key : Option String)
      (db' : Database) (agree : Agree db s) (written : Written db e c key db')
      (next : e.seq ≡ seq_of s e.claim_id + 1)
      (accepted : project (get s.claims e.claim_id) e ≡ ok c) where
    next_event-same : next_event s (stamp_of e) e.claim_id e.type e.payload ≡ e
    next_event-same = ground (arith, next)

    appended_same :
        (s' : EventStore) × (append s (stamp_of e) e.claim_id e.type e.payload key ≡ (ok e, s'))
    unfolding append
    appended_same = (
      (append s (stamp_of e) e.claim_id e.type e.payload key).1,
      ground (arith, next_event-same, accepted, Written-IsWritable db e c key db' written),
    )

    module _ (s' : EventStore)
        (a : Appended s (stamp_of e) e.claim_id e.type e.payload key e s') where
      same_claim : a.claim ≡ c
      same_claim = ok-injective (sym a.projected ∙ accepted)

      logged-append : (j : String) → rows_of j db'.claim_events ≡ map event_row_of (log_of s' j)
      logged-append j = ground (
        arith,
        rows_of-insert_event db.claim_events db'.claim_events (event_row_of e) j written.event_eq,
        agree.logged j,
        a.events_eq,
        get-put s.events e.claim_id j (log_of s e.claim_id ++ e ∷ []),
        eq_iff e.claim_id j,
        map-append_one event_row_of (log_of s j) e,
      )

      created : c.created_at ≡ some (or_else c.created_at 0)
      created = some-or_else c.created_at 0 written.created_eq

      updated : c.updated_at ≡ some (or_else c.updated_at 0)
      updated = some-or_else c.updated_at 0 written.updated_eq

      absent : row_of db.claims e.claim_id ≡ none → get s.claims e.claim_id ≡ none
      unfolding load_claim
      absent h = ground (arith, agree.held e.claim_id)

      present_row :
          (r : ClaimRow)
          → row_of db.claims e.claim_id ≡ some r
          → (b : Claim) × (get s.claims e.claim_id ≡ some b) × (read_claim r ≡ ok b)
      unfolding load_claim
      present_row r h = elim (Result-cases (read_claim r)) [
        | inl (b, reads) ↦ (b, ground (arith, agree.held e.claim_id), reads)
        | inr (x, fails) ↦ absurd (ground (arith, agree.held e.claim_id))
      ]

      held_self :
          (old : Option ClaimRow)
          → row_of db.claims e.claim_id ≡ old
          → read_row (some (merged old (new_row e c key))) ≡ ok (some c)
      unfolding load_claim
      held_self none h =
          let (named, no_pdf, valid) = project-none e c (rw (← absent h) accepted) in
          rw
            (read-claim_row_of c e.claim_id key (or_else c.created_at 0) (or_else c.updated_at 0)
              named no_pdf valid created updated)
            refl
      held_self (some r) h =
          let (b, found, reads) = present_row r h in
          let after = project-IsAfter b c e (rw (← found) accepted) in
          let same = row_of-claim_id db.claims e.claim_id r h in
          ground (
            arith,
            read-update_claim r b c key (or_else c.created_at 0) (or_else c.updated_at 0) reads
                after.same_id after.same_pdf after.same_metadata after.same_created updated,
            same,
          )

      held-append : (j : String) → load_claim db' j ≡ ok (get s'.claims j)
      unfolding load_claim
      held-append j = ground (
        arith,
        row_of-upsert_claim db.claims db'.claims (new_row e c key) j written.claim_eq,
        agree.held j,
        a.claims_eq,
        same_claim,
        get-put s.claims e.claim_id j c,
        eq_iff e.claim_id j,
        held_self (row_of db.claims e.claim_id) refl,
      )

      queued-append : db'.outbox ≡ map queued_row s'.outbox
      unfolding insert_outbox
      queued-append =
          let q = written.queue_eq in
          ground (
            arith,
            agree.queued,
            a.outbox_eq,
            map-append_one queued_row s.outbox (record { event = e; published = false }),
          )

  -- The writes of a transaction that read the present state are an `append` of the in-memory store.
  pub write-Agree :
      (db db' : Database) (s : EventStore) (e : DomainEvent) (c : Claim) (key : Option String)
      → Agree db s
      → e.seq ≡ seq_of s e.claim_id + 1
      → project (get s.claims e.claim_id) e ≡ ok c
      → write columns db e c key ≡ ok db'
      → IsWritable e.type e.payload
        × ((s' : EventStore) × (append s (stamp_of e) e.claim_id e.type e.payload key ≡ (ok e, s'))
            × Agree db' s')
  write-Agree db db' s e c key agree next accepted h =
      let w = write-Written db e c key db' h in
      let (s', same) = appended_same db s e c key db' agree w next accepted in
      let a = append-Appended s (stamp_of e) e.claim_id e.type e.payload key e s' same in
      (
        Written-IsWritable db e c key db' w,
        (
          s',
          same,
          record {
            logged = logged-append db s e c key db' agree w next accepted s' a;
            held = held-append db s e c key db' agree w next accepted s' a;
            queued = queued-append db s e c key db' agree w next accepted s' a;
          },
        ),
      )

  map-mark :
      (ids : List String) (rows : List OutboxRow)
      → map (mark_queued ids) (map queued_row rows) ≡ map queued_row (map (mark_row ids) rows)
  map-mark ids [] = refl
  map-mark ids (o ∷ rows) = ground (arith, map-mark ids rows)

  pub mark_rows-Agree :
      (db : Database) (s : EventStore) (ids : List String)
      → Agree db s
      → Agree (mark_rows db ids) (mark_published s ids)
  unfolding mark_rows mark_published load_claim
  mark_rows-Agree db s ids agree = record {
    logged = agree.logged;
    held = agree.held;
    queued = ap (map (mark_queued ids)) agree.queued ∙ map-mark ids s.outbox;
  }

  pub empty-Agree : Agree empty_database empty
  unfolding load_claim get
  empty-Agree = record { logged = λ j. refl; held = λ j. refl; queued = refl }
