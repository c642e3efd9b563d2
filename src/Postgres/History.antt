-- ===== src/Postgres/History.antt =====
-- What the queries of PostgresEventStore answer after any interleaving of transactions.
use insurance_claim_ai.Prelude.{
  ℕ, zero, suc, ◌+◌, ◌≤◌, ◌≡◌, refl, sym, ap, ◌∙◌, String, Option, List, [], ◌∷◌, map, arith, get,
  keep_if, take,
}
use insurance_claim_ai.Domain.Errors.{Result, ok}
use insurance_claim_ai.Domain.Models.{Claim}
use insurance_claim_ai.Domain.Events.{DomainEvent}
use insurance_claim_ai.Domain.Names.{named-type_text}
use insurance_claim_ai.Projection.{replay}
use insurance_claim_ai.EventStore.{
  EventStore, OutboxRow, log_of, row_event, is_unpublished, fetch_unpublished,
}
use insurance_claim_ai.EventStore.Invariant.{Numbered, of_claim, enqueued}
use insurance_claim_ai.EventStore.Reachable.{Reachable-IsConsistent}
use insurance_claim_ai.Postgres.{QueueRow, Database, Columns, IsLossless}
use insurance_claim_ai.Postgres.Append.{event_row_of, load_claim}
use insurance_claim_ai.Postgres.Queries.{
  events, read_all, read_event, order_by_seq, insert_by_seq, fetch_queued, is_queued,
}
use insurance_claim_ai.Postgres.Agree.{Agree, queued_row}
use insurance_claim_ai.Postgres.Runs.{Interleaving, Transaction, Interleaving-Mirrors}

read-event_row_of : (e : DomainEvent) → read_event (event_row_of e) ≡ ok e
unfolding read_event
read-event_row_of e = rw (named-type_text e.type) refl

read_all-event_row_of :
    (log : List DomainEvent) → read_all read_event (map event_row_of log) ≡ ok log
read_all-event_row_of [] = refl
read_all-event_row_of (e ∷ log) = rw (read-event_row_of e, read_all-event_row_of log) refl

-- Every number of the log is past `n`.
insert_by_seq-first :
    (claim_id : String) (n : ℕ) (log : List DomainEvent) (e : DomainEvent)
    → e.seq ≤ n
    → Numbered claim_id n log
    → insert_by_seq (event_row_of e) (map event_row_of log) ≡ event_row_of e ∷ map event_row_of log
insert_by_seq-first claim_id n [] e low h = refl
insert_by_seq-first claim_id n (d ∷ log) e low h = ground arith

-- The rows of a log are in the order of their numbers.
order_by_seq-Numbered :
    (claim_id : String) (n : ℕ) (log : List DomainEvent)
    → Numbered claim_id n log
    → order_by_seq (map event_row_of log) ≡ map event_row_of log
order_by_seq-Numbered claim_id n [] h = refl
order_by_seq-Numbered claim_id n (e ∷ log) h =
    rw (order_by_seq-Numbered claim_id (n + 1) log h.2)
      (insert_by_seq-first claim_id (n + 1) log e (omega (arith, h.1)) h.2)

module _ (columns : Columns) where
  -- The texts of outbox rows as events.
  abbrev pub read_queue : List QueueRow → Result (List DomainEvent)
  read_queue rows = read_all (λ r. columns.reread r.payload) rows

  -- What the queries say of one claim.
  pub record IsHistory (db : Database) (claim_id : String) (log : List DomainEvent)
      (claim : Option Claim) (queue : List DomainEvent) : Type 0 where
    pub logged : events db claim_id ≡ ok log
    pub numbered : Numbered claim_id 1 log
    pub found : load_claim db claim_id ≡ ok claim
    pub folded : replay log ≡ ok claim
    pub all_queued : read_queue db.outbox ≡ ok queue
    pub queued : of_claim claim_id queue ≡ log

module _ (columns : Columns) (lossless : IsLossless columns) where
  pub events-log_of :
      (db : Database) (s : EventStore) (claim_id : String)
      → Agree db s
      → Numbered claim_id 1 (log_of s claim_id)
      → events db claim_id ≡ ok (log_of s claim_id)
  unfolding events
  events-log_of db s claim_id agree numbered =
      rw (agree.logged claim_id, order_by_seq-Numbered claim_id 1 (log_of s claim_id) numbered)
        (read_all-event_row_of (log_of s claim_id))

  read_queue-queued_row :
      (rows : List OutboxRow) → read_queue columns (map queued_row rows) ≡ ok (map row_event rows)
  read_queue-queued_row [] = refl
  read_queue-queued_row (o ∷ rows) =
      rw (lossless.reread-eq o.event, read_queue-queued_row rows) refl

  keep_if-queued_row :
      (rows : List OutboxRow)
      → keep_if is_queued (map queued_row rows) ≡ map queued_row (keep_if is_unpublished rows)
  keep_if-queued_row [] = refl
  keep_if-queued_row (o ∷ rows) = ground (arith, keep_if-queued_row rows)

  take-map {ℓ κ} :
      {A : Type ℓ} {B : Type κ} (f : A → B) (n : ℕ) (xs : List A)
      → take n (map f xs) ≡ map f (take n xs)
  take-map f zero xs = refl
  take-map f (suc n) [] = refl
  take-map f (suc n) (x ∷ xs) = ap (λ l. f x ∷ l) (take-map f n xs)

  -- The relay of a database gets the batch that it gets of the in-memory store.
  pub fetch_queued-fetch_unpublished :
      (db : Database) (s : EventStore) (limit : ℕ)
      → Agree db s
      → fetch_queued columns db limit ≡ ok (fetch_unpublished s limit)
  unfolding fetch_queued fetch_unpublished
  fetch_queued-fetch_unpublished db s limit agree =
      rw
        (
          agree.queued,
          keep_if-queued_row s.outbox,
          take-map queued_row limit (keep_if is_unpublished s.outbox),
        )
        (read_queue-queued_row (take limit (keep_if is_unpublished s.outbox))
          ∙ ap ok (sym (take-map row_event limit (keep_if is_unpublished s.outbox))))

  -- Whatever the interleaving of transactions, the events of a claim are numbered 1, 2, ... without a
  -- gap, the row of the claim is their fold, and the outbox holds each of them once and in order.
  pub Interleaving-IsHistory :
      (db : Database) (ts : List Transaction) (claim_id : String)
      → Interleaving columns db ts
      → (log : List DomainEvent) × (claim : Option Claim) × (queue : List DomainEvent) × IsHistory
          columns db claim_id log claim queue
  Interleaving-IsHistory db ts claim_id r =
      let (s, m) = Interleaving-Mirrors columns lossless db ts r in
      let good = Reachable-IsConsistent s m.reachable in
      (
        log_of s claim_id,
        get s.claims claim_id,
        enqueued s,
        record {
          logged = events-log_of db s claim_id m.agree (good.numbered claim_id);
          numbered = good.numbered claim_id;
          found = m.agree.held claim_id;
          folded = good.folded claim_id;
          all_queued =
              ap (λ rows. read_queue columns rows) m.agree.queued ∙ read_queue-queued_row s.outbox;
          queued = good.queued claim_id;
        },
      )
