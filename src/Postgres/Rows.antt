-- ===== src/Postgres/Rows.antt =====
-- The statements of PostgresEventStore on the tables: what each leaves where it succeeds.
use insurance_claim_ai.Prelude.{
  ℕ, ◌+◌, ◌≤◌, ◌<◌, ◌≡◌, ◌⊎◌, refl, String, true, false, Option, none, some, List, [], ◌∷◌, ◌++◌,
  map, arith, ◌==◌, eq_iff, eq_refl, any, length, if◌then◌else◌,
}
use insurance_claim_ai.Domain.Errors.{ok, err, unique_violation}
use insurance_claim_ai.Domain.Models.{Claim, validate_metadata}
use insurance_claim_ai.Domain.Events.{DomainEvent}
use insurance_claim_ai.Domain.Names.{named-status_text}
use insurance_claim_ai.EventStore.Invariant.{Numbered}
use insurance_claim_ai.Postgres.{
  EventRow, ClaimRow, clashes, insert_event, upsert_claim, update_claim, is_row_of, max_seq,
}
use insurance_claim_ai.Postgres.Append.{row_of, read_claim, claim_row_of, event_row_of}
use insurance_claim_ai.Postgres.Queries.{rows_of}

-- The row of a claim after the upsert of one for it.
abbrev pub merged : Option ClaimRow → ClaimRow → ClaimRow
merged none new = new
merged (some old) new = update_claim new old

row_of-update_other :
    (rows : List ClaimRow) (new : ClaimRow) (claim_id : String)
    → (new.claim_id == claim_id) ≡ false
    → row_of (map (update_claim new) rows) claim_id ≡ row_of rows claim_id
row_of-update_other [] new claim_id h = refl
row_of-update_other (r ∷ rows) new claim_id h = ground (
  arith,
  row_of-update_other rows new claim_id,
  eq_iff r.claim_id new.claim_id,
  eq_iff r.claim_id claim_id,
)

row_of-update_claim :
    (rows : List ClaimRow) (new : ClaimRow) (claim_id : String)
    → any (is_row_of new.claim_id) rows ≡ true
    → row_of (map (update_claim new) rows) claim_id ≡ (
        if new.claim_id == claim_id
        then some (merged (row_of rows claim_id) new)
        else row_of rows claim_id)
row_of-update_claim [] new claim_id h = ground arith
row_of-update_claim (r ∷ rows) new claim_id h = ground (
  arith,
  row_of-update_claim rows new claim_id,
  row_of-update_other rows new claim_id,
  eq_iff r.claim_id new.claim_id,
  eq_iff r.claim_id claim_id,
  eq_iff new.claim_id claim_id,
)

row_of-append :
    (rows : List ClaimRow) (new : ClaimRow) (claim_id : String)
    → any (is_row_of new.claim_id) rows ≡ false
    → row_of (rows ++ new ∷ []) claim_id ≡ (
        if new.claim_id == claim_id
        then some (merged (row_of rows claim_id) new)
        else row_of rows claim_id)
row_of-append [] new claim_id h = ground arith
row_of-append (r ∷ rows) new claim_id h = ground (
  arith,
  row_of-append rows new claim_id,
  eq_iff r.claim_id claim_id,
  eq_iff new.claim_id claim_id,
  eq_iff r.claim_id new.claim_id,
)

rows_of-append :
    (claim_id : String) (rows : List EventRow) (new : EventRow)
    → rows_of claim_id (rows ++ new ∷ []) ≡ (
        if new.claim_id == claim_id
        then rows_of claim_id rows ++ new ∷ []
        else rows_of claim_id rows)
rows_of-append claim_id [] new = ground arith
rows_of-append claim_id (r ∷ rows) new = ground (arith, rows_of-append claim_id rows new)

max_seq-rows_of :
    (claim_id : String) (rows : List EventRow)
    → max_seq claim_id (rows_of claim_id rows) ≡ max_seq claim_id rows
max_seq-rows_of claim_id [] = refl
max_seq-rows_of claim_id (r ∷ rows) = ground (arith, max_seq-rows_of claim_id rows)

max_seq-Numbered :
    (claim_id : String) (n : ℕ) (log : List DomainEvent)
    → Numbered claim_id (n + 1) log
    → ((log ≡ []) × (max_seq claim_id (map event_row_of log) ≡ 0))
      ⊎ (max_seq claim_id (map event_row_of log) ≡ n + length log)
max_seq-Numbered claim_id n [] h = ground arith
max_seq-Numbered claim_id n (e ∷ log) h =
    ground (arith, max_seq-Numbered claim_id (n + 1) log h.2, eq_refl claim_id)

-- An upsert that succeeds changes the row of its claim and no other.
pub row_of-upsert_claim :
    (rows rows' : List ClaimRow) (new : ClaimRow) (claim_id : String)
    → upsert_claim rows new ≡ ok rows'
    → row_of rows' claim_id ≡ (
        if new.claim_id == claim_id
        then some (merged (row_of rows claim_id) new)
        else row_of rows claim_id)
unfolding upsert_claim
row_of-upsert_claim rows rows' new claim_id h =
    ground (arith, row_of-update_claim rows new claim_id, row_of-append rows new claim_id)

pub rows_of-insert_event :
    (rows rows' : List EventRow) (new : EventRow) (claim_id : String)
    → insert_event rows new ≡ ok rows'
    → rows_of claim_id rows' ≡ (
        if new.claim_id == claim_id
        then rows_of claim_id rows ++ new ∷ []
        else rows_of claim_id rows)
unfolding insert_event
rows_of-insert_event rows rows' new claim_id h = ground (arith, rows_of-append claim_id rows new)

any-rows_of :
    (rows : List EventRow) (claim_id : String) (new : EventRow)
    → any (clashes new) (rows_of claim_id rows) ≡ true
    → any (clashes new) rows ≡ true
any-rows_of [] claim_id new h = h
any-rows_of (r ∷ rows) claim_id new h = ground (arith, any-rows_of rows claim_id new)

any-Numbered :
    (claim_id : String) (n : ℕ) (log : List DomainEvent) (new : EventRow)
    → Numbered claim_id n log
    → new.claim_id ≡ claim_id
    → n ≤ new.seq
    → new.seq < n + length log
    → any (clashes new) (map event_row_of log) ≡ true
any-Numbered claim_id n [] new h same low high = absurd (omega arith)
any-Numbered claim_id n (e ∷ log) new h same low high =
    ground (arith, any-Numbered claim_id (n + 1) log new h.2 same, eq_iff e.claim_id new.claim_id)

-- `UNIQUE (claim_id, seq)` refuses a number that the log of the claim has.
pub insert_event-taken :
    (rows : List EventRow) (log : List DomainEvent) (new : EventRow)
    → rows_of new.claim_id rows ≡ map event_row_of log
    → Numbered new.claim_id 1 log
    → 1 ≤ new.seq
    → new.seq ≤ length log
    → insert_event rows new ≡ err unique_violation
unfolding insert_event
insert_event-taken rows log new logged numbered low high = ground (
  arith,
  any-rows_of rows new.claim_id new
      (rw logged (any-Numbered new.claim_id 1 log new numbered refl low (omega arith))),
)

-- `MAX(seq)` is the length of the log.
pub max_seq-length :
    (rows : List EventRow) (log : List DomainEvent) (claim_id : String)
    → rows_of claim_id rows ≡ map event_row_of log
    → Numbered claim_id 1 log
    → max_seq claim_id rows ≡ length log
max_seq-length rows log claim_id logged numbered =
    ground (arith, max_seq-rows_of claim_id rows, max_seq-Numbered claim_id 0 log numbered)

-- A claim that pydantic accepts reads back as it was written.
pub read-claim_row_of :
    (c : Claim) (claim_id : String) (key : Option String) (created updated : ℕ)
    → c.claim_id ≡ claim_id
    → c.pdf_ref ≡ none
    → validate_metadata c.metadata ≡ ok c.metadata
    → c.created_at ≡ some created
    → c.updated_at ≡ some updated
    → read_claim (claim_row_of claim_id c key created updated) ≡ ok c
unfolding read_claim
read-claim_row_of c claim_id key created updated i p m cr up =
    ground (arith, named-status_text c.status)

-- An update writes what an event may change.
pub read-update_claim :
    (old : ClaimRow) (b c : Claim) (key : Option String) (created updated : ℕ)
    → read_claim old ≡ ok b
    → c.claim_id ≡ b.claim_id
    → c.pdf_ref ≡ b.pdf_ref
    → c.metadata ≡ b.metadata
    → c.created_at ≡ b.created_at
    → c.updated_at ≡ some updated
    → read_claim (update_claim (claim_row_of old.claim_id c key created updated) old) ≡ ok c
unfolding read_claim validate_metadata
read-update_claim old b c key created updated h i p m cr up =
    ground (arith, named-status_text c.status, eq_refl old.claim_id)
