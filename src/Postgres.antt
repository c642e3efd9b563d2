-- ===== src/Postgres.antt =====
-- claimpipe/eventstore.py, PostgresEventStore, over the tables of migrations/: the rows and the
-- statements. A statement gives the table that it leaves, or the error that ends the transaction.
pub mod Append
pub mod Queries
pub mod Rows
pub mod Agree
pub mod Numbering
pub mod PrimaryKey
pub mod Runs
pub mod History
pub mod Conflict
pub mod Refinement
pub mod Listing
pub mod Keys
pub mod Outputs
use insurance_claim_ai.Prelude.{
  ℕ, ◌≡◌, String, Bool, true, false, ◌&&◌, ◌||◌, Option, none, some, List, [], ◌∷◌, ◌++◌, map, ◌==◌,
  if◌then◌else◌, any, nat_eq, ltb, Dict,
}
use insurance_claim_ai.Domain.Errors.{Result, ok, err, unique_violation}
use insurance_claim_ai.Domain.Models.{ClaimMetadata}
use insurance_claim_ai.Domain.Events.{DomainEvent, Payload}
use insurance_claim_ai.Value.{Value, Float}

-- A row of claim_events.
pub record EventRow : Type 0 where
  pub event_id : String
  pub claim_id : String
  pub seq : ℕ
  pub type : String
  pub payload : Payload
  pub occurred_at : ℕ

-- A row of claims. `pdf_ref` is never written and never read.
pub record ClaimRow : Type 0 where
  pub claim_id : String
  pub status : String
  pub customer_id : String
  pub callback_url : String
  pub metadata : ClaimMetadata
  pub ocr_ref : Option String
  pub decision : Option String
  pub reason_codes : List String
  pub idempotency_key : Option String
  pub created_at : ℕ
  pub updated_at : ℕ

-- A row of model_outputs.
pub record ModelRow : Type 0 where
  pub claim_id : String
  pub model_name : String
  pub model_version : String
  pub output : Dict Value
  pub confidence : Float
  pub latency_ms : ℕ
  pub tokens_cost : ℕ

-- A row of outbox, whose payload is the JSON text of an event, here that event. The table's order is
-- that of `id`.
pub record QueueRow : Type 0 where
  pub event_id : String
  pub topic : String
  pub claim_id : String
  pub payload : DomainEvent
  pub published : Bool

pub record Database : Type 0 where
  pub claim_events : List EventRow
  pub claims : List ClaimRow
  pub outbox : List QueueRow
  pub model_outputs : List ModelRow

-- The tables as the migrations leave them.
abbrev pub empty_database : Database
empty_database = record { claim_events = []; claims = []; outbox = []; model_outputs = [] }

-- The driver and the types of the columns: the row as the table holds it, or the error for a value
-- that a column refuses (NaN in JSONB, a number past INT). And pydantic: what it reads from the JSON
-- text of an event.
pub record Columns : Type 0 where
  pub event_row : EventRow → Result EventRow
  pub claim_row : ClaimRow → Result ClaimRow
  pub model_row : ModelRow → Result ModelRow
  pub reread : DomainEvent → Result DomainEvent

-- What a table takes it gives back, and so does the text of an event. Equality of two dicts of JSON is
-- Python's: JSONB keeps neither the order of the keys nor whether a number was an int or a float. The
-- events are those that pydantic takes, numbered from 1 and with no NaN.
pub record IsLossless (columns : Columns) : Type 0 where
  pub event_row-eq : (r r' : EventRow) → columns.event_row r ≡ ok r' → r' ≡ r
  pub claim_row-eq : (r r' : ClaimRow) → columns.claim_row r ≡ ok r' → r' ≡ r
  pub model_row-eq : (r r' : ModelRow) → columns.model_row r ≡ ok r' → r' ≡ r
  pub reread-eq : (e : DomainEvent) → columns.reread e ≡ ok e

-- `event_id TEXT PRIMARY KEY` and `UNIQUE (claim_id, seq)`
abbrev pub clashes : EventRow → EventRow → Bool
clashes new old =
    (old.event_id == new.event_id) || ((old.claim_id == new.claim_id) && nat_eq old.seq new.seq)

unfoldable pub insert_event : List EventRow → EventRow → Result (List EventRow)
insert_event rows new =
    if any (clashes new) rows then err unique_violation else ok (rows ++ new ∷ [])

abbrev pub is_row_of : String → ClaimRow → Bool
is_row_of claim_id row = row.claim_id == claim_id

-- `idempotency_key TEXT UNIQUE`: NULL is equal to no key.
abbrev pub same_key : Option String → Option String → Bool
same_key none old = false
same_key (some k) none = false
same_key (some k) (some j) = j == k

-- `DO UPDATE SET status, ocr_ref, decision, reason_codes, updated_at`
abbrev pub update_claim : ClaimRow → ClaimRow → ClaimRow
update_claim new old =
    if old.claim_id == new.claim_id
    then record old {
      status = new.status;
      ocr_ref = new.ocr_ref;
      decision = new.decision;
      reason_codes = new.reason_codes;
      updated_at = new.updated_at;
    }
    else old

-- `INSERT INTO claims ... ON CONFLICT (claim_id) DO UPDATE`
unfoldable pub upsert_claim : List ClaimRow → ClaimRow → Result (List ClaimRow)
upsert_claim rows new =
    if any (is_row_of new.claim_id) rows
    then ok (map (update_claim new) rows)
    else if any (λ r. same_key new.idempotency_key r.idempotency_key) rows
    then err unique_violation
    else ok (rows ++ new ∷ [])

-- The row takes its place at the commit. The source draws the BIGSERIAL id at the INSERT, so that of
-- two transactions that overlap the later to commit may have the smaller id.
unfoldable pub insert_outbox : List QueueRow → QueueRow → Result (List QueueRow)
insert_outbox rows new =
    if any (λ r. r.event_id == new.event_id) rows
    then err unique_violation
    else ok (rows ++ new ∷ [])

abbrev pub same_model : ModelRow → ModelRow → Bool
same_model new old =
    (old.claim_id == new.claim_id)
    && (old.model_name == new.model_name)
    && (old.model_version == new.model_version)

-- `DO UPDATE SET output, confidence`
abbrev pub update_model : ModelRow → ModelRow → ModelRow
update_model new old =
    if same_model new old
    then record old { output = new.output; confidence = new.confidence }
    else old

-- `INSERT INTO model_outputs ... ON CONFLICT (claim_id, model_name, model_version) DO UPDATE`
unfoldable pub upsert_model : List ModelRow → ModelRow → List ModelRow
upsert_model rows new =
    if any (same_model new) rows then map (update_model new) rows else rows ++ new ∷ []

-- `SELECT MAX(seq) FROM claim_events WHERE claim_id=$1`, 0 for no row.
abbrev larger_seq : ℕ → ℕ → ℕ
larger_seq a b = if ltb a b then b else a

abbrev pub max_seq : String → List EventRow → ℕ
max_seq claim_id [] = 0
max_seq claim_id (r ∷ rows) =
    let rest = max_seq claim_id rows in
    if r.claim_id == claim_id then larger_seq r.seq rest else rest
