-- ===== src/Postgres/Append.antt =====
-- PostgresEventStore.append: what a transaction reads, what it writes, and its rollback.
use insurance_claim_ai.Prelude.{
  ℕ, ◌+◌, String, true, false, Option, none, some, List, [], ◌∷◌, ◌==◌,
}
use insurance_claim_ai.Domain.Errors.{
  Result, ok, err, key_error, not_null_violation, require, ◌>>=◌,
}
use insurance_claim_ai.Domain.Models.{Claim, ModelPrediction, validate_metadata}
use insurance_claim_ai.Domain.Events.{DomainEvent, EventType, Payload, predictions_ready}
use insurance_claim_ai.Domain.Names.{status_text, status_named, type_text}
use insurance_claim_ai.EventStore.{Stamp}
use insurance_claim_ai.Projection.{project}
use insurance_claim_ai.Postgres.{
  EventRow, ClaimRow, ModelRow, QueueRow, Database, Columns, insert_event, upsert_claim,
  insert_outbox, upsert_model, max_seq,
}

-- `SELECT COALESCE(MAX(seq), 0) + 1`, and the event that is built on it.
abbrev pub read_seq : Database → Stamp → String → EventType → Payload → DomainEvent
read_seq db stamp claim_id type payload = record {
  event_id = stamp.id;
  claim_id = claim_id;
  seq = max_seq claim_id db.claim_events + 1;
  type = type;
  payload = payload;
  occurred_at = stamp.now;
}

-- `SELECT * FROM claims WHERE claim_id=$1`
abbrev pub row_of : List ClaimRow → String → Option ClaimRow
row_of [] claim_id = none
row_of (r ∷ rows) claim_id = elim (r.claim_id == claim_id) [
  | true ↦ some r
  | false ↦ row_of rows claim_id
]

-- `Claim(...)` of a row, which pydantic validates.
unfoldable pub read_claim : ClaimRow → Result Claim
read_claim r = do
  status ← status_named r.status
  metadata ← validate_metadata r.metadata
  ok (record {
    claim_id = r.claim_id;
    status = status;
    metadata = metadata;
    pdf_ref = none;
    ocr_ref = r.ocr_ref;
    decision = r.decision;
    reason_codes = r.reason_codes;
    created_at = some r.created_at;
    updated_at = some r.updated_at;
  })

abbrev pub read_row : Option ClaimRow → Result (Option Claim)
read_row none = ok none
read_row (some r) = do c ← read_claim r; ok (some c)

-- `_get`
unfoldable pub load_claim : Database → String → Result (Option Claim)
load_claim db claim_id = read_row (row_of db.claims claim_id)

-- `project(current, event)`, before anything is written.
unfoldable pub check_event : Database → DomainEvent → Result Claim
check_event db e = do current ← load_claim db e.claim_id; project current e

abbrev pub event_row_of : DomainEvent → EventRow
event_row_of e = record {
  event_id = e.event_id;
  claim_id = e.claim_id;
  seq = e.seq;
  type = type_text e.type;
  payload = e.payload;
  occurred_at = e.occurred_at;
}

abbrev pub claim_row_of : String → Claim → Option String → ℕ → ℕ → ClaimRow
claim_row_of claim_id c key created updated = record {
  claim_id = claim_id;
  status = status_text c.status;
  customer_id = c.metadata.customer_id;
  callback_url = c.metadata.callback_url;
  metadata = c.metadata;
  ocr_ref = c.ocr_ref;
  decision = c.decision;
  reason_codes = c.reason_codes;
  idempotency_key = key;
  created_at = created;
  updated_at = updated;
}

abbrev pub model_row_of : String → ModelPrediction → ModelRow
model_row_of claim_id p = record {
  claim_id = claim_id;
  model_name = p.model_name;
  model_version = p.model_version;
  output = p.output;
  confidence = p.confidence;
  latency_ms = p.latency_ms;
  tokens_cost = p.tokens_cost;
}

abbrev pub queue_row_of : DomainEvent → QueueRow
queue_row_of e = record {
  event_id = e.event_id;
  topic = "claim-events";
  claim_id = e.claim_id;
  payload = e;
  published = false;
}

-- `async with conn.transaction()`: an exception rolls every write back.
abbrev pub commit_or_rollback :
    Database → DomainEvent → Result Database → Result DomainEvent × Database
commit_or_rollback db e (ok written) = (ok e, written)
commit_or_rollback db e (err x) = (err x, db)

module _ (columns : Columns) where
  -- `for p in payload["predictions"]`
  unfoldable pub write_models :
      String → List ModelPrediction → List ModelRow → Result (List ModelRow)
  write_models claim_id [] rows = ok rows
  write_models claim_id (p ∷ preds) rows = do
    row ← columns.model_row (model_row_of claim_id p)
    write_models claim_id preds (upsert_model rows row)

  abbrev pub write_predictions : DomainEvent → EventType → List ModelRow → Result (List ModelRow)
  write_predictions e predictions_ready rows = do
    preds ← require e.payload.predictions key_error
    write_models e.claim_id preds rows
  write_predictions e _ rows = ok rows

  -- The writes of the transaction, in order, on what is committed by then.
  unfoldable pub write : Database → DomainEvent → Claim → Option String → Result Database
  write db e c key = do
    event_row ← columns.event_row (event_row_of e)
    events ← insert_event db.claim_events event_row
    created ← require c.created_at not_null_violation
    updated ← require c.updated_at not_null_violation
    claim_row ← columns.claim_row (claim_row_of e.claim_id c key created updated)
    claims ← upsert_claim db.claims claim_row
    outbox ← insert_outbox db.outbox (queue_row_of e)
    models ← write_predictions e e.type db.model_outputs
    ok (record { claim_events = events; claims = claims; outbox = outbox; model_outputs = models })

  -- A transaction that no other interrupts.
  unfoldable pub append_row :
      Database
      → Stamp
      → String
      → EventType
      → Payload
      → Option String
      → Result DomainEvent × Database
  append_row db stamp claim_id type payload key =
      let e = read_seq db stamp claim_id type payload in
      commit_or_rollback db e (check_event db e >>= λ c. write db e c key)
