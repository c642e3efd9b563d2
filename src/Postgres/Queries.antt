-- ===== src/Postgres/Queries.antt =====
-- The queries of PostgresEventStore, and the update that marks what the relay published.
use insurance_claim_ai.Prelude.{
  ℕ, String, Bool, true, false, not, ◌&&◌, Option, none, some, List, [], ◌∷◌, map, ◌==◌,
  if◌then◌else◌, any, leb, keep_if, take,
}
use insurance_claim_ai.Domain.Errors.{Result, ok, ◌>>=◌}
use insurance_claim_ai.Domain.Models.{Claim, ModelPrediction}
use insurance_claim_ai.Domain.Events.{DomainEvent}
use insurance_claim_ai.Domain.Names.{type_named}
use insurance_claim_ai.EventStore.{is_decision}
use insurance_claim_ai.Postgres.{EventRow, ClaimRow, ModelRow, QueueRow, Database, Columns}
use insurance_claim_ai.Postgres.Append.{load_claim}

-- `SELECT claim_id FROM claims WHERE idempotency_key=$1`
abbrev pub row_with_key : List ClaimRow → String → Option ClaimRow
row_with_key [] key = none
row_with_key (r ∷ rows) key = elim (is_decision key r.idempotency_key) [
  | true ↦ some r
  | false ↦ row_with_key rows key
]

abbrev get_found : Database → Option ClaimRow → Result (Option Claim)
get_found db none = ok none
get_found db (some r) = load_claim db r.claim_id

unfoldable pub find_by_key : Database → String → Result (Option Claim)
find_by_key db key = get_found db (row_with_key db.claims key)

-- `WHERE claim_id=$1`
abbrev pub rows_of : String → List EventRow → List EventRow
rows_of claim_id rows = keep_if (λ r. r.claim_id == claim_id) rows

-- `ORDER BY seq`
abbrev pub insert_by_seq : EventRow → List EventRow → List EventRow
insert_by_seq r [] = r ∷ []
insert_by_seq r (q ∷ rows) =
    let later = insert_by_seq r rows in if leb r.seq q.seq then r ∷ q ∷ rows else q ∷ later

abbrev pub order_by_seq : List EventRow → List EventRow
order_by_seq [] = []
order_by_seq (r ∷ rows) = insert_by_seq r (order_by_seq rows)

-- `DomainEvent(...)` of a row.
unfoldable pub read_event : EventRow → Result DomainEvent
read_event r = do
  type ← type_named r.type
  ok (record {
    event_id = r.event_id;
    claim_id = r.claim_id;
    seq = r.seq;
    type = type;
    payload = r.payload;
    occurred_at = r.occurred_at;
  })

-- `[f(r) for r in rows]`, which ends at the first exception.
abbrev pub read_all {ℓ κ} : {A : Type ℓ} {B : Type κ} → (A → Result B) → List A → Result (List B)
read_all f [] = ok []
read_all f (r ∷ rows) = do x ← f r; xs ← read_all f rows; ok (x ∷ xs)

unfoldable pub events : Database → String → Result (List DomainEvent)
events db claim_id = read_all read_event (order_by_seq (rows_of claim_id db.claim_events))

abbrev pub read_model : ModelRow → ModelPrediction
read_model r = record {
  model_name = r.model_name;
  model_version = r.model_version;
  output = r.output;
  confidence = r.confidence;
  latency_ms = r.latency_ms;
  tokens_cost = r.tokens_cost;
}

-- `ORDER BY model_name`, in the order of the database's collation.
module _ (before : String → String → Bool) where
  abbrev insert_by_name : ModelRow → List ModelRow → List ModelRow
  insert_by_name r [] = r ∷ []
  insert_by_name r (q ∷ rows) =
      let later = insert_by_name r rows in
      if before q.model_name r.model_name then q ∷ later else r ∷ q ∷ rows

  abbrev order_by_name : List ModelRow → List ModelRow
  order_by_name [] = []
  order_by_name (r ∷ rows) = insert_by_name r (order_by_name rows)

  unfoldable pub predictions : Database → String → List ModelPrediction
  predictions db claim_id =
      map read_model (order_by_name (keep_if (λ r. r.claim_id == claim_id) db.model_outputs))

-- The rows in an order that the database chooses: that of the table.
unfoldable pub claims_with : Database → String → List String
claims_with db status = map (λ r. r.claim_id) (keep_if (λ r. r.status == status) db.claims)

abbrev pub is_pending : ClaimRow → Bool
is_pending r = is_decision "PEND" r.decision && (r.status == "ADJUDICATED")

-- `[c for r in rows if (c := await self._get(conn, r["claim_id"]))]`
abbrev keep_found : Option Claim → List Claim → List Claim
keep_found none rest = rest
keep_found (some c) rest = c ∷ rest

abbrev pub get_all : Database → List ClaimRow → Result (List Claim)
get_all db [] = ok []
get_all db (r ∷ rows) = do
  found ← load_claim db r.claim_id
  rest ← get_all db rows
  ok (keep_found found rest)

unfoldable pub pending_review : Database → Result (List Claim)
pending_review db = get_all db (keep_if is_pending db.claims)

abbrev pub is_queued : QueueRow → Bool
is_queued r = not r.published

-- `SELECT payload FROM outbox WHERE NOT published ORDER BY id LIMIT $1`
unfoldable pub fetch_queued : Columns → Database → ℕ → Result (List DomainEvent)
fetch_queued columns db limit =
    read_all (λ r. columns.reread r.payload) (take limit (keep_if is_queued db.outbox))

-- `UPDATE outbox SET published=true WHERE event_id = ANY($1)`
abbrev pub mark_queued : List String → QueueRow → QueueRow
mark_queued ids r = if any (λ i. i == r.event_id) ids then record r { published = true } else r

unfoldable pub mark_rows : Database → List String → Database
mark_rows db ids = record db { outbox = map (mark_queued ids) db.outbox }
