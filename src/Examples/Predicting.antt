-- ===== src/Examples/Predicting.antt =====
-- Predictions in the tables of PostgresEventStore: of two models, then of one of them again.
use insurance_claim_ai.Prelude.{◌≡◌, refl, String, none, some, List, [], ◌∷◌, ◌++◌, ℕ}
use insurance_claim_ai.Prelude.Int.{pos}
use insurance_claim_ai.Domain.Errors.{ok}
use insurance_claim_ai.Domain.Models.{
  Claim, ClaimStatus, ocr_running, ocr_done, llm_running, llm_done, ClaimStatus-discrete,
  ModelPrediction,
}
use insurance_claim_ai.Domain.Events.{
  DomainEvent, EventType, Payload, ocr_started, ocr_completed, llm_started, predictions_ready,
  empty_payload,
}
use insurance_claim_ai.Domain.Names.{status_named}
use insurance_claim_ai.Projection.{project, allowed, event_status}
use insurance_claim_ai.Value.{whole}
use insurance_claim_ai.Examples.Data.{claim_at}
use insurance_claim_ai.Examples.Persisting.{
  open_columns, open_columns-IsLossless, received_database, received_run,
}
use insurance_claim_ai.Postgres.{
  Database, ModelRow, insert_event, upsert_claim, insert_outbox, upsert_model,
}
use insurance_claim_ai.Postgres.Append.{
  read_seq, check_event, write, write_models, load_claim, read_claim, event_row_of, claim_row_of,
  queue_row_of, model_row_of,
}
use insurance_claim_ai.Postgres.Queries.{rows_of}
use insurance_claim_ai.Postgres.Runs.{Interleaving, begin, check, committed}
use insurance_claim_ai.Postgres.Outputs.{said_by, Interleaving-output_of}

abbrev small_one : ModelPrediction
small_one = record {
  model_name = "small";
  model_version = "1";
  output = [];
  confidence = whole (pos 1);
  latency_ms = 5;
  tokens_cost = 9;
}

abbrev large_one : ModelPrediction
large_one = record small_one { model_name = "large" }

abbrev small_again : ModelPrediction
small_again = record small_one { confidence = whole (pos 0); latency_ms = 7 }

abbrev claim_then : ClaimStatus → ℕ → Claim
claim_then status now = record (claim_at status) { ocr_ref = some "ref"; updated_at = some now }

abbrev event_in : Database → String → ℕ → EventType → Payload → DomainEvent
event_in db id now type payload = read_seq db (record { id = id; now = now }) "c1" type payload

-- The tables after one more event.
abbrev after : Database → DomainEvent → Claim → List ModelRow → Database
after db e c models = record {
  claim_events = db.claim_events ++ event_row_of e ∷ [];
  claims = claim_row_of "c1" c (some "k1") 1 e.occurred_at ∷ [];
  outbox = db.outbox ++ queue_row_of e ∷ [];
  model_outputs = models;
}

one_more :
    (db db' : Database) (id : String) (now : ℕ) (type : EventType) (payload : Payload) (c : Claim)
    → check_event db (event_in db id now type payload) ≡ ok c
    → write open_columns db (event_in db id now type payload) c none ≡ ok db'
    → Interleaving open_columns db []
    → Interleaving open_columns db' []
one_more db db' id now type payload c accepted stored run =
    committed db' [] [] (event_in db id now type payload) c none stored (
      check [] [] (event_in db id now type payload) c none accepted
        (begin (record { id = id; now = now }) "c1" type payload none run))

abbrev ready : List ModelPrediction → Payload
ready preds = record empty_payload { predictions = some preds }

abbrev reading : Database
reading =
    after received_database (event_in received_database "e2" 2 ocr_started empty_payload)
      (record (claim_at ocr_running) { updated_at = some 2 }) []

abbrev has_ref : Payload
has_ref = record empty_payload { ocr_ref = some "ref" }

abbrev read_out : Database
read_out = after reading (event_in reading "e3" 3 ocr_completed has_ref) (claim_then ocr_done 3) []

abbrev scoring : Database
scoring =
    after read_out (event_in read_out "e4" 4 llm_started empty_payload) (claim_then llm_running 4)
      []

abbrev scored : Database
scored =
    after scoring (event_in scoring "e5" 5 predictions_ready (ready (small_one ∷ large_one ∷ [])))
      (claim_then llm_done 5) (model_row_of "c1" small_one ∷ model_row_of "c1" large_one ∷ [])

abbrev scored_again : Database
scored_again =
    after scored (event_in scored "e6" 6 predictions_ready (ready (small_again ∷ [])))
      (claim_then llm_done 6)
      (model_row_of "c1" (record small_one { confidence = whole (pos 0) })
        ∷ model_row_of "c1" large_one
        ∷ [])

predicted_run : Interleaving open_columns scored_again []
unfolding check_event load_claim read_claim status_named project ClaimStatus-discrete allowed
    event_status write write_models insert_event upsert_claim insert_outbox upsert_model
predicted_run =
    one_more scored scored_again "e6" 6 predictions_ready (ready (small_again ∷ []))
      (claim_then llm_done 6) refl refl
      (one_more scoring scored "e5" 5 predictions_ready (ready (small_one ∷ large_one ∷ []))
        (claim_then llm_done 5) refl refl
        (one_more read_out scoring "e4" 4 llm_started empty_payload (claim_then llm_running 4) refl
          refl
          (one_more reading read_out "e3" 3 ocr_completed has_ref (claim_then ocr_done 3) refl refl
            (one_more received_database reading "e2" 2 ocr_started empty_payload
              (record (claim_at ocr_running) { updated_at = some 2 }) refl refl received_run))))

-- The second prediction keeps the latency of the first.
Interleaving-output_of_example :
    some (record small_one { confidence = whole (pos 0) })
    ≡ said_by "small" "1" none (rows_of "c1" scored_again.claim_events)
Interleaving-output_of_example =
    Interleaving-output_of open_columns open_columns-IsLossless scored_again [] "c1" "small" "1"
      predicted_run
