-- ===== src/Postgres/Outputs.antt =====
-- The table model_outputs: the predictions that PostgresEventStore keeps of a claim.
use insurance_claim_ai.Prelude.{
  ◌≡◌, inl, inr, refl, ◌∙◌, String, Bool, true, false, ◌&&◌, Option, none, some, List, [], ◌∷◌,
  ◌++◌, map, arith, any, Option-cases, if◌then◌else◌, ◌==◌, eq_iff, or_else,
}
use insurance_claim_ai.Domain.Errors.{ok, >>=-eq-ok}
use insurance_claim_ai.Domain.Models.{ModelPrediction}
use insurance_claim_ai.Domain.Events.{DomainEvent, EventType, predictions_ready}
use insurance_claim_ai.Domain.Names.{type_text}
use insurance_claim_ai.Postgres.{
  Columns, IsLossless, Database, EventRow, ModelRow, same_model, update_model, upsert_model,
}
use insurance_claim_ai.Postgres.Append.{model_row_of, event_row_of, write_models, write_predictions}
use insurance_claim_ai.Postgres.Queries.{read_model, rows_of, mark_rows}
use insurance_claim_ai.Postgres.Agree.{write-Written}
use insurance_claim_ai.Postgres.Rows.{rows_of-insert_event}
use insurance_claim_ai.Postgres.Runs.{
  Interleaving, Transaction, initial, begin, check, committed, rollback, relay, numbered, checked,
}

-- The row is of a claim, a model and a version.
abbrev pub is_output_of : String → String → String → ModelRow → Bool
is_output_of claim_id name version r =
    (r.claim_id == claim_id) && (r.model_name == name) && (r.model_version == version)

-- What a table has of a model.
abbrev pub output_of : List ModelRow → String → String → String → Option ModelPrediction
output_of [] claim_id name version = none
output_of (r ∷ rows) claim_id name version =
    let rest = output_of rows claim_id name version in
    if is_output_of claim_id name version r then some (read_model r) else rest

-- A prediction of a model that said something before: the output and the confidence are its own, the
-- latency and the cost those that were first said.
abbrev pub said_again : Option ModelPrediction → ModelPrediction → ModelPrediction
said_again none p = p
said_again (some old) p = record p { latency_ms = old.latency_ms; tokens_cost = old.tokens_cost }

-- What the predictions say of the model, after what was said before.
abbrev pub said :
    String → String → Option ModelPrediction → List ModelPrediction → Option ModelPrediction
said name version old [] = old
said name version old (p ∷ preds) =
    said name version
      (if (p.model_name == name) && (p.model_version == version)
        then some (said_again old p)
        else old)
      preds

output_of-update_other :
    (rows : List ModelRow) (new : ModelRow) (claim_id name version : String)
    → is_output_of claim_id name version new ≡ false
    → output_of (map (update_model new) rows) claim_id name version
      ≡ output_of rows claim_id name version
output_of-update_other [] new claim_id name version h = refl
output_of-update_other (r ∷ rows) new claim_id name version h = ground (
  arith,
  output_of-update_other rows new claim_id name version h,
  eq_iff r.claim_id new.claim_id,
  eq_iff r.model_name new.model_name,
  eq_iff r.model_version new.model_version,
)

output_of-update_self :
    (rows : List ModelRow) (new : ModelRow)
    → any (same_model new) rows ≡ true
    → output_of (map (update_model new) rows) new.claim_id new.model_name new.model_version
      ≡ some (
          said_again
            (output_of rows new.claim_id new.model_name new.model_version)
            (read_model new))
output_of-update_self [] new h = absurd (cc)
output_of-update_self (r ∷ rows) new h = ground (
  arith,
  output_of-update_self rows new,
  eq_iff r.claim_id new.claim_id,
  eq_iff r.model_name new.model_name,
  eq_iff r.model_version new.model_version,
)

output_of-absent :
    (rows : List ModelRow) (new : ModelRow)
    → any (same_model new) rows ≡ false
    → output_of rows new.claim_id new.model_name new.model_version ≡ none
output_of-absent [] new h = refl
output_of-absent (r ∷ rows) new h = ground (arith, output_of-absent rows new)

output_of-append :
    (rows : List ModelRow) (new : ModelRow) (claim_id name version : String)
    → any (same_model new) rows ≡ false
    → output_of (rows ++ new ∷ []) claim_id name version ≡ (
        if is_output_of claim_id name version new
        then some (said_again (output_of rows claim_id name version) (read_model new))
        else output_of rows claim_id name version)
output_of-append [] new claim_id name version h = refl
output_of-append (r ∷ rows) new claim_id name version h = ground (
  arith,
  output_of-append rows new claim_id name version,
  output_of-absent rows new,
  eq_iff new.claim_id claim_id,
  eq_iff new.model_name name,
  eq_iff new.model_version version,
)

output_of-upsert_model :
    (rows : List ModelRow) (new : ModelRow) (claim_id name version : String)
    → output_of (upsert_model rows new) claim_id name version ≡ (
        if is_output_of claim_id name version new
        then some (said_again (output_of rows claim_id name version) (read_model new))
        else output_of rows claim_id name version)
unfolding upsert_model
output_of-upsert_model rows new claim_id name version = ground (
  arith,
  output_of-append rows new claim_id name version,
  output_of-update_other rows new claim_id name version,
  output_of-update_self rows new,
  eq_iff new.claim_id claim_id,
  eq_iff new.model_name name,
  eq_iff new.model_version version,
)

write_models-output_of :
    (columns : Columns) (claim_id : String) (preds : List ModelPrediction)
    (rows rows' : List ModelRow) (asked name version : String)
    → IsLossless columns
    → write_models columns claim_id preds rows ≡ ok rows'
    → output_of rows' asked name version ≡ (
        if claim_id == asked
        then said name version (output_of rows asked name version) preds
        else output_of rows asked name version)
unfolding write_models
write_models-output_of columns claim_id [] rows rows' asked name version lossless h = ground arith
write_models-output_of columns claim_id (p ∷ preds) rows rows' asked name version lossless h =
    let new = model_row_of claim_id p in
    let (row, taken, rest) =
      >>=-eq-ok (columns.model_row new)
        (λ r. write_models columns claim_id preds (upsert_model rows r)) h in
    let same = lossless.model_row-eq new row taken in
    let later =
      write_models-output_of columns claim_id preds (upsert_model rows new) rows' asked name version
        lossless (rw (← same) rest) in
    later ∙ (rw (output_of-upsert_model rows new asked name version) (ground arith))

-- What the rows of events say of the model, in their order.
abbrev pub said_by :
    String → String → Option ModelPrediction → List EventRow → Option ModelPrediction
said_by name version old [] = old
said_by name version old (r ∷ rows) =
    said_by name version
      (if r.type == "PREDICTIONS_READY"
        then said name version old (or_else r.payload.predictions [])
        else old)
      rows

said_by-append :
    (name version : String) (rows more : List EventRow) (old : Option ModelPrediction)
    → said_by name version old (rows ++ more)
      ≡ said_by name version (said_by name version old rows) more
said_by-append name version [] more old = refl
said_by-append name version (r ∷ rows) more old = said_by-append name version rows more (
    if r.type == "PREDICTIONS_READY"
    then said name version old (or_else r.payload.predictions [])
    else old)

module _ (columns : Columns) (lossless : IsLossless columns) where
  write_predictions-said :
      (e : DomainEvent) (type : EventType) (rows rows' : List ModelRow)
      (asked name version : String)
      → write_predictions columns e type rows ≡ ok rows'
      → output_of rows' asked name version ≡ (
          if (e.claim_id == asked) && (type_text type == "PREDICTIONS_READY")
          then said name version
              (output_of rows asked name version)
              (or_else e.payload.predictions [])
          else output_of rows asked name version)
  write_predictions-said e predictions_ready rows rows' asked name version h =
      elim (Option-cases e.payload.predictions) [
        | inl missing ↦ absurd (ground (arith, missing))
        | inr (preds, there) ↦ ground (
          arith,
          there,
          write_models-output_of columns e.claim_id preds rows rows' asked name version lossless,
        )
      ]
  write_predictions-said e _ rows rows' asked name version h = ground arith

  -- After any interleaving, what model_outputs has of a model of a claim is what the claim's
  -- PREDICTIONS_READY events say of it, one after the other: the output and the confidence of the last
  -- prediction of the model and its version, with the latency and the cost of the first.
  pub Interleaving-output_of :
      (db : Database) (ts : List Transaction) (claim_id name version : String)
      → Interleaving columns db ts
      → output_of db.model_outputs claim_id name version
        ≡ said_by name version none (rows_of claim_id db.claim_events)
  unfolding mark_rows
  Interleaving-output_of db ts claim_id name version initial = refl
  Interleaving-output_of db ts claim_id name version
        (begin {ts = us} stamp of_claim type payload key r) =
      Interleaving-output_of db us claim_id name version r
  Interleaving-output_of db ts claim_id name version (check before after e c key h r) =
      Interleaving-output_of db (before ++ numbered e key ∷ after) claim_id name version r
  Interleaving-output_of db ts claim_id name version
        (committed {db = old} new before after e c key h r) =
      let rest =
        Interleaving-output_of old (before ++ checked e c key ∷ after) claim_id name version r in
      let written = write-Written columns lossless old e c key db h in
      let others =
        write_predictions-said e e.type old.model_outputs db.model_outputs claim_id name version
          written.models_eq in
      let appended =
        rows_of-insert_event old.claim_events db.claim_events (event_row_of e) claim_id
          written.event_eq in
      ground (
        arith,
        rest,
        others,
        appended,
        said_by-append name version (rows_of claim_id old.claim_events) (event_row_of e ∷ []) none,
      )
  Interleaving-output_of db ts claim_id name version (rollback before after t r) =
      Interleaving-output_of db (before ++ t ∷ after) claim_id name version r
  Interleaving-output_of db ts claim_id name version (relay {db = old} ids r) =
      Interleaving-output_of old ts claim_id name version r
