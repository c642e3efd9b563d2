-- ===== src/Temporal/Workflow.antt =====
-- claimpipe/temporal/workflows.py: ClaimWorkflow, the engine that runs a claim's stages.
use insurance_claim_ai.Prelude.{
  ℕ, String, Bool, true, false, Option, none, some, List, [], ◌∷◌, if◌then◌else◌, or_else, ◌==◌,
}
use insurance_claim_ai.Domain.Errors.{ok, assertion_error, activity_error}
use insurance_claim_ai.Domain.Models.{
  ClaimStatus, received, ocr_running, ocr_done, llm_running, llm_done, adjudicated, persisted,
  failed,
}
use insurance_claim_ai.Domain.Events.{
  EventType, Payload, ocr_started, claim_failed, llm_started, review_completed, claim_persisted,
  metadata_logged, empty_payload,
}
use insurance_claim_ai.Temporal.Action.{Action, pure, raise, modify, ◌>>=◌, ◌>>◌, World, Services}
use insurance_claim_ai.Temporal.Activities.{record_event, run_ocr, run_llm, run_adjudication}
use insurance_claim_ai.ClaimTypes.{Stage, upload, ocr, llm, adjudicate, review, persist}
use insurance_claim_ai.Temporal.Retry.{Attempt, execute}

pub record Review : Type 0 where
  pub decision : String
  pub reason_code : Option String
  pub reviewer : Option String

pub data Signal : Type 0 where
  pdf_uploaded : String → Signal
  review_signal : Review → Signal

-- The fields of the workflow object, and the world that its activities work on.
pub record Run : Type 0 where
  pub world : World
  pub uploaded : Bool
  pub pdf_key : Option String
  pub status : ClaimStatus
  pub decision : Option String
  pub verdict : Option Review

-- What the environment does to one workflow: the signals that arrive until the wait of UPLOAD, and
-- of REVIEW, ends (a wait ends when its condition holds, else by its timeout), and how the attempts
-- of each activity call fare, by the number of events stored before it. Nobody else writes to the
-- claim between the attempts.
pub record Environment : Type 0 where
  pub until_upload : List Signal
  pub until_review : List Signal
  pub schedule : ℕ → List Attempt

-- The signal handlers.
abbrev pub receive : Signal → Run → Run
receive (pdf_uploaded key) s = record s { pdf_key = some key; uploaded = true }
receive (review_signal r) s = record s { verdict = some r }

unfoldable pub receive_all : List Signal → Run → Run
receive_all [] s = s
receive_all (x ∷ signals) s = receive_all signals (receive x s)

-- RetryPolicy(maximum_attempts=5), of _STD_RETRY and _OCR_RETRY.
unfoldable pub activity : {A : Type 0} → Environment → Action World A → Action Run A
activity env act s =
    let (r, w) = execute 5 activity_error (env.schedule s.world.calls) act s.world in
    (r, record s { world = w })

unfoldable pub emit : Services → Environment → String → EventType → Payload → Action Run (Unit {0})
emit sv env claim_id type payload = activity env (record_event sv claim_id type payload)

abbrev set_status : ClaimStatus → Action Run Bool
set_status status s = (ok true, record s { status = status })

abbrev pub review_payload : Review → Payload
review_payload r = record empty_payload {
  decision = some r.decision;
  reason_codes = some (or_else r.reason_code "MANUAL_REVIEW" ∷ []);
  reviewer = some (or_else r.reviewer "unknown");
}

abbrev pub is_pend : Option String → Bool
is_pend none = false
is_pend (some d) = d == "PEND"

module _ (sv : Services) (env : Environment) (claim_id : String) where
  abbrev pub fail_upload : Action Run Bool
  fail_upload = do
    emit sv env claim_id claim_failed (record empty_payload { reason = some "upload_timeout" })
    modify (λ s. record s { status = failed })
    pure false

  unfoldable pub run_upload : Action Run Bool
  run_upload s =
      let t = receive_all env.until_upload s in if t.uploaded then (ok true, t) else fail_upload t

  abbrev pub ocr_with : Option String → Action Run Bool
  ocr_with none = raise assertion_error
  ocr_with (some key) = do
    emit sv env claim_id ocr_started empty_payload
    modify (λ s. record s { status = ocr_running })
    activity env (run_ocr sv claim_id key)
    set_status ocr_done

  unfoldable pub run_ocr_stage : Action Run Bool
  run_ocr_stage s = ocr_with s.pdf_key s

  unfoldable pub run_llm_stage : Action Run Bool
  run_llm_stage = do
    emit sv env claim_id llm_started empty_payload
    modify (λ s. record s { status = llm_running })
    activity env (run_llm sv claim_id)
    set_status llm_done

  unfoldable pub run_adjudicate : Action Run Bool
  run_adjudicate = do
    d ← activity env (run_adjudication sv claim_id)
    modify (λ s. record s { decision = some d; status = adjudicated })
    pure true

  -- An unreviewed claim goes on as PEND.
  abbrev pub conclude : Option Review → Action Run Bool
  conclude none = pure true
  conclude (some r) = do
    emit sv env claim_id review_completed (review_payload r)
    modify (λ s. record s { decision = some r.decision })
    pure true

  unfoldable pub run_review : Action Run Bool
  run_review s =
      let t = receive_all env.until_review s in
      if is_pend s.decision then conclude t.verdict t else (ok true, s)

  unfoldable pub run_persist : Action Run Bool
  run_persist = do emit sv env claim_id claim_persisted empty_payload; set_status persisted

  -- ClaimWorkflow._run_stage
  unfoldable pub run_stage : Stage → Action Run Bool
  run_stage upload = run_upload
  run_stage ocr = run_ocr_stage
  run_stage llm = run_llm_stage
  run_stage adjudicate = run_adjudicate
  run_stage review = run_review
  run_stage persist = run_persist

  unfoldable pub run_stages : List Stage → Action Run (Unit {0})
  run_stages [] = pure tt
  run_stages (s ∷ stages) = do done ← run_stage s; if done then run_stages stages else pure tt

  -- `stages or DEFAULT_STAGES`
  abbrev pub or_default : List Stage → List Stage
  or_default [] = upload ∷ ocr ∷ llm ∷ adjudicate ∷ persist ∷ []
  or_default (s ∷ stages) = s ∷ stages

  -- ClaimWorkflow.run
  unfoldable pub run : List Stage → Action Run (Unit {0})
  run stages = do emit sv env claim_id metadata_logged empty_payload; run_stages (or_default stages)

-- ClaimWorkflow.__init__
abbrev pub init : World → Run
init w = record {
  world = w;
  uploaded = false;
  pdf_key = none;
  status = received;
  decision = none;
  verdict = none;
}
