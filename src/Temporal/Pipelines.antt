-- ===== src/Temporal/Pipelines.antt =====
-- The workflow over every registered pipeline, and over one that registration should have refused.
use insurance_claim_ai.Prelude.{
  ◌≡◌, ◌⊎◌, inl, inr, refl, String, true, false, Option, none, some, List, [], ◌∷◌, arith,
}
use insurance_claim_ai.Domain.Errors.{Result, ok, err, Error, illegal_transition, activity_error}
use insurance_claim_ai.Domain.Models.{Claim, received, adjudicated, persisted, failed}
use insurance_claim_ai.Domain.Events.{DomainEvent, ocr_started, metadata_logged, empty_payload}
use insurance_claim_ai.Temporal.Action.{Ensures, bind_rule, weaken_rule, World, Services}
use insurance_claim_ai.ClaimTypes.{
  Stage, Stage-discrete, upload, ocr, adjudicate, persist, member, validate_pipeline, set_of,
  misplaced, order,
}
use insurance_claim_ai.ClaimTypes.Pipeline.{Precedes, IsPipeline, validate-IsPipeline}
use insurance_claim_ai.Temporal.Activities.{record_event}
use insurance_claim_ai.Projection.{event_status}
use insurance_claim_ai.Temporal.Retry.{execute_rule}
use insurance_claim_ai.Temporal.Faults.{is_order_error, Safe, AreSafe}
use insurance_claim_ai.Temporal.Storing.{At}
use insurance_claim_ai.Temporal.Order.{IsPipeline-Fits}
use insurance_claim_ai.Temporal.Workflow.{
  Run, Environment, activity, emit, run_ocr_stage, ocr_with, run_stage, run, init,
}
use insurance_claim_ai.Prelude.{true≢false}
use insurance_claim_ai.Projection.{project}
use insurance_claim_ai.EventStore.Atomic.{append_refused}
use insurance_claim_ai.Temporal.Activities.{append_event}
use insurance_claim_ai.Temporal.Safety.{On, Stops, emit_stays, laws}
use insurance_claim_ai.Temporal.Stages.{RunEnds, stages_end}

-- For a pipeline that passes validation, with no ADJUDICATE before an OCR, a claim that is RECEIVED,
-- and services that raise no order errors of their own: whatever the signals, the services and the
-- attempts do, the run raises no illegal transition and no failed assertion, and when it returns, the
-- claim is PERSISTED, or FAILED.
pub pipeline_safe :
    (sv : Services) (env : Environment) (claim_id : String) (stages : List Stage) (w : World)
    → AreSafe sv
    → validate_pipeline stages ≡ ok tt
    → (member ocr stages ≡ true → Precedes ocr adjudicate stages)
    → At claim_id received w
    → Ensures
        (λ e t. is_order_error e ≡ false)
        (λ x t. At claim_id persisted t.world ⊎ At claim_id failed t.world)
        (run sv env claim_id stages (init w))
unfolding run event_status
pipeline_safe sv env claim_id [] w safe valid ordered h =
    absurd (true≢false (validate-IsPipeline [] valid).persisted refl)
pipeline_safe sv env claim_id (s ∷ l) w safe valid ordered h =
    let p : IsPipeline (s ∷ l) = validate-IsPipeline (s ∷ l) valid in
    bind_rule (λ e t. Safe e)
      (λ x v. At claim_id received v.world × (v.pdf_key ≡ none) × (v.uploaded ≡ false))
      (λ x t. At claim_id persisted t.world ⊎ At claim_id failed t.world)
      (emit sv env claim_id metadata_logged empty_payload) _ (init w)
      (emit_stays sv safe env claim_id received metadata_logged empty_payload (λ e. cc) tt tt refl
        (init w) h)
      (λ x v m.
        weaken_rule (λ e t. Safe e)
          (RunEnds sv env claim_id (λ e t. Safe e) (On sv safe env claim_id)
            (Stops sv safe env claim_id) (s ∷ l))
          (λ y t. At claim_id persisted t.world ⊎ At claim_id failed t.world) _
          (stages_end sv env claim_id (λ e t. Safe e) (On sv safe env claim_id)
            (Stops sv safe env claim_id) (laws sv safe env claim_id) (s ∷ l) received false v
            (IsPipeline-Fits (s ∷ l) p ordered) (inl p.persisted)
            (m.0, λ e. cc, λ e. absurd (true≢false e m.2)))
          (λ y t ends. elim ends [ inl done ↦ inl done | inr stopped ↦ inr stopped.1 ]))

project_adjudicated :
    (c : Claim) (e : DomainEvent)
    → c.status ≡ adjudicated
    → e.type ≡ ocr_started
    → project (some c) e ≡ err illegal_transition
unfolding project
project_adjudicated c e h k = ground arith

-- OCR_STARTED on an adjudicated claim is refused, and changes nothing.
started_refused :
    (sv : Services) (claim_id : String) (w : World)
    → At claim_id adjudicated w
    → Ensures
        (λ e t. (is_order_error e ≡ true ⊎ (e ≡ activity_error)) × At claim_id adjudicated t)
        (λ u t. ⊥)
        (record_event sv claim_id ocr_started empty_payload w)
unfolding record_event append_event
started_refused sv claim_id w (c, there, at) =
    rw
      (append_refused w.store (sv.stamp w.calls) claim_id ocr_started empty_payload none
        illegal_transition (rw there (project_adjudicated c _ at refl)))
      (inl refl, (c, there, at))

-- How the OCR stage fails on an adjudicated claim.
abbrev pub Stuck : String → Error → Run → Type 0
Stuck claim_id e t =
    (is_order_error e ≡ true ⊎ (e ≡ activity_error)) × At claim_id adjudicated t.world

Stuck-world :
    (claim_id : String) (s : Run) (r : Result (Unit {0})) (w : World)
    → Ensures
        (λ e t. (is_order_error e ≡ true ⊎ (e ≡ activity_error)) × At claim_id adjudicated t)
        (λ u t. ⊥)
        (r, w)
    → Ensures (Stuck claim_id) (λ u t. ⊥) (r, record s { world = w })
Stuck-world claim_id s (ok u) w h = h
Stuck-world claim_id s (err e) w h = h

emit-Stuck :
    (sv : Services) (env : Environment) (claim_id : String) (s : Run)
    → At claim_id adjudicated s.world
    → Ensures (Stuck claim_id) (λ u t. ⊥) (emit sv env claim_id ocr_started empty_payload s)
unfolding emit activity
emit-Stuck sv env claim_id s h = Stuck-world claim_id s _ _ (
    execute_rule (At claim_id adjudicated) (λ u t. ⊥)
      (λ e. is_order_error e ≡ true ⊎ (e ≡ activity_error)) (λ u t q. absurd q)
      (record_event sv claim_id ocr_started empty_payload) (started_refused sv claim_id) (inr refl)
      5 activity_error (env.schedule s.world.calls) s.world (inr refl) h)

-- Validation accepts the pipeline ADJUDICATE, UPLOAD, OCR, PERSIST. But the OCR stage of an
-- adjudicated claim never returns: under every schedule of attempts it raises an order error, or ends
-- with the last attempts lost, and the claim stays ADJUDICATED.
pub ocr_behind_adjudicate :
    (validate_pipeline (adjudicate ∷ upload ∷ ocr ∷ persist ∷ []) ≡ ok tt)
    × ((sv : Services) (env : Environment) (claim_id : String) (s : Run)
        → At claim_id adjudicated s.world
        → Ensures (Stuck claim_id) (λ done t. ⊥) (run_stage sv env claim_id ocr s))
unfolding validate_pipeline set_of misplaced order Stage-discrete run_stage run_ocr_stage
ocr_behind_adjudicate = (refl, λ sv env claim_id s h. stuck sv env claim_id s h s.pdf_key)
  where
    stuck :
        (sv : Services) (env : Environment) (claim_id : String) (s : Run)
        → At claim_id adjudicated s.world
        → (o : Option String)
        → Ensures (Stuck claim_id) (λ done t. ⊥) (ocr_with sv env claim_id o s)
    stuck sv env claim_id s h none = (inl refl, h)
    stuck sv env claim_id s h (some key) =
        bind_rule (Stuck claim_id) (λ u t. ⊥) (λ done t. ⊥)
          (emit sv env claim_id ocr_started empty_payload) _ s (emit-Stuck sv env claim_id s h)
          (λ u t q. absurd q)
