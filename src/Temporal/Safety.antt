-- ===== src/Temporal/Safety.antt =====
-- The workflow over a pipeline: no stage makes an illegal move, whatever the services, the signals
-- and the attempts do.
use insurance_claim_ai.Prelude.{
  ◌≡◌, ◌≢◌, inl, inr, refl, sym, ap, ◌∙◌, String, Bool, true, Option, none, some, List, [], ◌∷◌,
  is_some,
}
use insurance_claim_ai.Domain.Errors.{Result, ok, err, Error, activity_error}
use insurance_claim_ai.Domain.Models.{
  ClaimStatus, received, ocr_running, ocr_done, llm_running, llm_done, adjudicated, persisted,
  failed,
}
use insurance_claim_ai.Domain.Events.{
  EventType, Payload, claim_received, ocr_started, claim_failed, llm_started, review_completed,
  claim_persisted, empty_payload,
}
use insurance_claim_ai.Temporal.Action.{Action, Ensures, bind_rule, if_rule, World, Services}
use insurance_claim_ai.Temporal.Activities.{record_event, run_ocr, run_llm, run_adjudication}
use insurance_claim_ai.Projection.{allowed, event_status}
use insurance_claim_ai.Projection.Diagram.{IsComplete}
use insurance_claim_ai.EventStore.Frame.{IsWritable}
use insurance_claim_ai.Temporal.Retry.{execute_rule}
use insurance_claim_ai.Temporal.Faults.{Safe, AreSafe}
use insurance_claim_ai.Temporal.Storing.{At, Within, Fails, stored_lands, stored_stays}
use insurance_claim_ai.Temporal.Landing.{run_ocr_lands, run_llm_lands, run_adjudication_lands}
use insurance_claim_ai.Temporal.Stages.{StageEnds, Done, StageLaws}
use insurance_claim_ai.Temporal.Workflow.{
  Review, Signal, pdf_uploaded, review_signal, Run, Environment, receive, receive_all, activity,
  emit, is_pend, run_upload, run_ocr_stage, ocr_with, run_llm_stage, run_adjudicate, conclude,
  review_payload, run_review, run_persist, fail_upload,
}

module _ (sv : Services) (safe : AreSafe sv) (env : Environment) (claim_id : String) where
  -- The claim's status, and a document where one is due.
  abbrev pub On : ClaimStatus → Bool → Run → Type 0
  On a u s =
      At claim_id a s.world
      × (u ≡ true → is_some s.pdf_key ≡ true)
      × (s.uploaded ≡ true → is_some s.pdf_key ≡ true)

  abbrev pub Errs : Error → Run → Type 0
  Errs e s = Safe e

  -- Only the world changed.
  abbrev pub Moved : ClaimStatus → Run → Run → Type 0
  Moved b s t = At claim_id b t.world × (t.pdf_key ≡ s.pdf_key) × (t.uploaded ≡ s.uploaded)

  Moved-rule :
      {A : Type 0} (E : Error → World → Type 0) (b : ClaimStatus) (s : Run) (r : Result A)
      (w : World)
      → ((e : Error) (t : World) → E e t → Safe e)
      → Ensures E (λ x t. At claim_id b t) (r, w)
      → Ensures Errs (λ x t. Moved b s t) (r, record s { world = w })
  Moved-rule E b s (ok x) w weaken h = (h, refl, refl)
  Moved-rule E b s (err e) w weaken h = weaken e w h

  -- An activity that moves the claim from `a` to `b`, over every schedule.
  activity_moves :
      {A : Type 0} (a b : ClaimStatus) (act : Action World A) (s : Run)
      → ((w : World)
          → Within claim_id a b w
          → Ensures (Fails claim_id a b) (λ x t. At claim_id b t) (act w))
      → At claim_id a s.world
      → Ensures Errs (λ x t. Moved b s t) (activity env act s)
  unfolding activity
  activity_moves a b act s once h =
      Moved-rule (Fails claim_id a b) b s _ _ (λ e t f. f.0)
        (execute_rule (Within claim_id a b) (λ x t. At claim_id b t) Safe (λ x t q. inr q) act once
          refl 5 activity_error (env.schedule s.world.calls) s.world refl (inl h))

  -- An event of the workflow that moves the claim.
  emit_moves :
      (a b : ClaimStatus) (type : EventType) (payload : Payload)
      → type ≢ claim_received
      → IsComplete type payload
      → IsWritable type payload
      → event_status type ≡ some b
      → allowed a b ≡ true
      → (s : Run) → At claim_id a s.world
      → Ensures Errs (λ x t. Moved b s t) (emit sv env claim_id type payload s)
  unfolding emit record_event
  emit_moves a b type payload other complete writable goes legal s h =
      activity_moves a b (record_event sv claim_id type payload) s
        (stored_lands sv claim_id a b type payload other complete writable goes legal) h

  -- An event that moves no status.
  pub emit_stays :
      (a : ClaimStatus) (type : EventType) (payload : Payload)
      → type ≢ claim_received
      → IsComplete type payload
      → IsWritable type payload
      → event_status type ≡ none
      → (s : Run) → At claim_id a s.world
      → Ensures Errs (λ x t. Moved a s t) (emit sv env claim_id type payload s)
  unfolding emit record_event activity
  emit_stays a type payload other complete writable stays s h =
      Moved-rule (λ e t. Safe e × At claim_id a t) a s _ _ (λ e t f. f.0)
        (execute_rule (At claim_id a) (λ x t. At claim_id a t) Safe (λ x t q. q)
          (record_event sv claim_id type payload)
          (stored_stays sv claim_id a type payload other complete writable stays) refl 5
          activity_error (env.schedule s.world.calls) s.world refl h)

  -- A stage that says that it is not done has failed the claim.
  abbrev pub Stops : Run → Type 0
  Stops t = At claim_id failed t.world

  abbrev Uploads : ClaimStatus → Bool → Run → Type 0
  Uploads a = StageEnds sv env claim_id Errs On Stops a true

  abbrev Leaves : ClaimStatus → Bool → Bool → Run → Type 0
  Leaves = Done sv env claim_id Errs On Stops

  receive_all-On :
      (a : ClaimStatus) (u : Bool) (signals : List Signal) (s : Run)
      → On a u s
      → On a u (receive_all signals s)
  unfolding receive_all
  receive_all-On a u [] s h = h
  receive_all-On a u (pdf_uploaded key ∷ signals) s h =
      receive_all-On a u signals (receive (pdf_uploaded key) s) (h.0, λ e. refl, λ e. refl)
  receive_all-On a u (review_signal r ∷ signals) s h =
      receive_all-On a u signals (receive (review_signal r) s) h

  -- Moves keep the document.
  On-Moved : (a b : ClaimStatus) (u : Bool) (s t : Run) → On a u s → Moved b s t → On b u t
  On-Moved a b u s t h m =
      (m.0, λ e. ap is_some m.1 ∙ h.1 e, λ e. ap is_some m.1 ∙ h.2 (sym m.2 ∙ e))

  upload_ends :
      (a : ClaimStatus) (u : Bool) (s : Run)
      → allowed a failed ≡ true
      → On a u s
      → Ensures Errs (Uploads a) (run_upload sv env claim_id s)
  unfolding run_upload event_status
  upload_ends a u s legal h =
      let t : Run = receive_all env.until_upload s in
      let k : On a u t = receive_all-On a u env.until_upload s h in
      if_rule Errs (Uploads a) t.uploaded (ok true, t) (fail_upload sv env claim_id t)
        (λ there. (k.0, λ e. k.2 there, k.2))
        (λ missing.
          bind_rule Errs (λ x v. Moved failed t v) (Uploads a)
            (emit sv env claim_id claim_failed
              (record empty_payload { reason = some "upload_timeout" }))
            _ t (emit_moves a failed claim_failed _ (λ p. cc) tt tt refl legal t k.0)
            (λ x v m. m.0))

  -- A document is there when the OCR stage runs, so its assertion holds.
  ocr_ends :
      (s : Run)
      → On received true s
      → Ensures Errs (Leaves ocr_done true) (run_ocr_stage sv env claim_id s)
  unfolding run_ocr_stage event_status allowed
  ocr_ends s h = with_key s.pdf_key (h.1 refl)
    where
      with_key :
          (o : Option String)
          → is_some o ≡ true
          → Ensures Errs (Leaves ocr_done true) (ocr_with sv env claim_id o s)
      with_key none missing = absurd (cc)
      with_key (some key) there =
          bind_rule Errs (λ x v. Moved ocr_running s v) (Leaves ocr_done true)
            (emit sv env claim_id ocr_started empty_payload) _ s
            (emit_moves received ocr_running ocr_started empty_payload (λ p. cc) tt tt refl refl s
              h.0)
            (λ x v m.
              let v' : Run = record v { status = ocr_running } in
              bind_rule Errs (λ y z. Moved ocr_done v' z) (Leaves ocr_done true)
                (activity env (run_ocr sv claim_id key)) _ v'
                (activity_moves ocr_running ocr_done (run_ocr sv claim_id key) v'
                  (run_ocr_lands sv safe claim_id key) m.0)
                (λ y z n. (
                  refl,
                  On-Moved ocr_running ocr_done true v' z
                      (On-Moved received ocr_running true s v h m) n,
                )))

  llm_ends :
      (u : Bool) (s : Run)
      → On ocr_done u s
      → Ensures Errs (Leaves llm_done u) (run_llm_stage sv env claim_id s)
  unfolding run_llm_stage event_status allowed
  llm_ends u s h =
      bind_rule Errs (λ x v. Moved llm_running s v) (Leaves llm_done u)
        (emit sv env claim_id llm_started empty_payload) _ s
        (emit_moves ocr_done llm_running llm_started empty_payload (λ p. cc) tt tt refl refl s h.0)
        (λ x v m.
          let v' : Run = record v { status = llm_running } in
          bind_rule Errs (λ y z. Moved llm_done v' z) (Leaves llm_done u)
            (activity env (run_llm sv claim_id)) _ v'
            (activity_moves llm_running llm_done (run_llm sv claim_id) v'
              (run_llm_lands sv safe claim_id) m.0)
            (λ y z n. (
              refl,
              On-Moved llm_running llm_done u v' z (On-Moved ocr_done llm_running u s v h m) n,
            )))

  adjudicate_ends :
      (a : ClaimStatus) (u : Bool) (s : Run)
      → allowed a adjudicated ≡ true
      → On a u s
      → Ensures Errs (Leaves adjudicated u) (run_adjudicate sv env claim_id s)
  unfolding run_adjudicate
  adjudicate_ends a u s legal h =
      bind_rule Errs (λ x v. Moved adjudicated s v) (Leaves adjudicated u)
        (activity env (run_adjudication sv claim_id)) _ s
        (activity_moves a adjudicated (run_adjudication sv claim_id) s
          (λ w. run_adjudication_lands sv safe claim_id a w legal) h.0)
        (λ x v m. (refl, On-Moved a adjudicated u s v h m))

  review_ends :
      (a : ClaimStatus) (u : Bool) (s : Run)
      → On a u s
      → Ensures Errs (Leaves a u) (run_review sv env claim_id s)
  unfolding run_review event_status
  review_ends a u s h =
      let t : Run = receive_all env.until_review s in
      let k : On a u t = receive_all-On a u env.until_review s h in
      if_rule Errs (Leaves a u) (is_pend s.decision) (conclude sv env claim_id t.verdict t)
        (ok true, s) (λ pending. concluded t k t.verdict) (λ settled. (refl, h))
    where
      concluded :
          (t : Run)
          → On a u t
          → (o : Option Review) → Ensures Errs (Leaves a u) (conclude sv env claim_id o t)
      concluded t k none = (refl, k)
      concluded t k (some r) =
          bind_rule Errs (λ x v. Moved a t v) (Leaves a u)
            (emit sv env claim_id review_completed (review_payload r)) _ t
            (emit_stays a review_completed (review_payload r) (λ p. cc) refl tt refl t k.0)
            (λ x v m. (refl, On-Moved a a u t v k m))

  persist_ends :
      (a : ClaimStatus) (u : Bool) (s : Run)
      → allowed a persisted ≡ true
      → On a u s
      → Ensures Errs (Leaves persisted u) (run_persist sv env claim_id s)
  unfolding run_persist event_status
  persist_ends a u s legal h =
      bind_rule Errs (λ x v. Moved persisted s v) (Leaves persisted u)
        (emit sv env claim_id claim_persisted empty_payload) _ s
        (emit_moves a persisted claim_persisted empty_payload (λ p. cc) tt tt refl legal s h.0)
        (λ x v m. (refl, On-Moved a persisted u s v h m))

  pub laws : StageLaws sv env claim_id Errs On Stops
  laws = record {
    upload_ends = upload_ends;
    ocr_ends = ocr_ends;
    llm_ends = llm_ends;
    adjudicate_ends = adjudicate_ends;
    review_ends = review_ends;
    persist_ends = persist_ends;
    stands = λ a u s h. h.0;
  }
