-- ===== src/Temporal/Progress.antt =====
-- The workflow returns: where one of five attempts of every activity arrives and the services answer,
-- every registered pipeline runs to its end.
use insurance_claim_ai.Prelude.{
  ℕ, ◌≡◌, ◌≢◌, ◌⊎◌, inl, inr, refl, sym, ap, ◌∙◌, String, Bool, true, false, Option, none, some,
  List, [], ◌∷◌, ◌++◌, arith, is_some, All, any, true≢false,
}
use insurance_claim_ai.Domain.Errors.{Result, ok, err, activity_error}
use insurance_claim_ai.Domain.Models.{
  ClaimStatus, ClaimMetadata, received, ocr_running, ocr_done, llm_running, llm_done, adjudicated,
  persisted, failed,
}
use insurance_claim_ai.Domain.Events.{
  EventType, Payload, claim_received, ocr_started, llm_started, claim_failed, review_completed,
  claim_persisted, metadata_logged, empty_payload,
}
use insurance_claim_ai.EventStore.Frame.{IsWritable}
use insurance_claim_ai.Projection.{event_status, allowed}
use insurance_claim_ai.Projection.Diagram.{IsComplete}
use insurance_claim_ai.ClaimTypes.{Stage, ocr, adjudicate, upload, member, validate_pipeline}
use insurance_claim_ai.Temporal.Action.{
  Action, Ensures, bind_rule, if_rule, weaken_rule, World, Services,
}
use insurance_claim_ai.Temporal.Activities.{record_event, run_ocr, run_llm, run_adjudication}
use insurance_claim_ai.Temporal.Workflow.{
  Review, Signal, pdf_uploaded, review_signal, Run, Environment, receive, receive_all, activity,
  emit, is_pend, run_upload, fail_upload, run_ocr_stage, ocr_with, run_llm_stage, run_adjudicate,
  conclude, review_payload, run_review, run_persist, run, init,
}
use insurance_claim_ai.Temporal.Announced.{
  announces, IsAnnounced, IsAnnounced-front, IsAnnounced-back, receive_all-uploaded,
}
use insurance_claim_ai.Temporal.Storing.{At, Within}
use insurance_claim_ai.Temporal.Arriving.{Never, Arrives, execute_returns, stays_returns}
use insurance_claim_ai.Temporal.Keeping.{Kept, IsDelivered, append_event-Kept, both_rule}
use insurance_claim_ai.Temporal.Answering.{
  Answers, Holds, HasDocument, AtOcrDone, stored_keeps, ocr_returns, llm_returns,
  adjudication_returns,
}
use insurance_claim_ai.ClaimTypes.Pipeline.{Precedes, IsPipeline, validate-IsPipeline}
use insurance_claim_ai.Temporal.Order.{IsPipeline-Fits}
use insurance_claim_ai.Temporal.Stages.{StageEnds, Done, StageLaws, RunEnds, stages_end}

-- The text of the OCR is due behind OCR_DONE, until the models have read it.
abbrev pub is_read : ClaimStatus → Bool
is_read ocr_done = true
is_read _ = false

module _ (sv : Services) (env : Environment) (claim_id : String) (m : ClaimMetadata)
    (answers : Answers sv m) (arrives : (n : ℕ) → Arrives 5 (env.schedule n)) where
  abbrev signals : List Signal
  signals = env.until_upload ++ env.until_review

  abbrev Keeps : Bool → World → Type 0
  Keeps read w = Holds sv claim_id m signals answers read w

  -- The claim's status, what the activities read, and a document that was announced where one is due.
  record Stands (a : ClaimStatus) (u : Bool) (s : Run) : Type 0 where
    at : At claim_id a s.world
    kept : Keeps (is_read a) s.world
    document : u ≡ true → is_some s.pdf_key ≡ true
    uploaded : s.uploaded ≡ true → is_some s.pdf_key ≡ true
    announced : (key : String) → s.pdf_key ≡ some key → IsAnnounced key signals

  abbrev Stopped : Run → Type 0
  Stopped t = (any announces env.until_upload ≡ false) × At claim_id failed t.world

  receive_all-Stands :
      (a : ClaimStatus) (u : Bool) (l : List Signal) (s : Run)
      → ((key : String) → IsAnnounced key l → IsAnnounced key signals)
      → Stands a u s
      → Stands a u (receive_all l s)
  unfolding receive_all
  receive_all-Stands a u [] s into h = h
  receive_all-Stands a u (pdf_uploaded key ∷ l) s into h =
      receive_all-Stands a u l (receive (pdf_uploaded key) s) (λ k i. into k (inr i))
        (record {
          at = h.at;
          kept = h.kept;
          document = λ e. refl;
          uploaded = λ e. refl;
          announced = λ k e. into k (inl (cc (e)));
        })
  receive_all-Stands a u (review_signal r ∷ l) s into h =
      receive_all-Stands a u l (receive (review_signal r) s) into (record {
        at = h.at;
        kept = h.kept;
        document = h.document;
        uploaded = h.uploaded;
        announced = h.announced;
      })

  -- Only the world changed.
  record Moved (b : ClaimStatus) (read : Bool) (s t : Run) : Type 0 where
    at : At claim_id b t.world
    kept : Keeps read t.world
    same_key : t.pdf_key ≡ s.pdf_key
    same_uploaded : t.uploaded ≡ s.uploaded

  -- A move keeps the document; the workflow then notes a status and a decision.
  Stands-Moved :
      (a b : ClaimStatus) (u : Bool) (s t : Run) (status : ClaimStatus) (decision : Option String)
      → Stands a u s
      → Moved b (is_read b) s t
      → Stands b u (record t { status = status; decision = decision })
  Stands-Moved a b u s t status decision h n = record {
    at = n.at;
    kept = n.kept;
    document = λ e. ap is_some n.same_key ∙ h.document e;
    uploaded = λ e. ap is_some n.same_key ∙ h.uploaded (sym n.same_uploaded ∙ e);
    announced = λ key e. h.announced key (sym n.same_key ∙ e);
  }

  unread : (read : Bool) (w : World) → Keeps read w → Keeps false w
  unread read w k = record {
    claimed = k.claimed;
    delivered = k.delivered;
    texted = λ e. absurd (cc (e));
  }

  delivered_all :
      (w : World) (key : String) (l : List Signal)
      → All (IsDelivered w.objects) l
      → IsAnnounced key l
      → HasDocument sv claim_id m signals answers key w
  delivered_all w key [] h i = absurd i
  delivered_all w key (pdf_uploaded k ∷ l) h (inl same) = rw (← same) h.0
  delivered_all w key (pdf_uploaded k ∷ l) h (inr i) = delivered_all w key l h.1 i
  delivered_all w key (review_signal r ∷ l) h i = delivered_all w key l h.1 i

  activity_returns :
      {A : Type 0} (P : World → Type 0) (Q : A → World → Type 0) (b : ClaimStatus) (read : Bool)
      (act : Action World A) (s : Run)
      → ((x : A) (w : World) → Q x w → P w)
      → ((x : A) (w : World) → Q x w → At claim_id b w × Keeps read w)
      → ((w : World) → P w → Ensures Never Q (act w))
      → P s.world
      → Ensures Never (λ x t. Moved b read s t) (activity env act s)
  unfolding activity
  activity_returns P Q b read act s keeps lands once h = moved _ _ (
      execute_returns P Q keeps act once 5 activity_error (env.schedule s.world.calls) s.world
        (arrives s.world.calls) h)
    where
      moved :
          (r : Result _) (w : World)
          → Ensures Never Q (r, w)
          → Ensures Never (λ x t. Moved b read s t) (r, record s { world = w })
      moved (ok x) w q =
          let (at, kept) = lands x w q in
          record { at = at; kept = kept; same_key = refl; same_uploaded = refl }
      moved (err e) w q = q

  -- An event of the workflow that moves the claim.
  emit_moves :
      (a b : ClaimStatus) (read : Bool) (type : EventType) (payload : Payload)
      → type ≢ claim_received
      → IsComplete type payload
      → IsWritable type payload
      → event_status type ≡ some b
      → allowed a b ≡ true
      → (s : Run) → At claim_id a s.world
      → Keeps read s.world
      → Ensures Never (λ x t. Moved b read s t) (emit sv env claim_id type payload s)
  unfolding emit record_event
  emit_moves a b read type payload other complete writable goes legal s at kept =
      activity_returns (λ w. Within claim_id a b w × Keeps read w)
        (λ u w. At claim_id b w × Keeps read w) b read (record_event sv claim_id type payload) s
        (λ x w q. (inr q.0, q.1)) (λ x w q. q)
        (stored_keeps sv claim_id m signals answers a b read type payload other complete writable
          goes legal)
        (inl at, kept)

  -- An event that moves no status.
  emit_stays :
      (a : ClaimStatus) (read : Bool) (type : EventType) (payload : Payload)
      → type ≢ claim_received
      → IsComplete type payload
      → IsWritable type payload
      → event_status type ≡ none
      → (s : Run) → At claim_id a s.world
      → Keeps read s.world
      → Ensures Never (λ x t. Moved a read s t) (emit sv env claim_id type payload s)
  unfolding emit record_event
  emit_stays a read type payload other complete writable stays s at kept =
      activity_returns (λ w. At claim_id a w × Keeps read w) (λ u w. At claim_id a w × Keeps read w)
        a read (record_event sv claim_id type payload) s (λ x w q. q) (λ x w q. q)
        (λ w p.
          both_rule Never (λ u t. At claim_id a t) (Keeps read) _
            (stays_returns sv claim_id a type payload other complete writable stays w p.0)
            (append_event-Kept sv claim_id m signals read type payload w p.1))
        (at, kept)

  abbrev Leaves : ClaimStatus → Bool → Bool → Run → Type 0
  Leaves = Done sv env claim_id Never Stands Stopped

  upload_returns :
      (a : ClaimStatus) (u : Bool) (s : Run)
      → allowed a failed ≡ true
      → Stands a u s
      → Ensures Never
          (StageEnds sv env claim_id Never Stands Stopped a true)
          (run_upload sv env claim_id s)
  unfolding run_upload event_status
  upload_returns a u s legal h =
      let t : Run = receive_all env.until_upload s in
      let k : Stands a u t =
        receive_all-Stands a u env.until_upload s
          (λ key. IsAnnounced-front key env.until_upload env.until_review) h in
      if_rule Never (StageEnds sv env claim_id Never Stands Stopped a true) t.uploaded (ok true, t)
        (fail_upload sv env claim_id t)
        (λ there. record {
          at = k.at;
          kept = k.kept;
          document = λ e. k.uploaded there;
          uploaded = k.uploaded;
          announced = k.announced;
        })
        (λ missing.
          bind_rule Never (λ x v. Moved failed false t v)
            (StageEnds sv env claim_id Never Stands Stopped a true)
            (emit sv env claim_id claim_failed
              (record empty_payload { reason = some "upload_timeout" }))
            _ t
            (emit_moves a failed false claim_failed _ (λ p. cc) tt tt refl legal t k.at
              (unread (is_read a) t.world k.kept))
            (λ x v n. (ground (arith, receive_all-uploaded env.until_upload s, missing), n.at)))

  ocr_stage_returns :
      (s : Run)
      → Stands received true s
      → Ensures Never (Leaves ocr_done true) (run_ocr_stage sv env claim_id s)
  unfolding run_ocr_stage event_status allowed
  ocr_stage_returns s h = with_key s.pdf_key refl (h.document refl)
    where
      with_key :
          (o : Option String)
          → s.pdf_key ≡ o
          → is_some o ≡ true
          → Ensures Never (Leaves ocr_done true) (ocr_with sv env claim_id o s)
      with_key none here missing = absurd (cc)
      with_key (some key) here there =
          bind_rule Never (λ x v. Moved ocr_running false s v) (Leaves ocr_done true)
            (emit sv env claim_id ocr_started empty_payload) _ s
            (emit_moves received ocr_running false ocr_started empty_payload (λ p. cc) tt tt refl
              refl s h.at h.kept)
            (λ x v n.
              let v' : Run = record v { status = ocr_running } in
              bind_rule Never (λ y z. Moved ocr_done true v' z) (Leaves ocr_done true)
                (activity env (run_ocr sv claim_id key)) _ v'
                (activity_returns
                  (λ w.
                    Within claim_id ocr_running ocr_done w
                    × Keeps false w
                    × HasDocument sv claim_id m signals answers key w)
                  (AtOcrDone sv claim_id m signals answers key) ocr_done true
                  (run_ocr sv claim_id key) v' (λ y w q. (inr q.0.0, unread true w q.0.1, q.1))
                  (λ y w q. q.0)
                  (λ w p. ocr_returns sv claim_id m signals answers key w p.0 p.1 p.2)
                  (
                    inl n.at,
                    n.kept,
                    delivered_all v.world key signals n.kept.delivered (h.announced key here),
                  ))
                (λ y z o. (
                  refl,
                  record {
                    at = o.at;
                    kept = o.kept;
                    document = λ e. ap is_some (o.same_key ∙ n.same_key) ∙ h.document e;
                    uploaded = λ e. ap is_some (o.same_key ∙ n.same_key) ∙ h.document refl;
                    announced = λ k e. h.announced k (sym (o.same_key ∙ n.same_key) ∙ e);
                  },
                )))

  Moved-twice :
      (b c : ClaimStatus) (p q : Bool) (s v z : Run) → Moved b p s v → Moved c q v z → Moved c q s z
  Moved-twice b c p q s v z n o = record {
    at = o.at;
    kept = o.kept;
    same_key = o.same_key ∙ n.same_key;
    same_uploaded = o.same_uploaded ∙ n.same_uploaded;
  }

  llm_stage_returns :
      (u : Bool) (s : Run)
      → Stands ocr_done u s
      → Ensures Never (Leaves llm_done u) (run_llm_stage sv env claim_id s)
  unfolding run_llm_stage event_status allowed
  llm_stage_returns u s h =
      bind_rule Never (λ x v. Moved llm_running true s v) (Leaves llm_done u)
        (emit sv env claim_id llm_started empty_payload) _ s
        (emit_moves ocr_done llm_running true llm_started empty_payload (λ p. cc) tt tt refl refl s
          h.at h.kept)
        (λ x v n.
          let v' : Run = record v { status = llm_running } in
          bind_rule Never (λ y z. Moved llm_done false v' z) (Leaves llm_done u)
            (activity env (run_llm sv claim_id)) _ v'
            (activity_returns (λ w. Within claim_id llm_running llm_done w × Keeps true w)
              (λ y w. At claim_id llm_done w × Keeps true w) llm_done false (run_llm sv claim_id) v'
              (λ y w q. (inr q.0, q.1)) (λ y w q. (q.0, unread true w q.1))
              (λ w p. llm_returns sv claim_id m signals answers w p.0 p.1) (inl n.at, n.kept))
            (λ y z o. (
              refl,
              Stands-Moved ocr_done llm_done u s z llm_done z.decision h (
                  Moved-twice llm_running llm_done true false s v z n (record {
                    at = o.at;
                    kept = o.kept;
                    same_key = o.same_key;
                    same_uploaded = o.same_uploaded;
                  })),
            )))

  adjudicate_returns :
      (a : ClaimStatus) (u : Bool) (s : Run)
      → allowed a adjudicated ≡ true
      → Stands a u s
      → Ensures Never (Leaves adjudicated u) (run_adjudicate sv env claim_id s)
  unfolding run_adjudicate
  adjudicate_returns a u s legal h =
      bind_rule Never (λ x v. Moved adjudicated false s v) (Leaves adjudicated u)
        (activity env (run_adjudication sv claim_id)) _ s
        (activity_returns (λ w. Within claim_id a adjudicated w × Keeps false w)
          (λ y w. At claim_id adjudicated w × Keeps false w) adjudicated false
          (run_adjudication sv claim_id) s (λ y w q. (inr q.0, q.1)) (λ y w q. q)
          (λ w p. adjudication_returns sv claim_id m signals answers a false w legal p.0 p.1)
          (inl h.at, unread (is_read a) s.world h.kept))
        (λ d v n. (refl, Stands-Moved a adjudicated u s v adjudicated (some d) h n))

  review_returns :
      (a : ClaimStatus) (u : Bool) (s : Run)
      → Stands a u s
      → Ensures Never (Leaves a u) (run_review sv env claim_id s)
  unfolding run_review event_status
  review_returns a u s h =
      let t : Run = receive_all env.until_review s in
      let k : Stands a u t =
        receive_all-Stands a u env.until_review s
          (λ key. IsAnnounced-back key env.until_upload env.until_review) h in
      if_rule Never (Leaves a u) (is_pend s.decision) (conclude sv env claim_id t.verdict t)
        (ok true, s) (λ pending. concluded t k t.verdict) (λ settled. (refl, h))
    where
      concluded :
          (t : Run)
          → Stands a u t
          → (o : Option Review) → Ensures Never (Leaves a u) (conclude sv env claim_id o t)
      concluded t k none = (refl, k)
      concluded t k (some r) =
          bind_rule Never (λ x v. Moved a (is_read a) t v) (Leaves a u)
            (emit sv env claim_id review_completed (review_payload r)) _ t
            (emit_stays a (is_read a) review_completed (review_payload r) (λ p. cc) refl tt refl t
              k.at k.kept)
            (λ x v n. (refl, Stands-Moved a a u t v v.status (some r.decision) k n))

  persist_returns :
      (a : ClaimStatus) (u : Bool) (s : Run)
      → allowed a persisted ≡ true
      → Stands a u s
      → Ensures Never (Leaves persisted u) (run_persist sv env claim_id s)
  unfolding run_persist event_status
  persist_returns a u s legal h =
      bind_rule Never (λ x v. Moved persisted false s v) (Leaves persisted u)
        (emit sv env claim_id claim_persisted empty_payload) _ s
        (emit_moves a persisted false claim_persisted empty_payload (λ p. cc) tt tt refl legal s
          h.at (unread (is_read a) s.world h.kept))
        (λ x v n. (refl, Stands-Moved a persisted u s v persisted v.decision h n))

  laws : StageLaws sv env claim_id Never Stands Stopped
  laws = record {
    upload_ends = upload_returns;
    ocr_ends = ocr_stage_returns;
    llm_ends = llm_stage_returns;
    adjudicate_ends = adjudicate_returns;
    review_ends = review_returns;
    persist_ends = persist_returns;
    stands = λ a u s h. h.at;
  }

  -- Let the services answer for the claim's metadata, the documents that its signals announce be in
  -- the object store, and one of the first five attempts of every activity arrive. Then for a pipeline
  -- that passes validation, with no ADJUDICATE before an OCR, the workflow of a claim that is RECEIVED
  -- returns, whatever else the signals and the attempts do. It leaves the claim PERSISTED; or FAILED,
  -- if the pipeline has an UPLOAD and no signal of an upload came in time.
  pub pipeline_returns :
      (stages : List Stage) (w : World)
      → validate_pipeline stages ≡ ok tt
      → (member ocr stages ≡ true → Precedes ocr adjudicate stages)
      → At claim_id received w
      → Kept claim_id m (env.until_upload ++ env.until_review) false w
      → Ensures Never
          (λ x t.
            At claim_id persisted t.world
            ⊎ ((member upload stages ≡ true)
                × (any announces env.until_upload ≡ false)
                × At claim_id failed t.world))
          (run sv env claim_id stages (init w))
  unfolding run event_status
  pipeline_returns [] w valid ordered at kept =
      absurd (true≢false (validate-IsPipeline [] valid).persisted refl)
  pipeline_returns (s ∷ l) w valid ordered at kept =
      let p : IsPipeline (s ∷ l) = validate-IsPipeline (s ∷ l) valid in
      bind_rule Never (λ x v. Moved received false (init w) v) _
        (emit sv env claim_id metadata_logged empty_payload) _ (init w)
        (emit_stays received false metadata_logged empty_payload (λ e. cc) tt tt refl (init w) at
          kept)
        (λ x v n.
          weaken_rule Never (RunEnds sv env claim_id Never Stands Stopped (s ∷ l)) _ _
            (stages_end sv env claim_id Never Stands Stopped laws (s ∷ l) received false v
              (IsPipeline-Fits (s ∷ l) p ordered) (inl p.persisted)
              (record {
                at = n.at;
                kept = n.kept;
                document = λ e. cc;
                uploaded = λ e. absurd (true≢false e n.same_uploaded);
                announced = λ key e. absurd (cc (e, n.same_key));
              }))
            (λ y t ends. elim ends [
              | inl done ↦ inl done
              | inr stopped ↦ inr (stopped.0, stopped.1.0, stopped.1.1)
            ]))
