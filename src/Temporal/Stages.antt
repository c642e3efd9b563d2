-- ===== src/Temporal/Stages.antt =====
-- The workflow over a pipeline, from what its stages ensure one by one.
use mathlib.Core.Path.{subst, subst₂}
use insurance_claim_ai.Prelude.{
  ◌≡◌, ◌⊎◌, inl, inr, refl, sym, String, Bool, true, false, List, [], ◌∷◌, arith, if◌then◌else◌,
}
use insurance_claim_ai.Domain.Errors.{Error}
use insurance_claim_ai.Domain.Models.{
  ClaimStatus, received, ocr_done, llm_done, adjudicated, persisted, failed,
}
use insurance_claim_ai.Temporal.Action.{Ensures, bind_rule, weaken_rule, pure, Services}
use insurance_claim_ai.ClaimTypes.{
  Stage, Stage-discrete, upload, ocr, llm, adjudicate, review, persist, ends_with, member,
}
use insurance_claim_ai.Projection.{allowed}
use insurance_claim_ai.Temporal.Order.{after_stage, has_document, Runs, Fits, Fits-cons}
use insurance_claim_ai.Temporal.Storing.{At}
use insurance_claim_ai.Temporal.Workflow.{
  Run, Environment, run_upload, run_ocr_stage, run_llm_stage, run_adjudicate, run_review,
  run_persist, run_stage, run_stages,
}

member-first : (s : Stage) (l : List Stage) → s ≡ upload → member upload (s ∷ l) ≡ true
unfolding Stage-discrete
member-first s l h = ground arith

module _ (sv : Services) (env : Environment) (claim_id : String) (Errs : Error → Run → Type 0)
    (On : ClaimStatus → Bool → Run → Type 0) (Stops : Run → Type 0) where
  -- A stage that says that it is done has moved the claim; one that says that it is not stops the run.
  abbrev pub StageEnds : ClaimStatus → Bool → Bool → Run → Type 0
  StageEnds b u true t = On b u t
  StageEnds b u false t = Stops t

  -- A stage other than UPLOAD is done when it returns.
  abbrev pub Done : ClaimStatus → Bool → Bool → Run → Type 0
  Done b u done t = (done ≡ true) × On b u t

  -- What each stage ensures at the statuses at which it may run.
  pub record StageLaws : Type 0 where
    pub upload_ends :
        (a : ClaimStatus) (u : Bool) (s : Run)
        → allowed a failed ≡ true
        → On a u s
        → Ensures Errs (StageEnds a true) (run_upload sv env claim_id s)
    pub ocr_ends :
        (s : Run)
        → On received true s
        → Ensures Errs (Done ocr_done true) (run_ocr_stage sv env claim_id s)
    pub llm_ends :
        (u : Bool) (s : Run)
        → On ocr_done u s
        → Ensures Errs (Done llm_done u) (run_llm_stage sv env claim_id s)
    pub adjudicate_ends :
        (a : ClaimStatus) (u : Bool) (s : Run)
        → allowed a adjudicated ≡ true
        → On a u s
        → Ensures Errs (Done adjudicated u) (run_adjudicate sv env claim_id s)
    pub review_ends :
        (a : ClaimStatus) (u : Bool) (s : Run)
        → On a u s
        → Ensures Errs (Done a u) (run_review sv env claim_id s)
    pub persist_ends :
        (a : ClaimStatus) (u : Bool) (s : Run)
        → allowed a persisted ≡ true
        → On a u s
        → Ensures Errs (Done persisted u) (run_persist sv env claim_id s)
    pub stands : (a : ClaimStatus) (u : Bool) (s : Run) → On a u s → At claim_id a s.world

  -- How a run ends when it returns: persisted, or stopped by UPLOAD.
  abbrev pub RunEnds : List Stage → Unit {0} → Run → Type 0
  RunEnds l x t = At claim_id persisted t.world ⊎ ((member upload l ≡ true) × Stops t)

  module _ (laws : StageLaws) where
    abbrev Ends : Stage → ClaimStatus → Bool → Bool → Run → Type 0
    Ends s a u true t = On (after_stage s a) (has_document s u) t
    Ends s a u false t = (s ≡ upload) × Stops t

    StageEnds-Ends :
        (a : ClaimStatus) (u done : Bool) (t : Run)
        → StageEnds a true done t
        → Ends upload a u done t
    StageEnds-Ends a u true t h = h
    StageEnds-Ends a u false t h = (refl, h)

    Done-Ends :
        (s : Stage) (a : ClaimStatus) (u done : Bool) (t : Run)
        → Done (after_stage s a) (has_document s u) done t
        → Ends s a u done t
    Done-Ends s a u true t h = h.1
    Done-Ends s a u false t h = absurd (cc (h.0))

    run_stage-Ends :
        (s : Stage) (a : ClaimStatus) (u : Bool) (t : Run)
        → Runs s a u
        → On a u t
        → Ensures Errs (Ends s a u) (run_stage sv env claim_id s t)
    unfolding run_stage
    run_stage-Ends upload a u t runs h =
        weaken_rule Errs (StageEnds a true) (Ends upload a u) _ (laws.upload_ends a u t runs h)
          (StageEnds-Ends a u)
    run_stage-Ends ocr a u t runs h =
        weaken_rule Errs (Done ocr_done true) (Ends ocr a u) _
          (laws.ocr_ends t (subst₂ (λ b v. On b v t) runs.0 runs.1 h))
          (λ done v d.
            Done-Ends ocr a u done v (subst (λ x. Done ocr_done x done v) (sym runs.1) d))
    run_stage-Ends llm a u t runs h =
        weaken_rule Errs (Done llm_done u) (Ends llm a u) _
          (laws.llm_ends u t (subst (λ b. On b u t) runs h)) (Done-Ends llm a u)
    run_stage-Ends adjudicate a u t runs h =
        weaken_rule Errs (Done adjudicated u) (Ends adjudicate a u) _
          (laws.adjudicate_ends a u t runs h) (Done-Ends adjudicate a u)
    run_stage-Ends review a u t runs h =
        weaken_rule Errs (Done a u) (Ends review a u) _ (laws.review_ends a u t h)
          (Done-Ends review a u)
    run_stage-Ends persist a u t runs h =
        weaken_rule Errs (Done persisted u) (Ends persist a u) _ (laws.persist_ends a u t runs h)
          (Done-Ends persist a u)

    last_of :
        (s : Stage) (l : List Stage) (a : ClaimStatus)
        → (ends_with persist (s ∷ l) ≡ true) ⊎ ((s ∷ l ≡ []) × (a ≡ persisted))
        → (ends_with persist l ≡ true) ⊎ ((l ≡ []) × (after_stage s a ≡ persisted))
    last_of s [] a (inl e) = inr (refl, ground arith)
    last_of s (t ∷ l) a (inl e) = inl e
    last_of s l a (inr e) = absurd (cc (e.0))

    later_ends :
        (s : Stage) (l : List Stage) (x : Unit {0}) (t : Run) → RunEnds l x t → RunEnds (s ∷ l) x t
    later_ends s l x t (inl h) = inl h
    later_ends s l x t (inr h) = inr (ground (arith, h.0), h.1)

    -- A pipeline that fits where the claim stands ends as its stages do.
    pub stages_end :
        (l : List Stage) (a : ClaimStatus) (u : Bool) (t : Run)
        → Fits a u l
        → (ends_with persist l ≡ true) ⊎ ((l ≡ []) × (a ≡ persisted))
        → On a u t
        → Ensures Errs (RunEnds l) (run_stages sv env claim_id l t)
    unfolding run_stages
    stages_end [] a u t f (inl e) h = absurd (cc)
    stages_end [] a u t f (inr e) h =
        inl (subst (λ b. At claim_id b t.world) e.1 (laws.stands a u t h))
    stages_end (s ∷ l) a u t f e h =
        let (runs, rest) = Fits-cons a u s l f in
        bind_rule Errs (Ends s a u) (RunEnds (s ∷ l)) (run_stage sv env claim_id s) _ t
          (run_stage-Ends s a u t runs h)
          (λ done v m. go done v m (λ k.
            weaken_rule Errs (RunEnds l) (RunEnds (s ∷ l)) _
              (stages_end l (after_stage s a) (has_document s u) v rest (last_of s l a e) k)
              (later_ends s l)))
      where
        go :
            (done : Bool) (v : Run)
            → Ends s a u done v
            → (On (after_stage s a) (has_document s u) v
                → Ensures Errs (RunEnds (s ∷ l)) (run_stages sv env claim_id l v))
            → Ensures Errs
                (RunEnds (s ∷ l))
                ((if done then run_stages sv env claim_id l else pure tt) v)
        go true v m later = later m
        go false v m later = inr (member-first s l m.0, m.1)
