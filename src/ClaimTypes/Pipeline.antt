-- ===== src/ClaimTypes/Pipeline.antt =====
-- What `validate_pipeline` ensures of a stage list.
use insurance_claim_ai.Prelude.{
  ℕ, suc, ◌≤◌, ◌≡◌, ◌≢◌, ◌⊎◌, inl, inr, refl, ◌↔◌, true, false, some, List, [], ◌∷◌, arith, length,
  is_some, Bool-cases, Option-cases,
}
use insurance_claim_ai.Domain.Errors.{ok}
use insurance_claim_ai.ClaimTypes.{
  Stage, Stage-discrete, same_stage, upload, ocr, llm, adjudicate, review, persist, member, set_of,
  ends_with, order, misplaced, lacks, validate_pipeline,
}

-- Every stage stands once.
abbrev pub Distinct : List Stage → Type 0
Distinct [] = Unit {0}
Distinct (s ∷ stages) = (member s stages ≡ false) × Distinct stages

-- No `b` stands before the first `a`; with no `a` at all, no `b` does.
abbrev pub Precedes : Stage → Stage → List Stage → Type 0
Precedes a b [] = Unit {0}
Precedes a b (s ∷ stages) = (s ≡ a) ⊎ ((s ≢ b) × Precedes a b stages)

length-set_of : (stages : List Stage) → length (set_of stages) ≤ length stages
unfolding set_of
length-set_of [] = omega arith
length-set_of (s ∷ stages) = ground (arith, length-set_of stages)

same_stage_iff : (a b : Stage) → (same_stage a b ≡ true) ↔ (a ≡ b)
same_stage_iff a b = (ground arith, ground arith)

member-cons :
    (x s : Stage) (stages : List Stage) → member x stages ≡ true → member x (s ∷ stages) ≡ true
member-cons x s stages h = ground arith

member-set_of : (x : Stage) (stages : List Stage) → member x (set_of stages) ≡ member x stages
unfolding set_of
member-set_of x [] = refl
member-set_of x (s ∷ stages) =
    ground (arith, member-set_of x stages, member-set_of s stages, same_stage_iff s x)

pub Distinct-of_size :
    (stages : List Stage) → length stages ≡ length (set_of stages) → Distinct stages
unfolding set_of
Distinct-of_size [] h = tt
Distinct-of_size (s ∷ stages) h = elim (Bool-cases (member s stages)) [
  | inl again ↦ absurd (ground (arith, length-set_of stages, member-set_of s stages))
  | inr fresh ↦ (
    fresh,
    Distinct-of_size stages (ground (arith, length-set_of stages, member-set_of s stages)),
  )
]

order-member :
    (i : ℕ) (stages : List Stage) (s : Stage) → is_some (order i stages s) ≡ member s stages
unfolding order
order-member i [] s = refl
order-member i (t ∷ stages) s = ground (arith, order-member (suc i) stages s)

order-le : (i j : ℕ) (stages : List Stage) (s : Stage) → order i stages s ≡ some j → i ≤ j
unfolding order
order-le i j [] s h = absurd (ground arith)
order-le i j (t ∷ stages) s h = ground (arith, order-le (suc i) j stages s)

order_later :
    (i : ℕ) (s a : Stage) (p : ℕ) (stages : List Stage)
    → (s ≢ a)
    → order i (s ∷ stages) a ≡ some p
    → order (suc i) stages a ≡ some p
unfolding order
order_later i s a p stages other h = ground (arith, same_stage_iff s a)

order_first :
    (i : ℕ) (s b : Stage) (q : ℕ) (stages : List Stage)
    → member s stages ≡ false
    → s ≡ b
    → order i (s ∷ stages) b ≡ some q
    → q ≡ i
unfolding order
order_first i s b q stages fresh second h = ground (arith, order-member (suc i) stages b)

-- With neither stage missing, indices in order are the stages in order.
order-Precedes :
    (a b : Stage) (i p q : ℕ) (stages : List Stage)
    → Distinct stages
    → order i stages a ≡ some p
    → order i stages b ≡ some q
    → p ≤ q
    → Precedes a b stages
order-Precedes a b i p q [] d ha hb le = tt
order-Precedes a b i p q (s ∷ stages) d ha hb le = elim (Stage-discrete s a) [
  | yes first ↦ inl first
  | no other ↦
      let later : order (suc i) stages a ≡ some p = order_later i s a p stages other ha in
      elim (Stage-discrete s b) [
        | yes second ↦ absurd (
            omega
              (arith, order-le (suc i) p stages a later, order_first i s b q stages d.0 second hb))
        | no neither ↦ inr (
          neither,
          order-Precedes a b (suc i) p q stages d.1 later (order_later i s b q stages neither hb)
              le,
        )
      ]
]

-- A stage that is not there stands before nothing.
Precedes-absent :
    (a b : Stage) (stages : List Stage) → member b stages ≡ false → Precedes a b stages
Precedes-absent a b [] h = tt
Precedes-absent a b (s ∷ stages) h =
    inr (ground (arith, same_stage_iff s b), Precedes-absent a b stages (ground arith))

-- What a registered pipeline is.
pub record IsPipeline (stages : List Stage) : Type 0 where
  pub distinct : Distinct stages
  pub persisted : ends_with persist stages ≡ true
  pub uploaded : Precedes upload ocr stages
  pub read : Precedes ocr llm stages
  pub scored : member llm stages ≡ true → Precedes llm adjudicate stages
  pub decided : Precedes adjudicate review stages

-- With both there, and their indices in order, `a` stands first.
both_Precedes :
    (a b : Stage) (stages : List Stage)
    → Distinct stages
    → member a stages ≡ true
    → member b stages ≡ true
    → misplaced stages a b ≡ false
    → Precedes a b stages
unfolding misplaced
both_Precedes a b stages d ha hb placed = elim (Option-cases (order 0 stages a)) [
  | inl none_a ↦ absurd (ground (arith, order-member 0 stages a))
  | inr (p, at_a) ↦ elim (Option-cases (order 0 stages b)) [
    | inl none_b ↦ absurd (ground (arith, order-member 0 stages b))
    | inr (q, at_b) ↦ order-Precedes a b 0 p q stages d at_a at_b (ground arith)
  ]
]

-- With `a` there whenever `b` is, and their indices in order, every `b` stands behind an `a`.
required_Precedes :
    (a b : Stage) (stages : List Stage)
    → Distinct stages
    → lacks stages b a ≡ false
    → misplaced stages a b ≡ false
    → Precedes a b stages
unfolding misplaced
required_Precedes a b stages d have placed = elim (Bool-cases (member b stages)) [
  | inr absent ↦ Precedes-absent a b stages absent
  | inl there ↦ both_Precedes a b stages d (ground arith) there placed
]

scored_of :
    (stages : List Stage)
    → Distinct stages
    → member llm stages ≡ true
    → misplaced stages llm adjudicate ≡ false
    → Precedes llm adjudicate stages
scored_of stages d there placed = elim (Bool-cases (member adjudicate stages)) [
  | inr absent ↦ Precedes-absent llm adjudicate stages absent
  | inl both ↦ both_Precedes llm adjudicate stages d there both placed
]

-- A stage list that passes validation is a pipeline: no stage stands twice, PERSIST is last, every
-- OCR stands behind an UPLOAD, every LLM behind an OCR, every REVIEW behind an ADJUDICATE, and with
-- an LLM every ADJUDICATE stands behind it.
pub validate-IsPipeline :
    (stages : List Stage) → validate_pipeline stages ≡ ok tt → IsPipeline stages
unfolding validate_pipeline
validate-IsPipeline stages h =
    let d : Distinct stages = Distinct-of_size stages (ground arith) in
    record {
      distinct = d;
      persisted = ground arith;
      uploaded = required_Precedes upload ocr stages d (ground arith) (ground arith);
      read = required_Precedes ocr llm stages d (ground arith) (ground arith);
      scored = λ there. scored_of stages d there (ground arith);
      decided = required_Precedes adjudicate review stages d (ground arith) (ground arith);
    }
