-- ===== src/Temporal/Order.antt =====
-- Which stages a claim of a given status can still run, and that a pipeline keeps to that.
use insurance_claim_ai.Prelude.{◌≡◌, ◌≢◌, ◌⊎◌, inr, refl, Bool, true, false, List, [], ◌∷◌, arith}
use insurance_claim_ai.Domain.Models.{
  ClaimStatus, received, ocr_running, ocr_done, llm_running, llm_done, adjudicated, persisted,
  notified, failed, partial_success,
}
use insurance_claim_ai.ClaimTypes.{
  Stage, upload, ocr, llm, adjudicate, review, persist, member, ends_with,
}
use insurance_claim_ai.ClaimTypes.Pipeline.{Distinct, Precedes, IsPipeline}
use insurance_claim_ai.Projection.{allowed}

-- The status behind a stage that succeeds.
abbrev pub after_stage : Stage → ClaimStatus → ClaimStatus
after_stage ocr a = ocr_done
after_stage llm a = llm_done
after_stage adjudicate a = adjudicated
after_stage persist a = persisted
after_stage _ a = a

abbrev pub has_document : Stage → Bool → Bool
has_document upload u = true
has_document _ u = u

-- The statuses at which a stage makes only legal moves; `u` says that the document is there.
abbrev pub Runs : Stage → ClaimStatus → Bool → Type 0
Runs upload a u = allowed a failed ≡ true
Runs ocr a u = (a ≡ received) × (u ≡ true)
Runs llm a u = a ≡ ocr_done
Runs adjudicate a u = allowed a adjudicated ≡ true
Runs review a u = Unit {0}
Runs persist a u = allowed a persisted ≡ true

-- PERSIST stands last and nowhere else.
abbrev pub Closes : List Stage → Type 0
Closes [] = Unit {0}
Closes (s ∷ stages) = (s ≡ persist → stages ≡ []) × Closes stages

-- What must hold of the stages that are left, by the status reached.
abbrev pub Left : ClaimStatus → Bool → List Stage → Type 0
Left received u l =
    ((u ≡ true) ⊎ Precedes upload ocr l)
    × Precedes ocr llm l
    × (member llm l ≡ true → Precedes llm adjudicate l)
    × (member ocr l ≡ true → Precedes ocr adjudicate l)
Left ocr_done u l = (member ocr l ≡ false) × (member llm l ≡ true → Precedes llm adjudicate l)
Left llm_done u l = (member ocr l ≡ false) × (member llm l ≡ false)
Left adjudicated u l =
    (member ocr l ≡ false) × (member llm l ≡ false) × (member adjudicate l ≡ false)
Left persisted u l = l ≡ []
Left _ u l = ⊥

pub record Fits (a : ClaimStatus) (u : Bool) (l : List Stage) : Type 0 where
  pub distinct : Distinct l
  pub closes : Closes l
  pub left : Left a u l

Precedes-tail : (a b s : Stage) (l : List Stage) → s ≢ a → Precedes a b (s ∷ l) → Precedes a b l
Precedes-tail a b s l other h = ground arith

Precedes-head : (a b : Stage) (l : List Stage) → Precedes a b (b ∷ l) → b ≡ a
Precedes-head a b l h = ground arith

abbrev Goes : ClaimStatus → Bool → Stage → List Stage → Type 0
Goes a u s l = Runs s a u × Left (after_stage s a) (has_document s u) l

Runs-Left :
    (a : ClaimStatus) (u : Bool) (s : Stage) (l : List Stage)
    → Distinct (s ∷ l)
    → (s ≡ persist → l ≡ [])
    → Left a u (s ∷ l)
    → Goes a u s l
unfolding allowed
Runs-Left received u upload l d c h = ground arith
Runs-Left received u ocr l d c h = ground arith
Runs-Left received u llm l d c h = ground arith
Runs-Left received u adjudicate l d c h = ground arith
Runs-Left received u review l d c h = ground arith
Runs-Left received u persist l d c h = ground arith
Runs-Left ocr_done u upload l d c h = ground arith
Runs-Left ocr_done u ocr l d c h = ground arith
Runs-Left ocr_done u llm l d c h = ground arith
Runs-Left ocr_done u adjudicate l d c h = ground arith
Runs-Left ocr_done u review l d c h = ground arith
Runs-Left ocr_done u persist l d c h = ground arith
Runs-Left llm_done u upload l d c h = ground arith
Runs-Left llm_done u ocr l d c h = ground arith
Runs-Left llm_done u llm l d c h = ground arith
Runs-Left llm_done u adjudicate l d c h = ground arith
Runs-Left llm_done u review l d c h = ground arith
Runs-Left llm_done u persist l d c h = ground arith
Runs-Left adjudicated u upload l d c h = ground arith
Runs-Left adjudicated u ocr l d c h = ground arith
Runs-Left adjudicated u llm l d c h = ground arith
Runs-Left adjudicated u adjudicate l d c h = ground arith
Runs-Left adjudicated u review l d c h = ground arith
Runs-Left adjudicated u persist l d c h = ground arith
Runs-Left persisted u s l d c h = absurd (cc)
Runs-Left ocr_running u s l d c h = absurd h
Runs-Left llm_running u s l d c h = absurd h
Runs-Left notified u s l d c h = absurd h
Runs-Left failed u s l d c h = absurd h
Runs-Left partial_success u s l d c h = absurd h
Runs-Left ClaimStatus.notify_failed u s l d c h = absurd h

-- The next stage makes only legal moves, and what is left fits behind it.
pub Fits-cons :
    (a : ClaimStatus) (u : Bool) (s : Stage) (l : List Stage)
    → Fits a u (s ∷ l)
    → Runs s a u × Fits (after_stage s a) (has_document s u) l
Fits-cons a u s l f =
    let (runs, rest) = Runs-Left a u s l f.distinct f.closes.0 f.left in
    (runs, record { distinct = f.distinct.1; closes = f.closes.1; left = rest })

ends-member : (s : Stage) (l : List Stage) → ends_with s l ≡ true → member s l ≡ true
ends-member s [] h = cc
ends-member s (t ∷ []) h = ground arith
ends-member s (t ∷ v ∷ l) h = ground (arith, ends-member s (v ∷ l) h)

ends-Closes : (l : List Stage) → Distinct l → ends_with persist l ≡ true → Closes l
ends-Closes [] d h = tt
ends-Closes (s ∷ []) d h = (λ e. refl, tt)
ends-Closes (s ∷ t ∷ l) d h =
    (λ e. absurd (ground (arith, ends-member persist (t ∷ l) h)), ends-Closes (t ∷ l) d.1 h)

-- A pipeline in which no ADJUDICATE stands before an OCR fits a claim that was just received.
pub IsPipeline-Fits :
    (l : List Stage)
    → IsPipeline l
    → (member ocr l ≡ true → Precedes ocr adjudicate l)
    → Fits received false l
IsPipeline-Fits l p ordered = record {
  distinct = p.distinct;
  closes = ends-Closes l p.distinct p.persisted;
  left = (inr p.uploaded, p.read, p.scored, ordered);
}
