-- ===== src/Agent.antt =====
-- claimpipe/agent.py: the review graph, extract, validate, recommend, critic, which the graph runs
-- in that order, each node's fields added to the state. `dump` is Python's `str` of a dict.
use insurance_claim_ai.Prelude.{
  ◌*◌, ◌^◌, ◌≡◌, refl, ◌∙◌, String, Bool, true, false, ◌&&◌, ◌||◌, Option, none, some, List, [],
  ◌∷◌, arith, if◌then◌else◌, or_else, ◌==◌, Dict, get,
}
use insurance_claim_ai.Prelude.Int.{pos}
use insurance_claim_ai.Domain.Errors.{Result, ok, >>=-eq-ok, ◌>>=◌}
use insurance_claim_ai.Value.{Value, Float, finite, ltf, lef, whole}
use insurance_claim_ai.Value.Conversion.{truth}
use insurance_claim_ai.Llm.{ModelClient}

pub record Validation : Type 0 where
  pub passed : Bool
  pub checked : List String

pub record Critique : Type 0 where
  pub confidence : Float
  pub flag_for_human : Bool

pub record AgentState : Type 0 where
  pub ocr_text : String
  pub extracted : Option (Dict Value)
  pub confidence : Option Float
  pub validation : Option Validation
  pub recommendation : Option String
  pub critique : Option Critique

-- The doubles nearest to 0.8 and 0.7.
unfoldable pub confident_floor : Float
confident_floor = finite (pos (7205759403792794 * 2 ^ 1021))

unfoldable pub critic_floor : Float
critic_floor = finite (pos (6305039478318694 * 2 ^ 1021))

abbrev truth_of : Option Value → Bool
truth_of none = false
truth_of (some v) = truth v

abbrev passed_of : Option Validation → Bool
passed_of none = false
passed_of (some v) = v.passed

abbrev is_text : String → Option String → Bool
is_text t none = false
is_text t (some s) = s == t

unfoldable pub extract : ModelClient → AgentState → Result AgentState
extract extractor state = do
  pred ← extractor state.ocr_text
  ok (record state { extracted = some pred.output; confidence = some pred.confidence })

unfoldable pub validate : AgentState → AgentState
validate state = record state {
  validation = some (record {
    passed = truth_of (get (or_else state.extracted []) "category");
    checked = "category_present" ∷ [];
  });
}

unfoldable pub recommend : AgentState → AgentState
recommend state = record state {
  recommendation = some (
      if passed_of state.validation
        && lef confident_floor (or_else state.confidence (whole (pos 0)))
      then "approve"
      else "manual_review");
}

unfoldable pub criticise : (Dict Value → String) → ModelClient → AgentState → Result AgentState
criticise dump critic state = do
  pred ← critic (dump (or_else state.extracted []))
  ok (record state {
    critique = some (record {
      confidence = pred.confidence;
      flag_for_human =
          ltf pred.confidence critic_floor || is_text "manual_review" state.recommendation;
    });
  })

abbrev started : String → AgentState
started text = record {
  ocr_text = text;
  extracted = none;
  confidence = none;
  validation = none;
  recommendation = none;
  critique = none;
}

-- ClaimReviewAgent.review
unfoldable pub review_claim :
    (Dict Value → String) → ModelClient → ModelClient → String → Result AgentState
review_claim dump extractor critic text = do
  state ← extract extractor (started text)
  criticise dump critic (recommend (validate state))

-- What the critic adds: the state is kept, and a calm critique leaves the recommendation standing.
criticise_calm :
    (dump : Dict Value → String) (critic : ModelClient) (s t : AgentState) (c : Critique)
    → criticise dump critic s ≡ ok t
    → t.critique ≡ some c
    → c.flag_for_human ≡ false
    → (t.recommendation ≡ s.recommendation)
      × (t.extracted ≡ s.extracted)
      × (t.confidence ≡ s.confidence)
      × (is_text "manual_review" s.recommendation ≡ false)
      × (ltf c.confidence critic_floor ≡ false)
unfolding criticise
criticise_calm dump critic s t c h hc calm = ground arith

approve_if :
    (b : Bool) → ((if b then "approve" else "manual_review") == "manual_review") ≡ false → b ≡ true
approve_if true h = refl
approve_if false h = cc

and_parts : (a b : Bool) → (a && b) ≡ true → (a ≡ true) × (b ≡ true)
and_parts true b h = (refl, h)
and_parts false b h = cc

recommend_calm :
    (s : AgentState)
    → is_text "manual_review" (recommend (validate s)).recommendation ≡ false
    → ((recommend (validate s)).recommendation ≡ some "approve")
      × (truth_of (get (or_else s.extracted []) "category") ≡ true)
      × (lef confident_floor (or_else s.confidence (whole (pos 0))) ≡ true)
      × ((recommend (validate s)).extracted ≡ s.extracted)
      × ((recommend (validate s)).confidence ≡ s.confidence)
unfolding recommend validate
recommend_calm s h =
    let both =
      approve_if
        (truth_of (get (or_else s.extracted []) "category")
          && lef confident_floor (or_else s.confidence (whole (pos 0))))
        h in
    let (category, confident) =
      and_parts (truth_of (get (or_else s.extracted []) "category"))
        (lef confident_floor (or_else s.confidence (whole (pos 0)))) both in
    (rw both, category, confident, refl, refl)

-- A review that is not flagged for a human recommends approval, and rests on an extraction with a
-- category, at a confidence of 0.8 or more, that the critic does not put below 0.7.
pub unflagged_review :
    (dump : Dict Value → String) (extractor critic : ModelClient) (text : String)
    (state : AgentState) (c : Critique)
    → review_claim dump extractor critic text ≡ ok state
    → state.critique ≡ some c
    → c.flag_for_human ≡ false
    → (state.recommendation ≡ some "approve")
      × (truth_of (get (or_else state.extracted []) "category") ≡ true)
      × (lef confident_floor (or_else state.confidence (whole (pos 0))) ≡ true)
      × (ltf c.confidence critic_floor ≡ false)
unfolding review_claim
unflagged_review dump extractor critic text state c ran hc calm =
    let (s, extracted, rest) =
      >>=-eq-ok (extract extractor (started text))
        (λ s. criticise dump critic (recommend (validate s))) ran in
    let (rec, ext, con, unflagged, high) =
      criticise_calm dump critic (recommend (validate s)) state c rest hc calm in
    let (approved, category, confident, ext', con') = recommend_calm s unflagged in
    (rec ∙ approved, rw (ext ∙ ext') category, rw (con ∙ con') confident, high)
