-- ===== src/Output.antt =====
-- claimpipe/adapters/output.py: the outbound documents. `json.dumps` on the remittance is an
-- argument; a letter is written out.
use insurance_claim_ai.Prelude.{
  ◌≡◌, ◌↔◌, inl, inr, String, true, Option, none, some, List, [], ◌∷◌, map, arith, if◌then◌else◌,
  ◌==◌, eq_iff, Dict, get, Option-cases,
}
use insurance_claim_ai.Prelude.Int.{pos}
use insurance_claim_ai.Domain.Errors.{Result, ok, output_error, is_ok, guard, require, ◌>>=◌, ◌>>◌}
use insurance_claim_ai.Domain.Models.{Claim, ModelPrediction}
use insurance_claim_ai.Value.{Value, Float, int, null}
use Prim.Native.String as Text

-- _require_decision
abbrev pub require_decision : Claim → Result String
require_decision c = require c.decision output_error

-- The keys of the remittance that are not constants.
pub record Eob : Type 0 where
  pub claim_id : String
  pub claim_type : String
  pub customer_id : String
  pub decision : String
  pub reason_codes : List String
  pub claimed_amount : Value
  pub payable_amount : Value
  pub model_summaries : List (String × Float)

-- `attributes.get("amount")`, which is None if there is none.
abbrev pub or_null : Option Value → Value
or_null none = null
or_null (some v) = v

-- EobJsonAdapter.render, the document.
unfoldable pub eob : Claim → List ModelPrediction → Result Eob
eob c predictions = do
  decision ← require_decision c
  let amount = or_null (get c.metadata.attributes "amount")
  ok (record {
    claim_id = c.claim_id;
    claim_type = c.metadata.claim_type;
    customer_id = c.metadata.customer_id;
    decision = decision;
    reason_codes = c.reason_codes;
    claimed_amount = amount;
    payable_amount = if decision == "APPROVE" then amount else int (pos 0);
    model_summaries = map (λ p. (p.model_name, p.confidence)) predictions;
  })

-- `", ".join(texts)`
abbrev pub join : List String → String
join [] = ""
join (s ∷ []) = s
join (s ∷ t ∷ texts) = Text.◌++◌ s (Text.◌++◌ ", " (join (t ∷ texts)))

abbrev pub or_unspecified : String → String
or_unspecified s = if s == "" then "UNSPECIFIED" else s

abbrev pub letter : Claim → String
letter c = Text.◌++◌ "RE: Claim " (
    Text.◌++◌ c.claim_id (
      Text.◌++◌ "\n\nDear " (
        Text.◌++◌ c.metadata.customer_id (
          Text.◌++◌ ",\n\nAfter review, your claim has been DENIED for the following reason(s): " (
            Text.◌++◌ (or_unspecified (join c.reason_codes))
              ".\n\nYou have the right to appeal this determination. Please refer to your policy\ndocuments for the appeals process and applicable deadlines.\n")))))

-- DenialLetterAdapter.render
unfoldable pub denial_letter : Claim → List ModelPrediction → Result String
denial_letter c predictions = do
  decision ← require_decision c
  guard (decision == "DENY") output_error
  ok (letter c)

pub record OutputAdapter : Type 0 where
  pub content_type : String
  pub render : Claim → List ModelPrediction → Result String

abbrev pub render_eob : (Eob → String) → Claim → List ModelPrediction → Result String
render_eob dump c predictions = do doc ← eob c predictions; ok (dump doc)

-- default_output_adapters
abbrev pub default_output_adapters : (Eob → String) → Dict OutputAdapter
default_output_adapters dump =
    ("eob", record { content_type = "application/json"; render = render_eob dump })
    ∷ ("denial-letter", record { content_type = "text/plain"; render = denial_letter })
    ∷ []

-- A claim is told that it is denied exactly when its decision is DENY; the remittance is there as
-- soon as there is a decision, and pays the claimed amount for APPROVE and nothing otherwise.
pub documents_lem :
    (c : Claim) (predictions : List ModelPrediction)
    → ((is_ok (denial_letter c predictions) ≡ true) ↔ (c.decision ≡ some "DENY"))
      × ((is_ok (eob c predictions) ≡ true) ↔ ((d : String) × (c.decision ≡ some d)))
      × ((doc : Eob)
          → eob c predictions ≡ ok doc
          → (c.decision ≡ some doc.decision)
            × (doc.payable_amount
                ≡ (if doc.decision == "APPROVE" then doc.claimed_amount else int (pos 0))))
unfolding denial_letter eob
documents_lem c predictions = elim (Option-cases c.decision) [
  | inl undecided ↦ ground (arith, undecided)
  | inr (d, decided) ↦ ground (arith, decided, eq_iff d "DENY", eq_iff d "APPROVE")
]
