-- ===== src/Llm/Clients.antt =====
-- claimpipe/adapters/model_client.py: the models behind ModelClient. The provider's API and json.loads
-- are arguments; the rate limiter only delays a call.
use insurance_claim_ai.Prelude.{
  ℕ, zero, suc, ◌+◌, ◌/◌, String, Option, none, some, List, [], ◌∷◌, if◌then◌else◌, ◌==◌,
}
use insurance_claim_ai.Domain.Errors.{
  Result, err, key_error, type_error, runtime_error, require, ◌>>=◌,
}
use insurance_claim_ai.Value.{Value, Float, str, dict, lookup_field}
use insurance_claim_ai.Value.Conversion.{to_float}
use insurance_claim_ai.Domain.Models.{validate_prediction}
use insurance_claim_ai.Llm.{ModelClient}
use Prim.Native.String as Text

-- `text[:n]`
abbrev pub first_chars : ℕ → String → String
first_chars zero t = ""
first_chars (suc n) Text.[] = ""
first_chars (suc n) (Text.◌∷◌ c t) = Text.◌∷◌ c (first_chars n t)

-- MockModelClient.predict
unfoldable pub mock_predict : String → String → Float → ModelClient
mock_predict name version confidence ocr_text = validate_prediction (record {
  model_name = name;
  model_version = version;
  output = ("summary", str (first_chars 64 ocr_text)) ∷ ("category", str "auto") ∷ [];
  confidence = confidence;
  latency_ms = 1;
  tokens_cost = Text.count ocr_text / 4;
})

-- A block of a response's content.
pub record Block : Type 0 where
  pub type : String
  pub text : String

pub record Response : Type 0 where
  pub content : List Block
  pub input_tokens : ℕ
  pub output_tokens : ℕ

-- `next(b.text for b in resp.content if b.type == "text")`
abbrev pub first_text : List Block → Option String
first_text [] = none
first_text (b ∷ blocks) =
    let later = first_text blocks in if b.type == "text" then some b.text else later

-- `data[key]`
abbrev pub item : Value → String → Result Value
item (dict fields) key = require (lookup_field fields key) key_error
item _ key = err type_error

-- AnthropicModelClient.predict. A StopIteration in a coroutine arrives as a RuntimeError.
unfoldable pub anthropic_predict :
    (String → String → Result Response)
    → (String → Result Value)
    → (String → Option Float)
    → String
    → String
    → String
    → ModelClient
anthropic_predict create loads read model name version ocr_text = do
  resp ← create model ocr_text
  text ← require (first_text resp.content) runtime_error
  data_value ← loads text
  summary ← item data_value "summary"
  category ← item data_value "category"
  stated ← item data_value "confidence"
  confidence ← to_float read stated
  validate_prediction (record {
    model_name = name;
    model_version = version;
    output = ("summary", summary) ∷ ("category", category) ∷ [];
    confidence = confidence;
    latency_ms = 0;
    tokens_cost = resp.input_tokens + resp.output_tokens;
  })
