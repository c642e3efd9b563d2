-- ===== src/Examples/Deciding.antt =====
-- Adjudication, validation, intake and the agent at concrete inputs.
use insurance_claim_ai.Prelude.{
  ◌≤◌, ◌^◌, ◌≡◌, refl, ◌↔◌, String, true, false, Option, none, some, [], ◌∷◌, arith, All,
  if◌then◌else◌, ◌==◌, Dict, get,
}
use insurance_claim_ai.Prelude.Int.{pos}
use insurance_claim_ai.Domain.Errors.{ok}
use insurance_claim_ai.Value.{Value, Float, bool, float, str, dict, field, end, nan, whole, Fields}
use insurance_claim_ai.Domain.Models.{ClaimMetadata, validate_metadata}
use insurance_claim_ai.Value.Conversion.{to_float, overflow_bound}
use insurance_claim_ai.Adjudication.{RuleSet, adjudicate}
use insurance_claim_ai.Adjudication.Rulesets.{auto_fnol, structured_claim}
use insurance_claim_ai.Adjudication.{pend}
use insurance_claim_ai.Adjudication.Totality.{adjudicate-decide, decide}
use insurance_claim_ai.Value.Conversion.{float_of_int}
use insurance_claim_ai.Adjudication.FirstMatch.{FirstMatch, result, adjudicate_iff}
use insurance_claim_ai.Adjudication.Tables.{
  structured_table, structured_result, fnol_table, fnol_result,
}
use insurance_claim_ai.ClaimTypes.{
  Stage-discrete, adjudicate as stage_adjudicate, review, persist, validate_pipeline, set_of,
  misplaced, order, validate_attributes,
}
use insurance_claim_ai.ClaimTypes.Pipeline.{IsPipeline, validate-IsPipeline}
use insurance_claim_ai.ClaimTypes.Attributes.{Conforms, validate_attributes_iff}
use insurance_claim_ai.ClaimTypes.Seed.{fnol_type}
use insurance_claim_ai.RefData.{PolicyRecord}
use insurance_claim_ai.Intake.{
  normalize_fnol, normalize_doc, fnol_fields, fnol_of, fnol_claim, carrier_extras,
}
use insurance_claim_ai.Intake.RoundTrip.{
  Interchange, segments, subscriber_elements, claim_elements, date_elements, written,
  normalize-written,
}
use insurance_claim_ai.Domain.Models.{validate_metadata}
use insurance_claim_ai.Intake.X12.{Lacks}
use Prim.Native.Char.{code}
use Prim.Native.String as Text
use insurance_claim_ai.Prelude.{ℕ, Bool, List, all, not, ◌&&◌, nat_eq, All, arith}
use insurance_claim_ai.Intake.X12.{
  normalize_x12, split, strip_left, strip_right, read_segments, read_segment, x12_metadata,
}
use insurance_claim_ai.Intake.Schema.{normalize_fnol-fits}

abbrev reads_five : String → Option Float
reads_five s = if s == "5" then some (whole (pos 5)) else none

abbrev reads_none : String → Option Float
reads_none s = none

abbrev shows : Value → String
shows v = "?"

-- An undecided table: no rule matches.
abbrev empty_set : RuleSet
empty_set = record { name = "t"; version = "v1"; rules = [] }

adjudicate_iff_example :
    (adjudicate reads_none empty_set []
      ≡ ok (result reads_none empty_set [] pend "NO_RULE_MATCHED" none))
    ↔ FirstMatch reads_none empty_set [] []
        (result reads_none empty_set [] pend "NO_RULE_MATCHED" none)
adjudicate_iff_example =
    adjudicate_iff reads_none empty_set []
      (result reads_none empty_set [] pend "NO_RULE_MATCHED" none)

abbrev escalated_facts : Dict Value
escalated_facts = ("escalated", bool true) ∷ ("confidence", float (whole (pos 1))) ∷ []

abbrev calm_facts : Dict Value
calm_facts = ("escalated", bool false) ∷ ("confidence", float (whole (pos 1))) ∷ []

abbrev amount_facts : Dict Value
amount_facts = ("amount", float (whole (pos 100001))) ∷ []

abbrev nan_facts : Dict Value
nan_facts = ("amount", float nan) ∷ []

structured_table_example :
    adjudicate reads_none structured_claim nan_facts ≡ ok (structured_result nan_facts (some nan))
unfolding get to_float
structured_table_example = structured_table reads_none nan_facts (λ v found. ground (arith, found))

-- An amount that is no number.
abbrev text_facts : Dict Value
text_facts = ("amount", str "much") ∷ []

adjudicate-decide_example :
    adjudicate reads_none structured_claim text_facts
    ≡ ok (decide reads_none structured_claim text_facts structured_claim.rules)
unfolding get float_of_int overflow_bound
adjudicate-decide_example =
    adjudicate-decide reads_none structured_claim text_facts (λ k v found. ground (arith, found))
      refl

bound_le : overflow_bound ≤ 2 ^ 1024
unfolding overflow_bound
bound_le = omega arith

abbrev fnol_facts : Dict Value
fnol_facts =
    ("policy_status", str "lapsed")
    ∷ ("policy_found", bool true)
    ∷ ("amount", float (whole (pos 7)))
    ∷ calm_facts

fnol_table_example :
    adjudicate reads_none auto_fnol fnol_facts
    ≡ ok (fnol_result fnol_facts "lapsed" (whole (pos 7)) false (whole (pos 1)))
unfolding get to_float
fnol_table_example =
    fnol_table reads_none fnol_facts "lapsed" (float (whole (pos 7))) (whole (pos 7)) false
      (whole (pos 1)) refl refl refl refl refl refl

validate-IsPipeline_example : IsPipeline (stage_adjudicate ∷ review ∷ persist ∷ [])
unfolding validate_pipeline set_of misplaced order Stage-discrete
validate-IsPipeline_example = validate-IsPipeline (stage_adjudicate ∷ review ∷ persist ∷ []) refl

validate_attributes_iff_example :
    (validate_attributes fnol_type.attributes (("amount", bool true) ∷ []) ≡ [])
    ↔ All (λ spec. Conforms spec (get (("amount", bool true) ∷ []) spec.name)) fnol_type.attributes
validate_attributes_iff_example =
    validate_attributes_iff fnol_type.attributes (("amount", bool true) ∷ [])

abbrev policy_one : PolicyRecord
policy_one = record { policy_number = "P1"; status = "active"; line = "auto"; limit = none }

abbrev claimed : Dict Value
claimed = ("policy_number", str "P1") ∷ ("policy_status", str "active") ∷ []

abbrev reporter_one : Fields
reporter_one = field "id" (str "acme") (field "callbackUrl" (str "u") end)

abbrev fnol_body : Value → Fields
fnol_body amount = field "policyNo" (str "P1") (
    field "lossDate" (str "2024-01-01")
      (field "estimatedAmount" amount (field "reporter" (dict reporter_one) end)))

abbrev parses : Value → String → Option Value
parses amount raw = some (dict (fnol_body amount))

abbrev fnol_claimed : ClaimMetadata
fnol_claimed = record {
  customer_id = "acme";
  callback_url = "u";
  claim_type = "auto-fnol";
  tenant_id = "default";
  schema_version = "v1";
  attributes =
      ("policy_number", str "P1")
      ∷ ("incident_date", str "2024-01-01")
      ∷ ("amount", float (whole (pos 5)))
      ∷ ("carrier_extras", dict end)
      ∷ [];
}

normalize_fnol-fits_example :
    (◌≡◌ {A = String} "auto-fnol" "auto-fnol")
    × (validate_attributes fnol_type.attributes fnol_claimed.attributes ≡ [])
unfolding normalize_fnol normalize_doc fnol_fields fnol_of fnol_claim to_float carrier_extras
    validate_metadata
normalize_fnol-fits_example =
    normalize_fnol-fits (parses (str "5")) reads_five shows "{}" fnol_claimed refl

x12_reads :
    normalize_x12 reads_five "u" " NM1*IL*1*A*B****MI*M1 ~\nCLM*C1*5~DTP*472*D8*20240101~ "
    ≡ ok (record {
      customer_id = "M1";
      callback_url = "u";
      claim_type = "structured-claim";
      tenant_id = "default";
      schema_version = "v1";
      attributes = ("amount", float (whole (pos 5))) ∷ ("service_date", str "20240101") ∷ [];
    })
unfolding normalize_x12 split strip_left strip_right read_segments read_segment x12_metadata
    validate_metadata
x12_reads = refl

abbrev lacks : ℕ → String → Bool
lacks sep Text.[] = true
lacks sep (Text.◌∷◌ c s) = not (nat_eq (code c) sep) && lacks sep s

lacks-Lacks : (sep : ℕ) (s : String) → lacks sep s ≡ true → Lacks sep s
lacks-Lacks sep Text.[] h = tt
lacks-Lacks sep (Text.◌∷◌ c s) h = (ground arith, lacks-Lacks sep s (ground arith))

all_lack : (sep : ℕ) (l : List String) → all (lacks sep) l ≡ true → All (Lacks sep) l
all_lack sep [] h = tt
all_lack sep (s ∷ l) h = (lacks-Lacks sep s (ground arith), all_lack sep l (ground arith))

abbrev interchange : Interchange
interchange = record {
  entity_type = "1";
  last_name = "A";
  first_name = "B";
  middle_name = "";
  prefix = "";
  suffix = "";
  qualifier = "MI";
  subscriber = "M1";
  claim_id = "C1";
  amount = "5";
  date_format = "D8";
  service_date = "20240101";
}

normalize-written_example :
    normalize_x12 reads_five "u" (written interchange)
    ≡ validate_metadata (record {
      customer_id = "M1";
      callback_url = "u";
      claim_type = "structured-claim";
      tenant_id = "default";
      schema_version = "v1";
      attributes = ("amount", float (whole (pos 5))) ∷ ("service_date", str "20240101") ∷ [];
    })
unfolding strip_left strip_right
normalize-written_example =
    normalize-written reads_five "u" interchange (whole (pos 5))
      (all_lack b'*' ("NM1" ∷ subscriber_elements interchange) refl)
      (all_lack b'*' ("CLM" ∷ claim_elements interchange) refl)
      (all_lack b'*' ("DTP" ∷ date_elements interchange) refl)
      (all_lack b'~' (segments interchange) refl) (refl, (refl, (refl, tt))) refl refl
