-- ===== src/Intake.antt =====
-- claimpipe/adapters/intake.py: the submission formats. Arguments: `parse`, what json.loads makes of
-- a body (`none` where it raises); `read`, what float makes of a text; `show`, str of a value that is
-- not a text. An X12 body comes decoded.
pub mod X12
pub mod RoundTrip
pub mod Schema
use insurance_claim_ai.Prelude.{
  ◌≡◌, refl, String, Bool, true, false, not, ◌&&◌, ◌||◌, Option, none, some, List, [], ◌∷◌, any,
  arith, if◌then◌else◌, ◌==◌, Dict,
}
use insurance_claim_ai.Domain.Errors.{
  Result, ok, err, intake_error, attribute_error, key_error, guard, require, ◌>>=◌, ◌>>◌, Error,
  value_error,
}
use insurance_claim_ai.Domain.Models.{ClaimMetadata, validate_metadata}
use insurance_claim_ai.Value.{
  Value, Float, Fields, field, end, null, bool, int, float, str, list, dict, lookup_field,
}
use insurance_claim_ai.Value.Conversion.{truth, to_float}
use insurance_claim_ai.RefData.{text_of}

-- `doc.get(k)`, for what is no dict an AttributeError.
abbrev pub get_of : Value → String → Result (Option Value)
get_of (dict d) k = ok (lookup_field d k)
get_of _ k = err attribute_error

-- `v or {}`
abbrev pub or_empty_dict : Option Value → Value
or_empty_dict none = dict end
or_empty_dict (some v) = if truth v then v else dict end

-- `v in (None, "")` for `v = d.get(k)`
abbrev pub is_blank : Option Value → Bool
is_blank none = true
is_blank (some null) = true
is_blank (some (str s)) = s == ""
is_blank (some v) = false

abbrev pub is_mapped : String → Bool
is_mapped k = k == "policyNo" || k == "lossDate" || k == "estimatedAmount" || k == "reporter"

-- The carrier's other fields.
unfoldable pub carrier_extras : Fields → Fields
carrier_extras end = end
carrier_extras (field k v d) =
    let rest = carrier_extras d in if is_mapped k then rest else field k v rest

abbrev pub fields_of : Value → Fields
fields_of (dict d) = d
fields_of _ = end

abbrev fnol_metadata :
    (Value → String) → Value → Value → Value → Float → Value → Value → ClaimMetadata
fnol_metadata show doc policy date amount id url = record {
  customer_id = text_of show id;
  callback_url = text_of show url;
  claim_type = "auto-fnol";
  tenant_id = "default";
  schema_version = "v1";
  attributes =
      ("policy_number", str (text_of show policy))
      ∷ ("incident_date", str (text_of show date))
      ∷ ("amount", float amount)
      ∷ ("carrier_extras", dict (carrier_extras (fields_of doc)))
      ∷ [];
}

unfoldable pub fnol_claim :
    (Value → String) → Value → Value → Value → Float → Value → Value → Result ClaimMetadata
fnol_claim show doc policy date amount id url =
    validate_metadata (fnol_metadata show doc policy date amount id url)

-- What `normalize` looks up in the document.
pub record FnolFields : Type 0 where
  pub policy : Option Value
  pub date : Option Value
  pub estimate : Option Value
  pub id : Option Value
  pub url : Option Value

unfoldable pub fnol_fields : Value → Result FnolFields
fnol_fields doc = do
  given ← get_of doc "reporter"
  let reporter = or_empty_dict given
  policy ← get_of doc "policyNo"
  date ← get_of doc "lossDate"
  estimate ← get_of doc "estimatedAmount"
  id ← get_of reporter "id"
  url ← get_of reporter "callbackUrl"
  ok (record { policy = policy; date = date; estimate = estimate; id = id; url = url })

-- `doc[k]` of the keys that were looked up.
unfoldable pub fnol_of :
    (String → Option Float)
    → (Value → String)
    → Value
    → Option Value
    → Option Value
    → Option Value
    → Option Value
    → Option Value
    → Result ClaimMetadata
fnol_of read show doc (some p) (some d) (some e) (some i) (some u) = do
  amount ← to_float read e
  fnol_claim show doc p d amount i u
fnol_of read show doc _ _ _ _ _ = err key_error

abbrev pub is_missing : FnolFields → Bool
is_missing f =
    is_blank f.policy || is_blank f.date || is_blank f.estimate || is_blank f.id || is_blank f.url

-- FnolIntakeAdapter.normalize, on a parsed body.
unfoldable pub normalize_doc :
    (String → Option Float) → (Value → String) → Value → Result ClaimMetadata
normalize_doc read show doc = do
  f ← fnol_fields doc
  guard (not (is_missing f)) intake_error
  fnol_of read show doc f.policy f.date f.estimate f.id f.url

unfoldable pub normalize_fnol :
    (String → Option Value)
    → (String → Option Float)
    → (Value → String)
    → String
    → Result ClaimMetadata
normalize_fnol parse read show raw = do
  doc ← require (parse raw) intake_error
  normalize_doc read show doc

-- An amount that is a text and no number is refused by `float` itself, not as an IntakeError.
pub fnol_not_a_number :
    (parse : String → Option Value) (read : String → Option Float) (show : Value → String)
    (raw : String) (d reporter : Fields) (amount : String)
    → parse raw ≡ some (dict d)
    → lookup_field d "reporter" ≡ some (dict reporter)
    → is_blank (lookup_field d "policyNo") ≡ false
    → is_blank (lookup_field d "lossDate") ≡ false
    → is_blank (lookup_field reporter "id") ≡ false
    → is_blank (lookup_field reporter "callbackUrl") ≡ false
    → lookup_field d "estimatedAmount" ≡ some (str amount)
    → (amount == "") ≡ false
    → read amount ≡ none
    → normalize_fnol parse read show raw ≡ err value_error
unfolding normalize_fnol normalize_doc fnol_fields fnol_of to_float
fnol_not_a_number parse read show raw d reporter amount p r hp hd hi hu he hne hn = ground arith
