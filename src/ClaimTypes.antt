-- ===== src/ClaimTypes.antt =====
-- claimpipe/claimtypes.py: claim types as data, their validation, and the registry.
pub mod Attributes
pub mod Pipeline
pub mod Seed
pub mod Registry
use mathlib.Core.Logic.{ite}
use insurance_claim_ai.Prelude.{
  ℕ, zero, suc, ◌≤◌, ◌<◌, ◌+◌, ◌-◌, ◌*◌, ◌^◌, ◌≡◌, ◌≢◌, ◌⊎◌, inl, inr, refl, sym, ap, ◌∙◌, ◌↔◌,
  String, Bool, true, false, not, ◌&&◌, ◌||◌, Option, none, some, List, [], ◌∷◌, ◌++◌, map, arith,
  any, all, All, if◌then◌else◌, or_else, length, ◌==◌, eq_iff, eq_refl, Dict, get, put, has,
  get-put, get-put_self, get-put_ne, get-empty, keep_if, keep_if-append, is_some, is_yes,
  Bool-cases, Option-cases, length-append, take, drop, values, append-nil, append_assoc, ltb, leb,
  nat_eq,
}
use insurance_claim_ai.Prelude.Int.{ℤ, pos, negsuc}
use insurance_claim_ai.Domain.Errors.{
  Result, ok, err, Error, illegal_transition, invalid_pipeline, unknown_claim_type, unknown_tenant,
  intake_error, output_error, key_error, value_error, type_error, overflow_error, assertion_error,
  validation_error, delivery_error, timeout_error, activity_error, unauthorized, forbidden,
  not_found, bad_request, conflict, unprocessable, >>=-eq-ok, is_ok, ◌>>=◌, ◌>>◌, guard, require,
  Result-cases, ok-injective,
}
use insurance_claim_ai.Value.{
  Value, Float, bool, int, float, str, null, list, dict, field, end, nan, finite, inf, neg_inf, ltf,
  lef, eq, whole, unit, eqf,
}

pub data Stage : Type 0 where
  upload ocr llm adjudicate review persist : Stage

unfoldable pub Stage-discrete : Discrete Stage
Stage-discrete = hlevel

abbrev pub same_stage : Stage → Stage → Bool
same_stage a b = is_yes (Stage-discrete a b)

-- The pattern of AttributeSpec.type.
pub data AttributeType : Type 0 where
  string number boolean : AttributeType

pub record AttributeSpec : Type 0 where
  pub name : String
  pub type : AttributeType
  pub required : Bool

pub record ClaimTypeDef : Type 0 where
  pub name : String
  pub version : String
  pub description : String
  pub attributes : List AttributeSpec
  pub stages : List Stage

-- `s in stages`
abbrev pub member : Stage → List Stage → Bool
member s stages = any (λ t. same_stage t s) stages

-- `set(stages)`, of which only the size is used.
unfoldable pub set_of : List Stage → List Stage
set_of [] = []
set_of (s ∷ stages) = let rest = set_of stages in if member s rest then rest else s ∷ rest

abbrev pub ends_with : Stage → List Stage → Bool
ends_with s [] = false
ends_with s (t ∷ []) = same_stage t s
ends_with s (t ∷ u ∷ stages) = ends_with s (u ∷ stages)

-- `order[s]` of `{s: i for i, s in enumerate(stages)}`: a later index replaces an earlier one.
abbrev pub later_index : Option ℕ → Bool → ℕ → Option ℕ
later_index (some j) here i = some j
later_index none true i = some i
later_index none false i = none

unfoldable pub order : ℕ → List Stage → Stage → Option ℕ
order i [] s = none
order i (t ∷ stages) s = later_index (order (suc i) stages s) (same_stage t s) i

abbrev out_of_order : Option ℕ → Option ℕ → Bool
out_of_order (some i) (some j) = ltb j i
out_of_order _ _ = false

unfoldable pub misplaced : List Stage → Stage → Stage → Bool
misplaced stages earlier later = out_of_order (order 0 stages earlier) (order 0 stages later)

-- `a in stages and b not in stages`
abbrev pub lacks : List Stage → Stage → Stage → Bool
lacks stages a b = member a stages && not (member b stages)

-- ClaimTypeDef.validate_pipeline
unfoldable pub validate_pipeline : List Stage → Result (Unit {0})
validate_pipeline stages = do
  guard (nat_eq (length stages) (length (set_of stages))) invalid_pipeline
  guard (ends_with persist stages) invalid_pipeline
  guard (not (lacks stages ocr upload)) invalid_pipeline
  guard (not (lacks stages llm ocr)) invalid_pipeline
  guard (not (lacks stages review adjudicate)) invalid_pipeline
  guard (not (misplaced stages upload ocr)) invalid_pipeline
  guard (not (misplaced stages ocr llm)) invalid_pipeline
  guard (not (misplaced stages llm adjudicate)) invalid_pipeline
  guard (not (misplaced stages adjudicate review)) invalid_pipeline

-- validate_attributes: the errors, by attribute.
pub data AttributeError : Type 0 where
  missing : String → AttributeError
  ill_typed : String → AttributeType → AttributeError

-- `isinstance(value, py_types[spec.type])`, and a bool is no number.
abbrev pub has_type : AttributeType → Value → Bool
has_type string (str s) = true
has_type number (int n) = true
has_type number (float x) = true
has_type boolean (bool b) = true
has_type _ _ = false

abbrev pub check_attribute : AttributeSpec → Option Value → List AttributeError
check_attribute spec none = if spec.required then missing spec.name ∷ [] else []
check_attribute spec (some v) =
    if has_type spec.type v then [] else ill_typed spec.name spec.type ∷ []

unfoldable pub validate_attributes : List AttributeSpec → Dict Value → List AttributeError
validate_attributes [] attributes = []
validate_attributes (spec ∷ specs) attributes =
    check_attribute spec (get attributes spec.name) ++ validate_attributes specs attributes

-- ClaimTypeRegistry
abbrev pub Registry : Type 0
Registry = Dict ClaimTypeDef

unfoldable pub register : Registry → ClaimTypeDef → Result Registry
register reg defn = do validate_pipeline defn.stages; ok (put reg defn.name defn)

unfoldable pub get_type : Registry → String → Result ClaimTypeDef
get_type reg name = require (get reg name) unknown_claim_type
