-- ===== src/ClaimTypes/Attributes.antt =====
-- The attribute errors against a description of the schema.
use insurance_claim_ai.Prelude.{
  ◌≡◌, refl, ◌↔◌, true, false, Option, none, some, List, [], ◌∷◌, ◌++◌, arith, All, Dict, get,
}
use insurance_claim_ai.Value.{Value, Float, bool, int, float, str}
use insurance_claim_ai.Prelude.{String, Bool}
use insurance_claim_ai.Prelude.Int.{ℤ}
use insurance_claim_ai.ClaimTypes.{
  AttributeSpec, AttributeType, string, number, boolean, AttributeError, has_type, check_attribute,
  validate_attributes,
}

-- The values that a declared type admits: a text, an integer or a double, and a Boolean, which is no
-- number.
pub data IsOfType : AttributeType → Value → Type 0 where
  text : (s : String) → IsOfType string (str s)
  integer : (n : ℤ) → IsOfType number (int n)
  double : (x : Float) → IsOfType number (float x)
  truth_value : (b : Bool) → IsOfType boolean (bool b)

-- An attribute conforms: absent only if optional, and of the declared type.
abbrev pub Conforms : AttributeSpec → Option Value → Type 0
Conforms spec none = spec.required ≡ false
Conforms spec (some v) = IsOfType spec.type v

has_type-IsOfType : (type : AttributeType) (v : Value) → has_type type v ≡ true → IsOfType type v
has_type-IsOfType string (str s) h = text s
has_type-IsOfType number (int n) h = integer n
has_type-IsOfType number (float x) h = double x
has_type-IsOfType boolean (bool b) h = truth_value b
has_type-IsOfType _ _ h = absurd (cc)

IsOfType-has_type : (type : AttributeType) (v : Value) → IsOfType type v → has_type type v ≡ true
IsOfType-has_type _ _ (text s) = refl
IsOfType-has_type _ _ (integer n) = refl
IsOfType-has_type _ _ (double x) = refl
IsOfType-has_type _ _ (truth_value b) = refl

check_attribute-Conforms :
    (spec : AttributeSpec) (o : Option Value) → (check_attribute spec o ≡ []) ↔ Conforms spec o
check_attribute-Conforms spec none = (λ h. ground arith, λ h. ground (arith, h))
check_attribute-Conforms spec (some v) = (
  λ h. has_type-IsOfType spec.type v (ground (arith, h)),
  λ h. let typed = IsOfType-has_type spec.type v h in ground (arith, typed),
)

append-eq-nil : (xs ys : List AttributeError) → xs ++ ys ≡ [] → (xs ≡ []) × (ys ≡ [])
append-eq-nil [] ys h = (refl, h)
append-eq-nil (x ∷ xs) ys h = absurd (cc)

-- No error is reported exactly when every attribute of the schema conforms: a required one is there,
-- and what is there is of the declared type, where true and false are no numbers.
pub validate_attributes_iff :
    (specs : List AttributeSpec) (attributes : Dict Value)
    → (validate_attributes specs attributes ≡ [])
      ↔ All (λ spec. Conforms spec (get attributes spec.name)) specs
unfolding validate_attributes
validate_attributes_iff [] attributes = (λ h. tt, λ h. refl)
validate_attributes_iff (spec ∷ specs) attributes =
    let rest = validate_attributes_iff specs attributes in
    let first = check_attribute-Conforms spec (get attributes spec.name) in
    (
      λ h.
          let (here, there) =
            append-eq-nil (check_attribute spec (get attributes spec.name))
              (validate_attributes specs attributes) h in
          (first.0 here, rest.0 there),
      λ h. rw (first.1 h.0) (rest.1 h.1),
    )
