-- ===== src/ClaimTypes/Registry.antt =====
-- What the registry of claim types holds.
use insurance_claim_ai.Prelude.{
  ◌≡◌, String, some, [], arith, if◌then◌else◌, ◌==◌, eq_iff, get, put, get-put,
}
use insurance_claim_ai.Domain.Errors.{ok, >>=-eq-ok}
use insurance_claim_ai.ClaimTypes.{ClaimTypeDef, Registry, register, get_type, validate_pipeline}

-- Every type of the registry has a stage list that passed validation.
pub record IsSound (reg : Registry) : Type 0 where
  pub sound :
      (name : String) (defn : ClaimTypeDef)
      → get reg name ≡ some defn
      → (validate_pipeline defn.stages ≡ ok tt) × (defn.name ≡ name)

IsSound-empty : IsSound []
unfolding get
IsSound-empty = record { sound = λ name defn h. cc }

-- Registration takes a definition exactly when its stage list passes validation; it then answers
-- for its name, every other name as before, and the registry stays sound.
pub register_lem :
    (reg : Registry) (defn : ClaimTypeDef) (t : Registry)
    → register reg defn ≡ ok t
    → (validate_pipeline defn.stages ≡ ok tt)
      × ((name : String)
          → get_type t name ≡ (if defn.name == name then ok defn else get_type reg name))
unfolding register get_type
register_lem reg defn t h =
    let (u, valid, stored) =
      >>=-eq-ok (validate_pipeline defn.stages) (λ u. ok (put reg defn.name defn)) h in
    (valid, λ name. ground (arith, stored, get-put reg defn.name name defn))

pub register-IsSound :
    (reg : Registry) (defn : ClaimTypeDef) (t : Registry)
    → IsSound reg
    → register reg defn ≡ ok t
    → IsSound t
unfolding register
register-IsSound reg defn t s h =
    let (u, valid, stored) =
      >>=-eq-ok (validate_pipeline defn.stages) (λ u. ok (put reg defn.name defn)) h in
    record {
      sound = λ name d found. ground (
        arith,
        valid,
        stored,
        get-put reg defn.name name defn,
        eq_iff defn.name name,
        s.sound name d,
      );
    }
