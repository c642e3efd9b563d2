-- ===== src/Domain/Errors.antt =====
-- What a call may raise, and the result of a call that may.
use insurance_claim_ai.Prelude.{◌⊎◌, inl, inr, Bool, true, false, ◌≡◌, refl, Option, none, some}

pub data Error : Type 0 where
  illegal_transition invalid_pipeline unknown_claim_type unknown_tenant intake_error : Error
  output_error key_error value_error type_error attribute_error overflow_error : Error
  assertion_error rpc_error system_exit runtime_error client_error unique_violation
        not_null_violation data_error :
      Error
  validation_error delivery_error timeout_error activity_error : Error
  unauthorized forbidden not_found bad_request conflict unprocessable : Error

-- What a call that may raise gives: the exception, or the value that it returns.
pub data Result {ℓ} (T : Type ℓ) : Type ℓ where
  err : Error → Result T
  ok : T → Result T

-- The rest of a body runs on what a call returned; an exception ends it.
module _ {ℓ κ} {T : Type ℓ} {U : Type κ} where
  infixl 5 ◌>>=◌
  abbrev pub ◌>>=◌ : Result T → (T → Result U) → Result U
  err x >>= rest = err x
  ok v >>= rest = rest v

  -- Taking a result apart.
  pub >>=-eq-ok :
      (call : Result T) (rest : T → Result U) {u : U}
      → (call >>= rest) ≡ ok u
      → (v : T) × (call ≡ ok v) × (rest v ≡ ok u)
  >>=-eq-ok (err x) rest returned = absurd (cc)
  >>=-eq-ok (ok v) rest returned = (v, refl, returned)

infixl 5 ◌>>◌
abbrev pub ◌>>◌ {κ} : {U : Type κ} → Result (Unit {0}) → Result U → Result U
check >> next = check >>= λ done. next

-- `if not test: raise x`
abbrev pub guard : Bool → Error → Result (Unit {0})
guard test x = elim test [ false ↦ err x | true ↦ ok tt ]

module _ {ℓ} {T : Type ℓ} where
  -- `d[k]`, which raises `KeyError` on a missing key.
  abbrev pub require : Option T → Error → Result T
  require none x = err x
  require (some v) x = ok v

  abbrev pub is_ok : Result T → Bool
  is_ok (err x) = false
  is_ok (ok v) = true

  pub Result-cases : (r : Result T) → ((v : T) × (r ≡ ok v)) ⊎ ((x : Error) × (r ≡ err x))
  Result-cases (err x) = inr (x, refl)
  Result-cases (ok v) = inl (v, refl)

  pub ok-injective : {v w : T} → ok v ≡ ok w → v ≡ w
  ok-injective h = cc
