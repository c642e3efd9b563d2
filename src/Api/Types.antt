-- ===== src/Api/Types.antt =====
-- claimpipe/api/app.py, GET /claim-types, with ClaimTypeRegistry.names.
use insurance_claim_ai.Prelude.{
  ◌≡◌, inl, inr, refl, sym, ◌∙◌, String, Bool, true, ◌||◌, Option, List, [], ◌∷◌, arith, any,
  if◌then◌else◌, ◌==◌, eq_refl, get, has, Option-cases,
}
use insurance_claim_ai.Domain.Errors.{Result, ok, ◌>>=◌, >>=-eq-ok, ok-injective}
use insurance_claim_ai.ClaimTypes.{ClaimTypeDef, Registry, get_type}
use insurance_claim_ai.ClaimTypes.Registry.{IsSound}
use insurance_claim_ai.Customers.{Customer}
use insurance_claim_ai.Tenancy.{TenantConfig}
use insurance_claim_ai.Api.{Config, require_customer, tenant_of}
use text.Mathlib.Text.{is_le}
use Prim.Native.String as Text

-- `sorted`, by code points.
abbrev insert_name : String → List String → List String
insert_name name [] = name ∷ []
insert_name name (other ∷ names) =
    let later = insert_name name names in
    if is_le (Text.compare name other) then name ∷ other ∷ names else other ∷ later

abbrev pub names : Registry → List String
names [] = []
names ((name, defn) ∷ reg) = insert_name name (names reg)

abbrev pub get_types : Registry → List String → Result (List ClaimTypeDef)
get_types reg [] = ok []
get_types reg (name ∷ others) = do
  defn ← get_type reg name
  defns ← get_types reg others
  ok (defn ∷ defns)

-- GET /claim-types: the tenant's name and its claim types.
unfoldable pub list_claim_types : Config → Option String → Result (String × List ClaimTypeDef)
list_claim_types cfg api_key = do
  customer ← require_customer cfg api_key
  tenant ← tenant_of cfg customer.tenant_id
  defns ← get_types tenant.registry (names tenant.registry)
  ok (customer.tenant_id, defns)

abbrev named : String → List String → Bool
named k ids = any (λ n. n == k) ids

insert_name-named :
    (k name : String) (ids : List String)
    → named k (insert_name name ids) ≡ (name == k || named k ids)
insert_name-named k name [] = refl
insert_name-named k name (other ∷ ids) = ground (arith, insert_name-named k name ids)

names-has : (reg : Registry) (k : String) → named k (names reg) ≡ has reg k
unfolding get
names-has [] k = refl
names-has ((name, defn) ∷ reg) k =
    ground (arith, insert_name-named k name (names reg), names-has reg k)

get_type-name :
    (reg : Registry) (name : String) (defn : ClaimTypeDef)
    → IsSound reg
    → get_type reg name ≡ ok defn
    → defn.name ≡ name
unfolding get_type
get_type-name reg name defn s h = (s.sound name defn (ground arith)).1

get_types-named :
    (reg : Registry) (ids : List String) (defns : List ClaimTypeDef) (k : String)
    → IsSound reg
    → get_types reg ids ≡ ok defns
    → any (λ (d : ClaimTypeDef). d.name == k) defns ≡ named k ids
get_types-named reg [] defns k s h = rw (← ok-injective h) refl
get_types-named reg (name ∷ ids) defns k s h =
    let (defn, found, rest) =
      >>=-eq-ok (get_type reg name) (λ d. do ds ← get_types reg ids; ok (d ∷ ds)) h in
    let (others, listed, done) = >>=-eq-ok (get_types reg ids) (λ ds. ok (defn ∷ ds)) rest in
    rw
      (
        ← ok-injective done,
        get_type-name reg name defn s found,
        get_types-named reg ids others k s listed,
      )
      refl

get_types-is_ok :
    (reg : Registry) (ids : List String)
    → ((k : String) → named k ids ≡ true → has reg k ≡ true)
    → (defns : List ClaimTypeDef) × (get_types reg ids ≡ ok defns)
unfolding get_type
get_types-is_ok reg [] there = ([], refl)
get_types-is_ok reg (name ∷ ids) there =
    let (others, listed) = get_types-is_ok reg ids (λ k h. there k (ground (arith, h))) in
    elim (Option-cases (get reg name)) [
      | inl missing ↦ absurd (ground (arith, missing, there name, eq_refl name))
      | inr (defn, found) ↦ (defn ∷ others, rw (found, listed) refl)
    ]

-- A customer of a known tenant gets definitions of just the names that are registered with the tenant.
pub list_claim_types_lem :
    (cfg : Config) (api_key : Option String) (customer : Customer) (tenant : TenantConfig)
    → require_customer cfg api_key ≡ ok customer
    → tenant_of cfg customer.tenant_id ≡ ok tenant
    → IsSound tenant.registry
    → (defns : List ClaimTypeDef) × (list_claim_types cfg api_key ≡ ok (customer.tenant_id, defns))
      × ((k : String) → any (λ (d : ClaimTypeDef). d.name == k) defns ≡ has tenant.registry k)
unfolding list_claim_types
list_claim_types_lem cfg api_key customer tenant known found sound =
    let reg = tenant.registry in
    let (defns, listed) = get_types-is_ok reg (names reg) (λ k h. sym (names-has reg k) ∙ h) in
    (
      defns,
      rw (known, found, listed) refl,
      λ k. get_types-named reg (names reg) defns k sound listed ∙ names-has reg k,
    )
