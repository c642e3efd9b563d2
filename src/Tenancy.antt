-- ===== src/Tenancy.antt =====
-- claimpipe/tenancy.py: each tenant's claim types and rule sets.
use insurance_claim_ai.Prelude.{
  ◌≡◌, inl, inr, refl, String, true, some, arith, if◌then◌else◌, eq_iff, Dict, get, put, has,
  get-put, get-put_self, Option-cases,
}
use insurance_claim_ai.Domain.Errors.{Result, ok, unknown_tenant, is_ok, require}
use insurance_claim_ai.ClaimTypes.{Registry}
use insurance_claim_ai.Adjudication.{RuleSet}
use insurance_claim_ai.Adjudication.Rulesets.{default_rulesets}

pub record TenantConfig : Type 0 where
  pub name : String
  pub registry : Registry
  pub rulesets : Dict RuleSet

abbrev pub Directory : Type 0
Directory = Dict TenantConfig

-- TenantDirectory.__init__ puts a default tenant where there is none; `seed` is the registry that
-- default_registry builds.
unfoldable pub directory : Registry → Directory → Directory
unfolding default_rulesets
directory seed tenants =
    if has tenants "default"
    then tenants
    else put tenants "default"
        (record { name = "default"; registry = seed; rulesets = default_rulesets })

unfoldable pub get_tenant : Directory → String → Result TenantConfig
get_tenant tenants name = require (get tenants name) unknown_tenant

-- Whatever the configuration, the default tenant is there, and a configured tenant is as configured.
pub directory_lem :
    (seed : Registry) (tenants : Directory)
    → (is_ok (get_tenant (directory seed tenants) "default") ≡ true)
      × ((name : String) (t : TenantConfig)
          → get tenants name ≡ some t
          → get_tenant (directory seed tenants) name ≡ ok t)
unfolding directory get_tenant
directory_lem seed tenants = elim (Option-cases (get tenants "default")) [
  | inl fresh ↦ (
    rw fresh (rw get-put_self refl),
    λ name t found. rw fresh (rw get-put (ground (arith, eq_iff "default" name))),
  )
  | inr (d, there) ↦ (rw there (rw there refl), λ name t found. rw there (rw found refl))
]
