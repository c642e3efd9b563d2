-- ===== src/Api/Access.antt =====
-- Who sees what.
use insurance_claim_ai.Prelude.{
  ◌≡◌, ◌↔◌, ◌⊎◌, inl, inr, String, true, some, arith, eq_iff, Option-cases,
}
use insurance_claim_ai.Domain.Errors.{ok, err, not_found, is_ok}
use insurance_claim_ai.Domain.Models.{Claim}
use insurance_claim_ai.EventStore.{EventStore, find}
use insurance_claim_ai.Customers.{Customer, can}
use insurance_claim_ai.Api.{visible_claim}

-- A submitter sees the claims of their own, a reviewer those of their tenant, and nobody any other.
abbrev pub MaySee : Customer → Claim → Type 0
MaySee customer c =
    ((can customer "submit" ≡ true) × (c.metadata.customer_id ≡ customer.customer_id))
    ⊎ ((can customer "review" ≡ true) × (c.metadata.tenant_id ≡ customer.tenant_id))

-- A claim is answered with exactly if it is there and its owner asks, with the submit role, or a
-- reviewer of its tenant; every other request is answered with 404, whether the claim is there or
-- not.
pub visible_claim_iff :
    (s : EventStore) (customer : Customer) (claim_id : String) (c : Claim)
    → ((visible_claim s customer claim_id ≡ ok c)
        ↔ ((find s claim_id ≡ some c) × MaySee customer c))
      × ((is_ok (visible_claim s customer claim_id) ≡ true)
          ⊎ (visible_claim s customer claim_id ≡ err not_found))
unfolding visible_claim
visible_claim_iff s customer claim_id c = elim (Option-cases (find s claim_id)) [
  | inl nowhere ↦ ground (arith, nowhere)
  | inr (d, there) ↦ ground (
    arith,
    there,
    eq_iff d.metadata.customer_id customer.customer_id,
    eq_iff d.metadata.tenant_id customer.tenant_id,
    eq_iff c.metadata.customer_id customer.customer_id,
    eq_iff c.metadata.tenant_id customer.tenant_id,
  )
]
