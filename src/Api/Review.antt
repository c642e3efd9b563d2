-- ===== src/Api/Review.antt =====
-- The reviewer's verdict and the uploaded document: when a signal is sent.
use insurance_claim_ai.Prelude.{
  if◌then◌else◌, ◌≡◌, ◌↔◌, String, true, Option, none, some, [], ◌∷◌, ◌++◌, arith, eq_iff,
}
use insurance_claim_ai.Domain.Errors.{ok, guard, ◌>>◌, unprocessable, not_found, conflict, is_ok}
use insurance_claim_ai.Domain.Models.{Claim}
use insurance_claim_ai.EventStore.{find}
use insurance_claim_ai.Temporal.Workflow.{review_signal}
use insurance_claim_ai.Customers.{Customer}
use insurance_claim_ai.Api.Access.{MaySee}
use insurance_claim_ai.Api.{App, Config, require_role, visible_claim, on_ok, may_see}
use insurance_claim_ai.Api.Endpoints.{
  submit_review, ReviewRequest, is_verdict, is_pended, verdict_of, send_signal,
}

-- The handler behind its two lookups.
review_found :
    (cfg : Config) (api_key : Option String) (claim_id : String) (req : ReviewRequest) (app : App)
    (customer : Customer) (c : Claim)
    → require_role cfg "review" api_key ≡ ok customer
    → find app.store claim_id ≡ some c
    → submit_review cfg api_key claim_id req app
      ≡ on_ok
          (do
            guard (is_verdict req) unprocessable
            guard (may_see customer c) not_found
            guard (is_pended c.decision) conflict
            ok c)
          app
          (λ d. send_signal cfg d.claim_id (review_signal (verdict_of req)) app)
unfolding submit_review visible_claim
review_found cfg api_key claim_id req app customer c role there = rw role (rw there (ground arith))

may_see_iff : (customer : Customer) (c : Claim) → (may_see customer c ≡ true) ↔ MaySee customer c
may_see_iff customer c = ground (
  arith,
  eq_iff c.metadata.customer_id customer.customer_id,
  eq_iff c.metadata.tenant_id customer.tenant_id,
)

is_pended_iff : (d : Option String) → (is_pended d ≡ true) ↔ (d ≡ some "PEND")
is_pended_iff none = ground arith
is_pended_iff (some d) = ground (arith, eq_iff d "PEND")

-- The verdict of a reviewer on a claim that is there is sent exactly if it approves or denies under
-- a name, the claim is one that the reviewer sees and its decision is PEND, and Temporal takes it,
-- whatever the claim's status; otherwise nothing changes.
pub submit_review_lem :
    (cfg : Config) (api_key : Option String) (claim_id : String) (req : ReviewRequest) (app : App)
    (customer : Customer) (c : Claim)
    → require_role cfg "review" api_key ≡ ok customer
    → find app.store claim_id ≡ some c
    → let (r, t) = submit_review cfg api_key claim_id req app in
      ((is_ok r ≡ true) ↔ (
        (is_verdict req ≡ true)
        × MaySee customer c
        × (c.decision ≡ some "PEND")
        × (cfg.takes_signal c.claim_id ≡ true)))
      × (t ≡ (
          if is_ok r
          then record app {
            signals = app.signals ++ (c.claim_id, review_signal (verdict_of req)) ∷ [];
          }
          else app))
submit_review_lem cfg api_key claim_id req app customer c role there =
    rw (review_found cfg api_key claim_id req app customer c role there)
      (ground (arith, may_see_iff customer c, is_pended_iff c.decision))
