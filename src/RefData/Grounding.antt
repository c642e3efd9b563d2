-- ===== src/RefData/Grounding.antt =====
-- What the enriched facts say of a policy, whatever the claimant wrote.
use insurance_claim_ai.Prelude.{
  ◌≡◌, ◌≢◌, refl, ◌∙◌, String, true, false, Option, none, some, arith, if◌then◌else◌, ◌==◌, eq_iff,
  Dict, get, put, get-put, get-put_self,
}
use insurance_claim_ai.Value.{Value, Float, bool, float, str}
use insurance_claim_ai.RefData.{
  PolicyRecord, Policies, add_policy, get_policy, enrich_facts, with_policy, add_limit,
}

-- One more fact of another name does not show.
get-add_limit :
    (limit : Option Float) (facts : Dict Value) (k : String)
    → ("policy_limit" == k) ≡ false
    → get (add_limit limit facts) k ≡ get facts k
get-add_limit none facts k h = refl
get-add_limit (some x) facts k h = rw (get-put, h)

get-with_known :
    (r : PolicyRecord) (facts : Dict Value) (k : String)
    → ("policy_limit" == k) ≡ false
    → get (with_policy (some r) facts) k ≡ (
        if "policy_status" == k
        then some (str r.status)
        else if "policy_found" == k
        then some (bool true)
        else get facts k)
unfolding with_policy
get-with_known r facts k h =
    get-add_limit r.limit
      (put (put facts "policy_found" (bool true)) "policy_status" (str r.status)) k h
    ∙ simp get-put

limit-with_known :
    (r : PolicyRecord) (facts : Dict Value) (x : Float)
    → r.limit ≡ some x
    → get (with_policy (some r) facts) "policy_limit" ≡ some (float x)
unfolding with_policy
limit-with_known r facts x h = ground (
  arith,
  h,
  get-put_self (put (put facts "policy_found" (bool true)) "policy_status" (str r.status))
      "policy_limit" (float x),
)

module _ (show : Value → String) (source : String → Option PolicyRecord) (facts : Dict Value)
    (number : String) where
  -- For a policy that is known, the facts have `policy_found` and the carrier's status and limit,
  -- also where the claimant sent facts of those names; all other facts are as submitted.
  pub enrich-known :
      (r : PolicyRecord)
      → get facts "policy_number" ≡ some (str number)
      → source number ≡ some r
      → let t = enrich_facts show (some source) facts in
        (get t "policy_found" ≡ some (bool true))
        × (get t "policy_status" ≡ some (str r.status))
        × ((x : Float) → r.limit ≡ some x → get t "policy_limit" ≡ some (float x))
        × ((k : String)
            → (k ≢ "policy_found")
            → (k ≢ "policy_status")
            → (k ≢ "policy_limit")
            → get t k ≡ get facts k)
  unfolding enrich_facts
  enrich-known r hn hs =
      rw (hn, hs)
        (
          get-with_known r facts "policy_found" refl,
          get-with_known r facts "policy_status" refl,
          limit-with_known r facts,
          λ k not_found not_status not_limit. ground (
            arith,
            get-with_known r facts k,
            eq_iff "policy_limit" k,
            eq_iff "policy_status" k,
            eq_iff "policy_found" k,
          ),
        )

  -- For a policy that is not known the facts say so, and keep all else, a status that the claimant
  -- sent included.
  pub enrich-unknown :
      get facts "policy_number" ≡ some (str number)
      → source number ≡ none
      → (k : String)
      → get (enrich_facts show (some source) facts) k
        ≡ (if "policy_found" == k then some (bool false) else get facts k)
  unfolding enrich_facts with_policy
  enrich-unknown hn hs k = ground (arith, get-put facts "policy_found" k (bool false))

-- A policy that was added is found under its number, and the others as before.
pub get_policy-add :
    (policies : Policies) (r : PolicyRecord) (number : String)
    → get_policy (add_policy policies r) number
      ≡ (if r.policy_number == number then some r else get_policy policies number)
unfolding get_policy add_policy
get_policy-add policies r number = get-put policies r.policy_number number r
