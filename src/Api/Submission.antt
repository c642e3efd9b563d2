-- ===== src/Api/Submission.antt =====
-- A submission: what it stores, and what it starts.
use insurance_claim_ai.Prelude.{
  ◌≡◌, ◌∙◌, ap, inl, inr, String, Option, none, some, [], ◌∷◌, ◌++◌, arith, get, get-put_self,
}
use insurance_claim_ai.Domain.Errors.{Result, ok, Result-cases}
use insurance_claim_ai.Domain.Models.{Claim, ClaimMetadata, received, validate_metadata}
use insurance_claim_ai.Domain.Events.{DomainEvent, claim_received}
use insurance_claim_ai.Projection.{project}
use insurance_claim_ai.EventStore.{EventStore, Stamp, append, find}
use insurance_claim_ai.EventStore.Frame.{append-Appended}
use insurance_claim_ai.ClaimTypes.{ClaimTypeDef, validate_attributes, get_type}
use insurance_claim_ai.Tenancy.{TenantConfig, get_tenant}
use insurance_claim_ai.Customers.{Customer}
use insurance_claim_ai.Api.{
  App, Config, SubmitResponse, stamp_metadata, accept_type, earlier, open_claim, submit,
  received_payload, answer_new,
}

-- The claim type is one of the customer's own tenant, and the attributes pass its schema.
accept_type_lem :
    (cfg : Config) (customer : Customer) (m : ClaimMetadata) (defn : ClaimTypeDef)
    → accept_type cfg customer m ≡ ok defn
    → (tenant : TenantConfig) × (get_tenant cfg.tenants customer.tenant_id ≡ ok tenant)
      × (get_type tenant.registry m.claim_type ≡ ok defn)
      × (validate_attributes defn.attributes m.attributes ≡ [])
unfolding accept_type
accept_type_lem cfg customer m defn h =
    elim (Result-cases (get_tenant cfg.tenants customer.tenant_id)) [
      | inl (tenant, t) ↦ (tenant, t, ground (arith, t), ground (arith, t))
      | inr (e, t) ↦ absurd (ground (arith, t))
    ]

-- A claim opened by a CLAIM_RECEIVED event is RECEIVED, under its metadata.
pub opened_lem :
    (e : DomainEvent) (m : ClaimMetadata) (c : Claim)
    → e.type ≡ claim_received
    → e.payload.metadata ≡ some m
    → project none e ≡ ok c
    → (c.status ≡ received) × (c.metadata ≡ m) × (c.claim_id ≡ e.claim_id)
unfolding project validate_metadata
opened_lem e m c t p h = ground arith

-- A new claim is stored as RECEIVED and its workflow started.
open_new :
    (cfg : Config) (stamp : Stamp) (claim_id : String) (m : ClaimMetadata) (key : Option String)
    (defn : ClaimTypeDef) (app : App) (r : SubmitResponse)
    → find app.store claim_id ≡ none
    → (open_claim cfg stamp claim_id m key defn none app).0 ≡ ok r
    → let t = (open_claim cfg stamp claim_id m key defn none app).1 in
      (c : Claim) × (r ≡ answer_new cfg defn claim_id)
      × (find t.store claim_id ≡ some c)
      × (c.status ≡ received)
      × (c.metadata ≡ m)
      × (t.started ≡ app.started ++ (claim_id, defn.stages) ∷ [])
unfolding open_claim
open_new cfg stamp claim_id m key defn app r fresh done = elim (Result-cases stored.0) [
  | inl (e, accepted) ↦
      let a =
        append-Appended app.store stamp claim_id claim_received (received_payload m) key e stored.1
          (ground (arith, accepted)) in
      let opened =
        opened_lem e m a.claim (ap (λ (x : DomainEvent). x.type) a.event_eq)
          (ap (λ (x : DomainEvent). x.payload.metadata) a.event_eq) (rw (← fresh) a.projected) in
      let there : get stored.1.claims claim_id ≡ some a.claim =
        rw a.claims_eq (get-put_self app.store.claims claim_id a.claim) in
      (
        a.claim,
        ground (arith, accepted),
        ground (arith, accepted, there),
        opened.0,
        opened.1,
        ground (arith, accepted),
      )
  | inr (x, refused) ↦ absurd (ground (arith, refused))
]
  where
    stored : Result DomainEvent × EventStore
    stored = append app.store stamp claim_id claim_received (received_payload m) key

pub stamp_metadata_lem :
    (customer : Customer) (m : ClaimMetadata)
    → ((stamp_metadata customer m).customer_id ≡ customer.customer_id)
      × ((stamp_metadata customer m).tenant_id ≡ customer.tenant_id)
unfolding stamp_metadata
stamp_metadata_lem customer m = ground arith

-- A submission that is no repeat, under a claim id that is not taken, and is answered, has stored a
-- new claim, RECEIVED, owned by the customer and in the customer's tenant whatever the body says,
-- and has started its workflow with the stages of its type, a type of that tenant whose schema the
-- attributes pass.
pub submit_new :
    (cfg : Config) (stamp : Stamp) (claim_id : String) (metadata : ClaimMetadata)
    (key : Option String) (customer : Customer) (app : App) (r : SubmitResponse)
    → find app.store claim_id ≡ none
    → earlier app.store key ≡ none
    → (submit cfg stamp claim_id metadata key customer app).0 ≡ ok r
    → let t = (submit cfg stamp claim_id metadata key customer app).1 in
      let m = stamp_metadata customer metadata in
      (tenant : TenantConfig) × (defn : ClaimTypeDef) × (c : Claim) × (get_tenant cfg.tenants
          customer.tenant_id
        ≡ ok tenant)
      × (get_type tenant.registry m.claim_type ≡ ok defn)
      × (validate_attributes defn.attributes m.attributes ≡ [])
      × (r ≡ answer_new cfg defn claim_id)
      × (find t.store claim_id ≡ some c)
      × (c.status ≡ received)
      × (c.metadata.customer_id ≡ customer.customer_id)
      × (c.metadata.tenant_id ≡ customer.tenant_id)
      × (t.started ≡ app.started ++ (claim_id, defn.stages) ∷ [])
unfolding submit
submit_new cfg stamp claim_id metadata key customer app r fresh new done =
    let m = stamp_metadata customer metadata in
    let owned = stamp_metadata_lem customer metadata in
    elim (Result-cases (accept_type cfg customer m)) [
      | inl (defn, accepted) ↦
          let (tenant, found, typed, valid) = accept_type_lem cfg customer m defn accepted in
          let (c, answer, there, status, meta, started) =
            open_new cfg stamp claim_id m key defn app r fresh (ground (arith, accepted, new)) in
          (
            tenant,
            defn,
            c,
            found,
            typed,
            valid,
            answer,
            rw accepted (rw new there),
            status,
            ap (λ (x : ClaimMetadata). x.customer_id) meta ∙ owned.0,
            ap (λ (x : ClaimMetadata). x.tenant_id) meta ∙ owned.1,
            rw accepted (rw new started),
          )
      | inr (e, refused) ↦ absurd (ground (arith, refused))
    ]
