-- ===== src/Api/Repeat.antt =====
-- The idempotency key: a submission that comes again.
use insurance_claim_ai.Prelude.{
  ◌≡◌, refl, ap, String, true, false, none, some, [], ◌∷◌, ◌++◌, ◌&&◌, ◌||◌, arith, ◌==◌, get,
  get-put_self,
}
use insurance_claim_ai.Domain.Errors.{ok, err, rpc_error, is_ok}
use insurance_claim_ai.Domain.Models.{Claim, ClaimMetadata, received}
use insurance_claim_ai.Domain.Events.{DomainEvent, claim_received}
use insurance_claim_ai.Projection.{project}
use insurance_claim_ai.EventStore.{EventStore, Stamp, append, find, find_by_idempotency_key}
use insurance_claim_ai.EventStore.Frame.{append-Appended}
use insurance_claim_ai.ClaimTypes.{ClaimTypeDef}
use insurance_claim_ai.Customers.{Customer, can}
use insurance_claim_ai.Api.Submission.{opened_lem, stamp_metadata_lem}
use insurance_claim_ai.Api.{
  App, Config, stamp_metadata, accept_type, open_claim, submit, received_payload, answer_earlier,
  answer_new, url_if, visible_claim,
}

submit_repeat :
    (cfg : Config) (stamp : Stamp) (claim_id : String) (metadata : ClaimMetadata) (key : String)
    (customer : Customer) (app : App) (c : Claim) (defn : ClaimTypeDef)
    → (key == "") ≡ false
    → find_by_idempotency_key app.store key ≡ some c
    → accept_type cfg customer (stamp_metadata customer metadata) ≡ ok defn
    → submit cfg stamp claim_id metadata (some key) customer app
      ≡ (ok (answer_earlier cfg defn.stages c), app)
unfolding submit open_claim
submit_repeat cfg stamp claim_id metadata key customer app c defn k there accepted =
    ground (arith, k, there, accepted)

-- The claim that an accepted CLAIM_RECEIVED leaves under its key.
stored_under :
    (s : EventStore) (stamp : Stamp) (claim_id key : String) (m : ClaimMetadata) (e : DomainEvent)
    → (key == "") ≡ false
    → (claim_id == "") ≡ false
    → (append s stamp claim_id claim_received (received_payload m) (some key)).0 ≡ ok e
    → (c : Claim) × (find_by_idempotency_key
          (append s stamp claim_id claim_received (received_payload m) (some key)).1
          key
        ≡ some c)
      × (find (append s stamp claim_id claim_received (received_payload m) (some key)).1 claim_id
          ≡ some c)
      × (project (get s.claims claim_id) e ≡ ok c)
      × (e.type ≡ claim_received)
      × (e.payload.metadata ≡ some m)
      × (e.claim_id ≡ claim_id)
unfolding find_by_idempotency_key
stored_under s stamp claim_id key m e k i done =
    let t = (append s stamp claim_id claim_received (received_payload m) (some key)).1 in
    let a =
      append-Appended s stamp claim_id claim_received (received_payload m) (some key) e t
        (ground (arith, done)) in
    let noted : get t.idem key ≡ some claim_id =
      rw a.idem_eq (rw k (get-put_self s.idem key claim_id)) in
    let there : get t.claims claim_id ≡ some a.claim =
      rw a.claims_eq (get-put_self s.claims claim_id a.claim) in
    (
      a.claim,
      rw noted (rw i there),
      there,
      a.projected,
      ap (λ (x : DomainEvent). x.type) a.event_eq,
      ap (λ (x : DomainEvent). x.payload.metadata) a.event_eq,
      ap (λ (x : DomainEvent). x.claim_id) a.event_eq,
    )

lost :
    (cfg : Config) (stamp : Stamp) (claim_id key : String) (metadata : ClaimMetadata)
    (customer : Customer) (app : App) (defn : ClaimTypeDef) (e : DomainEvent)
    → (key == "") ≡ false
    → find_by_idempotency_key app.store key ≡ none
    → accept_type cfg customer (stamp_metadata customer metadata) ≡ ok defn
    → (append app.store stamp claim_id claim_received
        (received_payload (stamp_metadata customer metadata))
        (some key)).0
      ≡ ok e
    → cfg.starts claim_id ≡ false
    → submit cfg stamp claim_id metadata (some key) customer app ≡ (
      err rpc_error,
      record app {
        store =
            (append app.store stamp claim_id claim_received
              (received_payload (stamp_metadata customer metadata))
              (some key)).1;
      },
    )
unfolding submit open_claim
lost cfg stamp claim_id key metadata customer app defn e k new accepted stored down =
    ground (arith, k, new, accepted, stored, down)

-- For an acceptable submission whose key is new and whose claim is stored: when Temporal does not
-- take the start, it fails; the same submission again is answered as a repeat, with the claim under
-- the key, and no workflow has been started.
pub start_lost :
    (cfg : Config) (stamp again : Stamp) (claim_id other key : String) (metadata : ClaimMetadata)
    (customer : Customer) (app : App) (defn : ClaimTypeDef) (e : DomainEvent)
    → (key == "") ≡ false
    → (claim_id == "") ≡ false
    → find_by_idempotency_key app.store key ≡ none
    → accept_type cfg customer (stamp_metadata customer metadata) ≡ ok defn
    → (append app.store stamp claim_id claim_received
        (received_payload (stamp_metadata customer metadata))
        (some key)).0
      ≡ ok e
    → cfg.starts claim_id ≡ false
    → let (r, t) = submit cfg stamp claim_id metadata (some key) customer app in
      let (r', u) = submit cfg again other metadata (some key) customer t in
      (r ≡ err rpc_error)
      × (c : Claim) × (r' ≡ ok (answer_earlier cfg defn.stages c))
      × (find_by_idempotency_key u.store key ≡ some c)
      × (u.started ≡ app.started)
start_lost cfg stamp again claim_id other key metadata customer app defn e k i new accepted stored
      down =
    let t =
      (append app.store stamp claim_id claim_received
        (received_payload (stamp_metadata customer metadata)) (some key)).1 in
    let first =
      lost cfg stamp claim_id key metadata customer app defn e k new accepted stored down in
    let (c, there, found, opened, type, meta, id) =
      stored_under app.store stamp claim_id key (stamp_metadata customer metadata) e k i stored in
    let second =
      submit_repeat cfg again other metadata key customer (record app { store = t }) c defn k there
        accepted in
    rw first (rw second (refl, c, refl, there, refl))

first_stored :
    (cfg : Config) (stamp : Stamp) (claim_id key : String) (metadata : ClaimMetadata)
    (customer : Customer) (app : App) (defn : ClaimTypeDef) (e : DomainEvent)
    → (key == "") ≡ false
    → find_by_idempotency_key app.store key ≡ none
    → accept_type cfg customer (stamp_metadata customer metadata) ≡ ok defn
    → (append app.store stamp claim_id claim_received
        (received_payload (stamp_metadata customer metadata))
        (some key)).0
      ≡ ok e
    → cfg.starts claim_id ≡ true
    → submit cfg stamp claim_id metadata (some key) customer app ≡ (
      ok (answer_new cfg defn claim_id),
      record app {
        store =
            (append app.store stamp claim_id claim_received
              (received_payload (stamp_metadata customer metadata))
              (some key)).1;
        started = app.started ++ (claim_id, defn.stages) ∷ [];
      },
    )
unfolding submit open_claim
first_stored cfg stamp claim_id key metadata customer app defn e k new accepted stored up =
    ground (arith, k, new, accepted, stored, up)

visible_lem :
    (s : EventStore) (customer : Customer) (claim_id : String) (c : Claim)
    → find s claim_id ≡ some c
    → is_ok (visible_claim s customer claim_id) ≡ (
        (can customer "submit" && c.metadata.customer_id == customer.customer_id)
        || (can customer "review" && c.metadata.tenant_id == customer.tenant_id))
unfolding visible_claim
visible_lem s customer claim_id c there = ground (arith, there)

-- For an acceptable submission of one customer under a new key and a new claim id, whose claim is
-- stored and whose workflow starts, and an acceptable submission of any customer under the same key:
-- the second is answered with the claim id, the status and the claim type of the first customer's
-- claim, and stores and starts nothing; this also where the second customer is answered with an error
-- when they ask for the claim, that is, where they are neither its owner, with the submit role, nor a
-- reviewer of its tenant.
pub submit_shared :
    (cfg : Config) (stamp again : Stamp) (claim_id other key : String)
    (metadata second : ClaimMetadata) (customer stranger : Customer) (app : App)
    (defn defn' : ClaimTypeDef) (e : DomainEvent)
    → (key == "") ≡ false
    → (claim_id == "") ≡ false
    → find app.store claim_id ≡ none
    → find_by_idempotency_key app.store key ≡ none
    → accept_type cfg customer (stamp_metadata customer metadata) ≡ ok defn
    → accept_type cfg stranger (stamp_metadata stranger second) ≡ ok defn'
    → (append app.store stamp claim_id claim_received
        (received_payload (stamp_metadata customer metadata))
        (some key)).0
      ≡ ok e
    → cfg.starts claim_id ≡ true
    → let (r, t) = submit cfg stamp claim_id metadata (some key) customer app in
      let (r', u) = submit cfg again other second (some key) stranger t in
      (r ≡ ok (answer_new cfg defn claim_id))
      × (r'
          ≡ ok (record {
            claim_id = claim_id;
            status = received;
            claim_type = (stamp_metadata customer metadata).claim_type;
            stages = defn'.stages;
            upload_url = url_if cfg defn'.stages claim_id;
            idempotent = true;
          }))
      × (u ≡ t)
      × (t.started ≡ app.started ++ (claim_id, defn.stages) ∷ [])
      × (is_ok (visible_claim u.store stranger claim_id) ≡ (
          (can stranger "submit" && customer.customer_id == stranger.customer_id)
          || (can stranger "review" && customer.tenant_id == stranger.tenant_id)))
submit_shared cfg stamp again claim_id other key metadata second customer stranger app defn defn' e
      k i fresh new accepted accepted' stored up =
    let m = stamp_metadata customer metadata in
    let t = (append app.store stamp claim_id claim_received (received_payload m) (some key)).1 in
    let (c, there, found, opened, type, meta, id) =
      stored_under app.store stamp claim_id key m e k i stored in
    let (status, same, id') = opened_lem e m c type meta (rw (← fresh) opened) in
    let owned = stamp_metadata_lem customer metadata in
    let answered =
      submit_repeat cfg again other second key stranger
        (record app { store = t; started = app.started ++ (claim_id, defn.stages) ∷ [] }) c defn' k
        there accepted' in
    rw (first_stored cfg stamp claim_id key metadata customer app defn e k new accepted stored up) (
      rw answered (
        refl,
        rw (id', id, status, same) refl,
        refl,
        refl,
        rw (visible_lem t stranger claim_id c found) (rw (same, owned.0, owned.1) refl),
      ))
