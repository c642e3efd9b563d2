-- ===== src/Notifier/Outcome.antt =====
-- The event that a notification leaves.
use insurance_claim_ai.Prelude.{
  Bool-cases, inr, ◌≡◌, ◌⊎◌, inl, refl, sym, ap, ◌∙◌, String, Bool, true, false, none, some, ◌++◌,
  arith, length, get,
}
use insurance_claim_ai.Domain.Errors.{Result, ok, err, illegal_transition}
use insurance_claim_ai.Domain.Models.{Claim, ClaimStatus, persisted, notified}
use insurance_claim_ai.Domain.Events.{DomainEvent, EventType, claim_notified}
use insurance_claim_ai.EventStore.{EventStore, Stamp, append, log_of}
use mathlib.Core.Path.{subst}
use insurance_claim_ai.EventStore.Frame.{append-Appended}
use insurance_claim_ai.Prelude.{[], ◌∷◌, or_else, get-put_self}
use insurance_claim_ai.Projection.{project, event_status, allowed}
use insurance_claim_ai.Notifier.{
  Desk, Service, deliver, request_of, outcome_payload, answer, report, notify,
}
use insurance_claim_ai.EventStore.Status.{HasStatus, append-HasStatus}
use insurance_claim_ai.Notifier.Delivery.{copies, first_taken, deliver_lem}

-- Where a notification leaves the claim.
abbrev pub outcome_status : Bool → ClaimStatus
outcome_status true = notified
outcome_status false = ClaimStatus.notify_failed

answered : {e : DomainEvent} {r : Result DomainEvent} (b : Bool) → r ≡ ok e → answer b r ≡ ok b
answered b h = rw h refl

-- A report for a claim that is persisted, or whose notification failed before, is stored: the claim
-- is NOTIFIED or NOTIFY_FAILED as the delivery went, and the caller hears it.
pub report_lem :
    (stamp : Stamp) (claim_id i : String) (delivered : Bool) (d : Desk) (c : Claim)
    → get d.store.claims claim_id ≡ some c
    → (c.status ≡ persisted) ⊎ (c.status ≡ ClaimStatus.notify_failed)
    → let (r, t) = report stamp claim_id i delivered d in
      (r ≡ ok delivered)
      × HasStatus t.store claim_id (outcome_status delivered)
      × (t.posted ≡ d.posted)
unfolding report allowed event_status
report_lem stamp claim_id i true d c there at =
    let (e, done, status) =
      append-HasStatus d.store stamp claim_id claim_notified (outcome_payload true i) none c
        (λ p. cc) tt tt there (ground arith) in
    (answered true done, status, refl)
report_lem stamp claim_id i false d c there at =
    let (e, done, status) =
      append-HasStatus d.store stamp claim_id EventType.notify_failed (outcome_payload false i) none
        c (λ p. cc) tt tt there (ground arith) in
    (answered false done, status, refl)

pub notify-report :
    (sv : Service) (stamp : Stamp) (claim_id i : String) (d : Desk) (c : Claim)
    → get d.store.claims claim_id ≡ some c
    → let (delivered, d') = deliver sv (request_of sv d.store c i) sv.max_attempts 1 d in
      notify sv stamp claim_id i d ≡ report stamp claim_id i delivered d'
unfolding notify
notify-report sv stamp claim_id i d c there = rw there refl

-- For a claim that is PERSISTED or NOTIFY_FAILED the one signed request is posted until it is taken,
-- within the attempts that are allowed; then the claim is NOTIFIED and the answer true, or, with none
-- taken, NOTIFY_FAILED and false.
pub notify_lem :
    (sv : Service) (stamp : Stamp) (claim_id i : String) (d : Desk) (c : Claim)
    → get d.store.claims claim_id ≡ some c
    → (c.status ≡ persisted) ⊎ (c.status ≡ ClaimStatus.notify_failed)
    → let q = request_of sv d.store c i in
      let (k, taken) = first_taken sv.takes q (length d.posted) sv.max_attempts in
      let (r, t) = notify sv stamp claim_id i d in
      (r ≡ ok taken)
      × HasStatus t.store claim_id (outcome_status taken)
      × (t.posted ≡ d.posted ++ copies k q)
notify_lem sv stamp claim_id i d c there at =
    let q = request_of sv d.store c i in
    let (took, posted, kept) = deliver_lem sv q sv.max_attempts 1 d in
    let (delivered, d') = deliver sv q sv.max_attempts 1 d in
    let (r, status, same) = report_lem stamp claim_id i delivered d' c (rw kept there) at in
    rw (notify-report sv stamp claim_id i d c there)
      (r ∙ ap (λ (b : Bool). ok b) took, rw (← took) status, same ∙ posted)

report_refused :
    (stamp : Stamp) (claim_id i : String) (d : Desk) (c : Claim)
    → get d.store.claims claim_id ≡ some c
    → c.status ≡ notified
    → let (r, t) = report stamp claim_id i false d in
      (r ≡ err illegal_transition) × (t.store ≡ d.store)
unfolding report append project allowed event_status
report_refused stamp claim_id i d c there at = ground (arith, there, at)

-- The log of the claim has one event more, which says that it was notified, under the idempotency id.
abbrev pub IsReported : EventStore → EventStore → String → String → Type 0
IsReported s t claim_id i =
    (e : DomainEvent) × (log_of t claim_id ≡ log_of s claim_id ++ e ∷ [])
    × (e.type ≡ claim_notified)
    × (e.payload.idempotency_id ≡ some i)

IsReported-from :
    (s s' t : EventStore) (claim_id i : String)
    → s ≡ s'
    → IsReported s t claim_id i
    → IsReported s' t claim_id i
IsReported-from s s' t claim_id i same h = subst (λ x. IsReported x t claim_id i) same h

report_repeated :
    (stamp : Stamp) (claim_id i : String) (d : Desk) (c : Claim)
    → get d.store.claims claim_id ≡ some c
    → c.status ≡ notified
    → let (r, t) = report stamp claim_id i true d in
      (r ≡ ok true) × HasStatus t.store claim_id notified × IsReported d.store t.store claim_id i
unfolding report event_status
report_repeated stamp claim_id i d c there at =
    let (e, done, status) =
      append-HasStatus d.store stamp claim_id claim_notified (outcome_payload true i) none c
        (λ p. cc) tt tt there (inl (sym at)) in
    let t = (append d.store stamp claim_id claim_notified (outcome_payload true i) none).1 in
    let a =
      append-Appended d.store stamp claim_id claim_notified (outcome_payload true i) none e t
        (ground (arith, done)) in
    (
      answered true done,
      status,
      (
        e,
        ap (λ d. or_else (get d claim_id) []) a.events_eq
            ∙ ap (λ o. or_else o [])
                (get-put_self d.store.events claim_id (log_of d.store claim_id ++ e ∷ [])),
        ap (λ (x : DomainEvent). x.type) a.event_eq,
        ap (λ (x : DomainEvent). x.payload.idempotency_id) a.event_eq,
      ),
    )

-- The event comes again when the claim is NOTIFIED: a request that is taken is reported a second time,
-- by another CLAIM_NOTIFIED in the claim's log; if none is, the call raises IllegalTransition, with the
-- store as it was.
pub notify_again :
    (sv : Service) (stamp : Stamp) (claim_id i : String) (d : Desk) (c : Claim)
    → get d.store.claims claim_id ≡ some c
    → c.status ≡ notified
    → let q = request_of sv d.store c i in
      let taken = (first_taken sv.takes q (length d.posted) sv.max_attempts).1 in
      let (r, t) = notify sv stamp claim_id i d in
      ((taken ≡ true)
        × (r ≡ ok true)
        × HasStatus t.store claim_id notified
        × IsReported d.store t.store claim_id i)
      ⊎ ((taken ≡ false) × (r ≡ err illegal_transition) × (t.store ≡ d.store))
notify_again sv stamp claim_id i d c there at =
    let q = request_of sv d.store c i in
    let (took, posted, kept) = deliver_lem sv q sv.max_attempts 1 d in
    let d' = (deliver sv q sv.max_attempts 1 d).1 in
    let (r, same) = report_refused stamp claim_id i d' c (rw kept there) at in
    rw (notify-report sv stamp claim_id i d c there) (
      rw took (elim (Bool-cases (first_taken sv.takes q (length d.posted) sv.max_attempts).1) [
        | inl reached ↦
            let (told, status, logged) = report_repeated stamp claim_id i d' c (rw kept there) at in
            inl (
              reached,
              rw reached told,
              rw reached status,
              rw reached (
                  IsReported-from d'.store d.store (report stamp claim_id i true d').1.store
                    claim_id i kept logged),
            )
        | inr missed ↦ inr (missed, rw missed r, rw missed (same ∙ kept))
      ]))
