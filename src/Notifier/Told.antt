-- ===== src/Notifier/Told.antt =====
-- A notification of one claim, beside the other claims of the store.
use insurance_claim_ai.Prelude.{
  ◌≡◌, ◌≢◌, ◌⊎◌, inl, inr, ap, ◌∙◌, String, Bool, true, false, none, some, List, ◌∷◌, arith, get,
  get-put_ne, ◌==◌, eq_iff, Bool-cases,
}
use insurance_claim_ai.Domain.Errors.{Result, ok, Result-cases}
use insurance_claim_ai.Domain.Models.{Claim, ClaimStatus, persisted, notified}
use insurance_claim_ai.Domain.Events.{DomainEvent, EventType, Payload}
use insurance_claim_ai.EventStore.{EventStore, Stamp, append}
use insurance_claim_ai.EventStore.Frame.{IsWritable, append-Appended, append-err}
use insurance_claim_ai.EventStore.Status.{HasStatus}
use insurance_claim_ai.EventStore.Listing.{listed}
use insurance_claim_ai.Notifier.{
  Desk, Service, deliver, request_of, report, notify, outcome_type, outcome_payload,
}
use insurance_claim_ai.Notifier.Delivery.{deliver_lem}
use insurance_claim_ai.Notifier.Outcome.{notify-report, report_lem, outcome_status}

-- An event of one claim leaves the others as they are.
append-others :
    (s : EventStore) (stamp : Stamp) (claim_id k : String) (type : EventType) (payload : Payload)
    → IsWritable type payload
    → claim_id ≢ k
    → get (append s stamp claim_id type payload none).1.claims k ≡ get s.claims k
append-others s stamp claim_id k type payload w other = elim (Result-cases r.0) [
  | inl (e, stored) ↦
      let a = append-Appended s stamp claim_id type payload none e r.1 (ground (arith, stored)) in
      ap (λ d. get d k) a.claims_eq ∙ get-put_ne s.claims claim_id k a.claim other
  | inr (x, refused) ↦
      ap (λ (t : EventStore). get t.claims k)
        (append-err s stamp claim_id type payload none x r.1 w (ground (arith, refused))).0
]
  where
    r : Result DomainEvent × EventStore
    r = append s stamp claim_id type payload none

report-others :
    (stamp : Stamp) (claim_id k i : String) (delivered : Bool) (d : Desk)
    → claim_id ≢ k
    → get (report stamp claim_id i delivered d).1.store.claims k ≡ get d.store.claims k
unfolding report
report-others stamp claim_id k i true d other =
    append-others d.store stamp claim_id k (outcome_type true) (outcome_payload true i) tt other
report-others stamp claim_id k i false d other =
    append-others d.store stamp claim_id k (outcome_type false) (outcome_payload false i) tt other

-- A notification of the claim answers how it went; the claim's status says the same, and the other
-- claims are as they were.
abbrev pub Told : String → Desk → Bool → Result Bool × Desk → Type 0
Told claim_id d taken (r, t) =
    (r ≡ ok taken)
    × HasStatus t.store claim_id (outcome_status taken)
    × ((k : String) → claim_id ≢ k → get t.store.claims k ≡ get d.store.claims k)

pub notify-Told :
    (sv : Service) (stamp : Stamp) (claim_id i : String) (d : Desk)
    → HasStatus d.store claim_id persisted ⊎ HasStatus d.store claim_id ClaimStatus.notify_failed
    → (taken : Bool) × Told claim_id d taken (notify sv stamp claim_id i d)
notify-Told sv stamp claim_id i d at =
    let (c, there, status) = standing at in
    let q = request_of sv d.store c i in
    let (took, posted, kept) = deliver_lem sv q sv.max_attempts 1 d in
    let (delivered, d') = deliver sv q sv.max_attempts 1 d in
    let (r, status', same) = report_lem stamp claim_id i delivered d' c (rw kept there) status in
    (
      delivered,
      rw (notify-report sv stamp claim_id i d c there) (
        r,
        status',
        λ k other.
            report-others stamp claim_id k i delivered d' other
            ∙ ap (λ (x : EventStore). get x.claims k) kept,
      ),
    )
  where
    standing :
        HasStatus d.store claim_id persisted ⊎ HasStatus d.store claim_id ClaimStatus.notify_failed
        → (c : Claim) × (get d.store.claims claim_id ≡ some c)
          × ((c.status ≡ persisted) ⊎ (c.status ≡ ClaimStatus.notify_failed))
    standing (inl (c, there, p)) = (c, there, inl p)
    standing (inr (c, there, p)) = (c, there, inr p)

abbrev pub AreTold : EventStore → List String → Type 0
AreTold s ids =
    (k : String)
    → listed k ids ≡ true
    → HasStatus s k notified ⊎ HasStatus s k ClaimStatus.notify_failed

pub HasStatus-others :
    (s t : EventStore) (k : String) (status : ClaimStatus)
    → get t.claims k ≡ get s.claims k
    → HasStatus s k status
    → HasStatus t k status
HasStatus-others s t k status same (c, there, at) = (c, same ∙ there, at)

pub told :
    (s : EventStore) (k : String) (taken : Bool)
    → HasStatus s k (outcome_status taken)
    → HasStatus s k notified ⊎ HasStatus s k ClaimStatus.notify_failed
told s k true h = inl h
told s k false h = inr h

pub listed-ne :
    (j k : String) (ids : List String) → listed j ids ≡ false → listed k ids ≡ true → j ≢ k
listed-ne j k ids h there same = absurd (cc)

-- Once the first claim is told, and the others after it, all are, and what is not among them is as
-- it was at first.
pub told_first :
    (claim_id : String) (ids : List String) (d d' : Desk) (final : EventStore) (taken : Bool)
    → HasStatus d'.store claim_id (outcome_status taken)
    → ((k : String) → claim_id ≢ k → get d'.store.claims k ≡ get d.store.claims k)
    → listed claim_id ids ≡ false
    → AreTold final ids
    → ((k : String) → listed k ids ≡ false → get final.claims k ≡ get d'.store.claims k)
    → AreTold final (claim_id ∷ ids)
      × ((k : String)
          → listed k (claim_id ∷ ids) ≡ false
          → get final.claims k ≡ get d.store.claims k)
told_first claim_id ids d d' final taken status others fresh all_told same =
    let head : HasStatus final claim_id (outcome_status taken) =
      HasStatus-others d'.store final claim_id (outcome_status taken) (same claim_id fresh)
        status in
    (
      λ k there. elim (Bool-cases (claim_id == k)) [
        | inl same_id ↦ rw (← (eq_iff claim_id k).0 same_id) (told final claim_id taken head)
        | inr other ↦ all_told k (ground (arith, there, other))
      ],
      λ k other.
          same k (ground (arith, other)) ∙ others k (ground (arith, other, eq_iff claim_id k)),
    )
