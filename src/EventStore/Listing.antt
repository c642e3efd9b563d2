-- ===== src/EventStore/Listing.antt =====
-- list_by_status: each claim that is at the status, once.
use insurance_claim_ai.Prelude.{
  ◌≡◌, ◌↔◌, inl, inr, refl, String, Bool, true, false, Option, none, some, List, [], ◌∷◌, arith,
  any, ◌==◌, eq_iff, Dict, get, put, get-put, is_yes, Bool-cases, Option-cases,
}
use insurance_claim_ai.Domain.Errors.{Result, Result-cases}
use insurance_claim_ai.Domain.Models.{Claim, ClaimStatus, ClaimStatus-discrete}
use insurance_claim_ai.Domain.Events.{DomainEvent, EventType, Payload}
use insurance_claim_ai.EventStore.{
  EventStore, Stamp, append, mark_published, list_by_status, keys_with,
}
use insurance_claim_ai.EventStore.Frame.{IsWritable, append-Appended, append-err}
use insurance_claim_ai.EventStore.Reachable.{Reachable, start, append_step, relayed}
use insurance_claim_ai.EventStore.Status.{HasStatus}

-- No key stands twice.
abbrev pub HasKeysOnce {ℓ} : {V : Type ℓ} → Dict V → Type ℓ
HasKeysOnce [] = Unit
HasKeysOnce ((k, v) ∷ d) = (get d k ≡ none) × HasKeysOnce d

abbrev pub listed : String → List String → Bool
listed k ids = any (λ j. j == k) ids

abbrev pub AreDistinct : List String → Type 0
AreDistinct [] = Unit
AreDistinct (k ∷ ids) = (listed k ids ≡ false) × AreDistinct ids

put-HasKeysOnce {ℓ} :
    {V : Type ℓ} (d : Dict V) (k : String) (v : V) → HasKeysOnce d → HasKeysOnce (put d k v)
unfolding get put
put-HasKeysOnce [] k v h = (refl, tt)
put-HasKeysOnce ((j, w) ∷ d) k v (fresh, h) = elim (Bool-cases (j == k)) [
  | inl same ↦ rw same (fresh, h)
  | inr other ↦
      rw other (rw get-put (ground (arith, eq_iff j k, eq_iff k j)), put-HasKeysOnce d k v h)
]

append-HasKeysOnce :
    (s : EventStore) (stamp : Stamp) (claim_id : String) (type : EventType) (payload : Payload)
    (key : Option String)
    → IsWritable type payload
    → HasKeysOnce s.claims
    → HasKeysOnce (append s stamp claim_id type payload key).1.claims
append-HasKeysOnce s stamp claim_id type payload key w h = elim (Result-cases r.0) [
  | inl (e, stored) ↦
      let a = append-Appended s stamp claim_id type payload key e r.1 (ground (arith, stored)) in
      rw a.claims_eq (put-HasKeysOnce s.claims claim_id a.claim h)
  | inr (x, refused) ↦
      rw (append-err s stamp claim_id type payload key x r.1 w (ground (arith, refused))).0 h
]
  where
    r : Result DomainEvent × EventStore
    r = append s stamp claim_id type payload key

pub Reachable-HasKeysOnce : (s : EventStore) → Reachable s → HasKeysOnce s.claims
unfolding mark_published
Reachable-HasKeysOnce s start = tt
Reachable-HasKeysOnce s (append_step {s = r} stamp claim_id type payload key w h) =
    append-HasKeysOnce r stamp claim_id type payload key w (Reachable-HasKeysOnce r h)
Reachable-HasKeysOnce s (relayed {s = r} ids h) = Reachable-HasKeysOnce r h

-- The claim that a lookup finds is at the status.
abbrev pub stands_at : ClaimStatus → Option Claim → Bool
stands_at status none = false
stands_at status (some c) = is_yes (ClaimStatus-discrete c.status status)

keys_with-listed :
    (status : ClaimStatus) (d : Dict Claim) (k : String)
    → HasKeysOnce d
    → listed k (keys_with status d) ≡ stands_at status (get d k)
unfolding get
keys_with-listed status [] k h = refl
keys_with-listed status ((j, c) ∷ d) k (fresh, h) =
    ground (arith, keys_with-listed status d k h, eq_iff j k)

keys_with-AreDistinct :
    (status : ClaimStatus) (d : Dict Claim) → HasKeysOnce d → AreDistinct (keys_with status d)
keys_with-AreDistinct status [] h = tt
keys_with-AreDistinct status ((j, c) ∷ d) (fresh, h) =
    ground (arith, keys_with-AreDistinct status d h, keys_with-listed status d j h)

stands_at-HasStatus :
    (s : EventStore) (status : ClaimStatus) (k : String)
    → (stands_at status (get s.claims k) ≡ true) ↔ HasStatus s k status
stands_at-HasStatus s status k = elim (Option-cases (get s.claims k)) [
  | inl missing ↦ rw missing (λ p. absurd (cc), λ (c, found, at). absurd (cc))
  | inr (c, there) ↦
      rw there (λ p. (c, refl, ground (arith, p)), λ (b, found, at). ground (arith, found, at))
]

-- In a reachable store a status lists exactly the claims that are at it, each once.
pub list_by_status-HasStatus :
    (s : EventStore) (status : ClaimStatus)
    → Reachable s
    → AreDistinct (list_by_status s status)
      × ((k : String) → (listed k (list_by_status s status) ≡ true) ↔ HasStatus s k status)
unfolding list_by_status
list_by_status-HasStatus s status h =
    let once = Reachable-HasKeysOnce s h in
    (
      keys_with-AreDistinct status s.claims once,
      λ k. rw (keys_with-listed status s.claims k once) (stands_at-HasStatus s status k),
    )
