-- ===== src/Notifier/Rounds.antt =====
-- What a replay posts: the request of each claim, one after the other.
use insurance_claim_ai.Prelude.{
  ℕ, ◌+◌, ◌≡◌, ◌⊎◌, inl, inr, refl, sym, ap, ◌∙◌, String, Bool, true, false, Option, none, some,
  List, [], ◌∷◌, ◌++◌, arith, get, length, length-append, append-nil, append_assoc, eq_refl,
}
use insurance_claim_ai.Domain.Errors.{Result, ok, Result-cases}
use insurance_claim_ai.Domain.Models.{Claim, ClaimStatus}
use insurance_claim_ai.Domain.Events.{DomainEvent, EventType, Payload}
use insurance_claim_ai.EventStore.{EventStore, Stamp, append}
use insurance_claim_ai.EventStore.Frame.{IsWritable, append-Appended, append-err, note_predictions}
use insurance_claim_ai.EventStore.Status.{HasStatus}
use insurance_claim_ai.EventStore.Listing.{listed, AreDistinct}
use insurance_claim_ai.Notifier.{
  Request, Desk, Service, deliver, request_of, report, notify, retry, replay_all, outcome_type,
  outcome_payload,
}
use insurance_claim_ai.Notifier.Delivery.{copies, first_taken, deliver_lem}
use insurance_claim_ai.Notifier.Outcome.{notify-report, notify_lem}
use insurance_claim_ai.Notifier.Told.{notify-Told, HasStatus-others, listed-ne}
use insurance_claim_ai.Notifier.Pauses.{copies-length}
use insurance_claim_ai.Notifier.Replay.{one_if, replay_all-step}
use insurance_claim_ai.Domain.Errors.{ok-injective}
use insurance_claim_ai.Domain.Models.{notified}
use insurance_claim_ai.Prelude.{Bool-cases}
use insurance_claim_ai.EventStore.{list_by_status}
use insurance_claim_ai.EventStore.Listing.{list_by_status-HasStatus}
use insurance_claim_ai.EventStore.Reachable.{Reachable}
use insurance_claim_ai.Notifier.{replay_failed}
use insurance_claim_ai.Notifier.Replay.{count_notified, replay_all_lem}
use mathlib.Core.Path.{subst}
use Prim.Native.String as Text

-- The requests posted for a list of them, from the `n`-th post on, each until it is taken or has used
-- up its attempts; and how many are taken.
abbrev pub round : Service → List Request → ℕ → List Request × ℕ
round sv [] n = ([], 0)
round sv (q ∷ requests) n =
    let (k, taken) = first_taken sv.takes q n sv.max_attempts in
    let (posted, count) = round sv requests (n + k) in (copies k q ++ posted, one_if taken + count)

abbrev request_at : Service → EventStore → String → Option Claim → List Request → List Request
request_at sv s k none requests = requests
request_at sv s k (some c) requests = request_of sv s c (Text.◌++◌ "retry-" k) ∷ requests

-- The signed requests of the claims, under the idempotency ids of a retry.
abbrev pub requests_of : Service → EventStore → List String → List Request
requests_of sv s [] = []
requests_of sv s (k ∷ ids) = request_at sv s k (get s.claims k) (requests_of sv s ids)

request_of-same :
    (sv : Service) (s t : EventStore) (c : Claim) (i : String)
    → t.predictions ≡ s.predictions
    → request_of sv t c i ≡ request_of sv s c i
request_of-same sv s t c i h = rw h refl

requests_of-same :
    (sv : Service) (s t : EventStore) (ids : List String)
    → t.predictions ≡ s.predictions
    → ((k : String) → listed k ids ≡ true → get t.claims k ≡ get s.claims k)
    → requests_of sv t ids ≡ requests_of sv s ids
requests_of-same sv s t [] h same = refl
requests_of-same sv s t (k ∷ ids) h same =
    let rest = requests_of-same sv s t ids h (λ j there. same j (ground (arith, there))) in
    ap (λ o. request_at sv t k o (requests_of sv t ids)) (same k (ground (arith, eq_refl k)))
    ∙ ap (λ l. request_at sv t k (get s.claims k) l) rest
    ∙ first (get s.claims k)
  where
    first :
        (o : Option Claim)
        → request_at sv t k o (requests_of sv s ids) ≡ request_at sv s k o (requests_of sv s ids)
    first none = refl
    first (some c) =
        ap (λ q. q ∷ requests_of sv s ids) (request_of-same sv s t c (Text.◌++◌ "retry-" k) h)

-- A report leaves the predictions alone.
append-predictions :
    (s : EventStore) (stamp : Stamp) (claim_id : String) (type : EventType) (payload : Payload)
    → IsWritable type payload
    → note_predictions type payload claim_id s.predictions ≡ s.predictions
    → (append s stamp claim_id type payload none).1.predictions ≡ s.predictions
append-predictions s stamp claim_id type payload w none_brought = elim (Result-cases r.0) [
  | inl (e, stored) ↦
      let a = append-Appended s stamp claim_id type payload none e r.1 (ground (arith, stored)) in
      a.predictions_eq ∙ none_brought
  | inr (x, refused) ↦
      ap (λ (t : EventStore). t.predictions)
        (append-err s stamp claim_id type payload none x r.1 w (ground (arith, refused))).0
]
  where
    r : Result DomainEvent × EventStore
    r = append s stamp claim_id type payload none

report-predictions :
    (stamp : Stamp) (claim_id i : String) (delivered : Bool) (d : Desk)
    → (report stamp claim_id i delivered d).1.store.predictions ≡ d.store.predictions
unfolding report
report-predictions stamp claim_id i true d =
    append-predictions d.store stamp claim_id (outcome_type true) (outcome_payload true i) tt refl
report-predictions stamp claim_id i false d =
    append-predictions d.store stamp claim_id (outcome_type false) (outcome_payload false i) tt refl

notify-predictions :
    (sv : Service) (stamp : Stamp) (claim_id i : String) (d : Desk) (c : Claim)
    → get d.store.claims claim_id ≡ some c
    → (notify sv stamp claim_id i d).1.store.predictions ≡ d.store.predictions
notify-predictions sv stamp claim_id i d c there =
    let q = request_of sv d.store c i in
    let (took, posted, kept) = deliver_lem sv q sv.max_attempts 1 d in
    let (delivered, d') = deliver sv q sv.max_attempts 1 d in
    rw (notify-report sv stamp claim_id i d c there) (
      report-predictions stamp claim_id i delivered d'
      ∙ ap (λ (s : EventStore). s.predictions) kept)

abbrev Rounded : Service → List Request → ℕ → List Request → ℕ → Result ℕ × Desk → Type 0
Rounded sv before n requests recovered (r, t) =
    (r ≡ ok (recovered + (round sv requests n).1)) × (t.posted ≡ before ++ (round sv requests n).0)

add_assoc : (a b c : ℕ) → (a + b) + c ≡ a + (b + c)
add_assoc a b c = omega arith

Rounded-step :
    (sv : Service) (before : List Request) (n : ℕ) (q : Request) (requests : List Request)
    (recovered : ℕ) (out : Result ℕ × Desk)
    → let (k, taken) = first_taken sv.takes q n sv.max_attempts in
      Rounded sv (before ++ copies k q) (n + k) requests (recovered + one_if taken) out
      → Rounded sv before n (q ∷ requests) recovered out
Rounded-step sv before n q requests recovered out (r, posted) =
    let (k, taken) = first_taken sv.takes q n sv.max_attempts in
    let (more, count) = round sv requests (n + k) in
    (
      r ∙ ap (λ (m : ℕ). ok m) (add_assoc recovered (one_if taken) count),
      posted ∙ append_assoc before (copies k q) more,
    )

pub replay_all-round :
    (sv : Service) (stamps : ℕ → Stamp) (ids : List String) (recovered : ℕ) (d : Desk)
    → AreDistinct ids
    → ((k : String) → listed k ids ≡ true → HasStatus d.store k ClaimStatus.notify_failed)
    → Rounded sv d.posted
        (length d.posted)
        (requests_of sv d.store ids)
        recovered
        (replay_all sv stamps ids recovered d)
unfolding replay_all retry
replay_all-round sv stamps [] recovered d distinct failed =
    (ap (λ (n : ℕ). ok n) (omega arith), sym (append-nil d.posted))
replay_all-round sv stamps (claim_id ∷ ids) recovered d (fresh, distinct) failed =
    let (c, there, at) = failed claim_id (ground (arith, eq_refl claim_id)) in
    let i = Text.◌++◌ "retry-" claim_id in
    let stamp = stamps (length ids) in
    let q = request_of sv d.store c i in
    let (k, taken) = first_taken sv.takes q (length d.posted) sv.max_attempts in
    let (r, status, posted) = notify_lem sv stamp claim_id i d c there (inr at) in
    let others = (notify-Told sv stamp claim_id i d (inr (c, there, at))).1.2 in
    let d' = (notify sv stamp claim_id i d).1 in
    let same =
      requests_of-same sv d.store d'.store ids (notify-predictions sv stamp claim_id i d c there)
        (λ j listed_j. others j (listed-ne claim_id j ids fresh listed_j)) in
    let counted : length d'.posted ≡ length d.posted + k =
      ap length posted
      ∙ length-append d.posted (copies k q)
      ∙ ap (λ n. length d.posted + n) (copies-length k q) in
    let rest = replay_all-round sv stamps ids (recovered + one_if taken) d' distinct (λ j listed_j.
      HasStatus-others d.store d'.store j ClaimStatus.notify_failed
        (others j (listed-ne claim_id j ids fresh listed_j))
        (failed j (ground (arith, listed_j)))) in
    let out = replay_all sv stamps ids (recovered + one_if taken) d' in
    let moved =
      subst
        (λ l.
          Rounded sv l (length d.posted + k) (requests_of sv d.store ids) (recovered + one_if taken)
            out)
        posted
        (subst
          (λ n. Rounded sv d'.posted n (requests_of sv d.store ids) (recovered + one_if taken) out)
          counted
          (subst (λ l. Rounded sv d'.posted (length d'.posted) l (recovered + one_if taken) out)
            same rest)) in
    subst
      (Rounded sv d.posted (length d.posted) (requests_of sv d.store (claim_id ∷ ids)) recovered)
      (sym (replay_all-step sv stamps claim_id ids recovered d taken r))
      (subst
        (λ o.
          Rounded sv d.posted (length d.posted)
            (request_at sv d.store claim_id o (requests_of sv d.store ids)) recovered out)
        (sym there)
        (Rounded-step sv d.posted (length d.posted) q (requests_of sv d.store ids) recovered out
          moved))

-- In a reachable store the replay raises nothing. The request of every claim that was NOTIFY_FAILED is
-- posted, one claim after the other, until it is taken or has used up the attempts; the answer is how
-- many are taken. As many of these claims are then NOTIFIED, the others still NOTIFY_FAILED, and no
-- other claim changes.
pub replay_failed_lem :
    (sv : Service) (stamps : ℕ → Stamp) (d : Desk)
    → Reachable d.store
    → let ids = list_by_status d.store ClaimStatus.notify_failed in
      let (posted, count) = round sv (requests_of sv d.store ids) (length d.posted) in
      let (r, t) = replay_failed sv stamps d in
      (r ≡ ok count)
      × (t.posted ≡ d.posted ++ posted)
      × (count_notified t.store ids ≡ count)
      × ((k : String)
          → HasStatus d.store k ClaimStatus.notify_failed
          → HasStatus t.store k notified ⊎ HasStatus t.store k ClaimStatus.notify_failed)
      × ((k : String)
          → ¬ HasStatus d.store k ClaimStatus.notify_failed
          → get t.store.claims k ≡ get d.store.claims k)
unfolding replay_failed
replay_failed_lem sv stamps d h =
    let ids = list_by_status d.store ClaimStatus.notify_failed in
    let (distinct, exact) = list_by_status-HasStatus d.store ClaimStatus.notify_failed h in
    let (r, told_all, same) =
      replay_all_lem sv stamps ids 0 d distinct (λ k there. (exact k).0 there) in
    let (answer, posted) =
      replay_all-round sv stamps ids 0 d distinct (λ k there. (exact k).0 there) in
    (
      answer ∙ ap (λ (n : ℕ). ok n) (omega arith),
      posted,
      omega (arith, ok-injective (sym r ∙ answer)),
      λ k failed. told_all k ((exact k).1 failed),
      λ k other. same k (elim (Bool-cases (listed k ids)) [
        | inl there ↦ absurd (other ((exact k).0 there))
        | inr absent ↦ absent
      ]),
    )
