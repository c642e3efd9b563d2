-- ===== src/Notifier/Replay.antt =====
-- replay_failed_notifications: every claim whose notification failed is tried again.
use insurance_claim_ai.Prelude.{
  ℕ, suc, ◌+◌, ◌≡◌, inr, refl, sym, ap, ◌∙◌, String, Bool, true, false, List, [], ◌∷◌, arith, get,
  length, eq_refl, if◌then◌else◌,
}
use insurance_claim_ai.Domain.Errors.{Result, ok}
use insurance_claim_ai.Domain.Models.{ClaimStatus, notified}
use insurance_claim_ai.EventStore.{EventStore, Stamp}
use insurance_claim_ai.EventStore.Status.{HasStatus}
use insurance_claim_ai.EventStore.Listing.{listed, AreDistinct, stands_at}
use insurance_claim_ai.Notifier.{Desk, Service, retry, replay_all}
use insurance_claim_ai.Notifier.Told.{
  Told, notify-Told, AreTold, HasStatus-others, listed-ne, told_first,
}
use insurance_claim_ai.Notifier.Outcome.{outcome_status}
use mathlib.Core.Path.{subst}
use Prim.Native.String as Text

retry-Told :
    (sv : Service) (stamp : Stamp) (claim_id : String) (d : Desk)
    → HasStatus d.store claim_id ClaimStatus.notify_failed
    → (taken : Bool) × Told claim_id d taken (retry sv stamp claim_id d)
unfolding retry
retry-Told sv stamp claim_id d failed =
    notify-Told sv stamp claim_id (Text.◌++◌ "retry-" claim_id) d (inr failed)

-- How many of the claims are NOTIFIED.
abbrev pub count_notified : EventStore → List String → ℕ
count_notified s [] = 0
count_notified s (k ∷ ids) =
    let others = count_notified s ids in
    if stands_at notified (get s.claims k) then suc others else others

abbrev pub one_if : Bool → ℕ
one_if true = 1
one_if false = 0

stands_at-taken :
    (s : EventStore) (k : String) (taken : Bool)
    → HasStatus s k (outcome_status taken)
    → stands_at notified (get s.claims k) ≡ taken
stands_at-taken s k true (c, there, at) = ground (arith, there, at)
stands_at-taken s k false (c, there, at) = ground (arith, there, at)

pub replay_all-step :
    (sv : Service) (stamps : ℕ → Stamp) (claim_id : String) (ids : List String) (recovered : ℕ)
    (d : Desk) (taken : Bool)
    → (retry sv (stamps (length ids)) claim_id d).0 ≡ ok taken
    → replay_all sv stamps (claim_id ∷ ids) recovered d
      ≡ replay_all sv stamps ids
          (recovered + one_if taken)
          (retry sv (stamps (length ids)) claim_id d).1
unfolding replay_all
replay_all-step sv stamps claim_id ids recovered d true h = rw h refl
replay_all-step sv stamps claim_id ids recovered d false h = rw h (
    ap (λ (n : ℕ). replay_all sv stamps ids n (retry sv (stamps (length ids)) claim_id d).1)
      (omega arith))

count_notified-step :
    (s : EventStore) (k : String) (ids : List String) (taken : Bool)
    → stands_at notified (get s.claims k) ≡ taken
    → count_notified s (k ∷ ids) ≡ one_if taken + count_notified s ids
count_notified-step s k ids true h = rw h (omega arith)
count_notified-step s k ids false h = rw h (omega arith)

add_step : (a b c n : ℕ) → n ≡ b + c → (a + b) + c ≡ a + n
add_step a b c n h = omega arith

-- What a replay of the claims answers and leaves.
abbrev Replayed : Desk → List String → ℕ → Result ℕ × Desk → Type 0
Replayed d ids recovered (r, t) =
    (r ≡ ok (recovered + count_notified t.store ids))
    × AreTold t.store ids
    × ((k : String) → listed k ids ≡ false → get t.store.claims k ≡ get d.store.claims k)

pub replay_all_lem :
    (sv : Service) (stamps : ℕ → Stamp) (ids : List String) (recovered : ℕ) (d : Desk)
    → AreDistinct ids
    → ((k : String) → listed k ids ≡ true → HasStatus d.store k ClaimStatus.notify_failed)
    → Replayed d ids recovered (replay_all sv stamps ids recovered d)
unfolding replay_all
replay_all_lem sv stamps [] recovered d distinct failed =
    (ap (λ (n : ℕ). ok n) (omega arith), λ k there. absurd (cc), λ k other. refl)
replay_all_lem sv stamps (claim_id ∷ ids) recovered d (fresh, distinct) failed =
    let (taken, retried) =
      retry-Told sv (stamps (length ids)) claim_id d
        (failed claim_id (ground (arith, eq_refl claim_id))) in
    let (r, status, others) = retried in
    let d' = (retry sv (stamps (length ids)) claim_id d).1 in
    let (answer, all_told, same) =
      replay_all_lem sv stamps ids (recovered + one_if taken) d' distinct (λ k there.
        HasStatus-others d.store d'.store k ClaimStatus.notify_failed
          (others k (listed-ne claim_id k ids fresh there)) (failed k (ground (arith, there)))) in
    let final = (replay_all sv stamps ids (recovered + one_if taken) d').1.store in
    let head : HasStatus final claim_id (outcome_status taken) =
      HasStatus-others d'.store final claim_id (outcome_status taken) (same claim_id fresh)
        status in
    let (all_told', same') =
      told_first claim_id ids d d' final taken status others fresh all_told same in
    let counted =
      count_notified-step final claim_id ids taken (stands_at-taken final claim_id taken head) in
    subst (Replayed d (claim_id ∷ ids) recovered)
      (sym (replay_all-step sv stamps claim_id ids recovered d taken r))
      (
        answer
            ∙ ap (λ (n : ℕ). ok n)
                (add_step recovered (one_if taken) (count_notified final ids)
                  (count_notified final (claim_id ∷ ids)) counted),
        all_told',
        same',
      )
