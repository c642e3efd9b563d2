-- ===== src/Notifier/Pauses.antt =====
-- How often the notifier posts, and how long it waits between two posts.
use insurance_claim_ai.Prelude.{
  ℕ, zero, suc, ◌≤◌, ◌+◌, ◌≡◌, inl, inr, refl, sym, ap, ◌∙◌, String, Bool, true, false, List, [],
  ◌∷◌, ◌++◌, arith, length, Bool-cases, append-nil, append_assoc, get, some, length-append,
}
use insurance_claim_ai.Domain.Models.{Claim}
use insurance_claim_ai.EventStore.{Stamp}
use insurance_claim_ai.Notifier.{
  Request, Desk, Service, post, pause, deliver, report, notify, request_of,
}
use insurance_claim_ai.Notifier.Delivery.{
  copies, first_taken, first_taken-le, deliver_lem, posted_one, pause-posted,
}
use insurance_claim_ai.Notifier.Outcome.{notify-report}

-- The numbers of the attempts that are followed by a pause: all but the last of `k`.
abbrev pub between : ℕ → ℕ → List ℕ
between attempt zero = []
between attempt (suc zero) = []
between attempt (suc (suc k)) = attempt ∷ between (attempt + 1) (suc k)

abbrev pub waits : Bool → ℕ → ℕ → List ℕ
waits true attempt k = between attempt k
waits false attempt k = []

pub copies-length : (k : ℕ) (q : Request) → length (copies k q) ≡ k
copies-length zero q = refl
copies-length (suc k) q = ap suc (copies-length k q)

first_taken-pos :
    (takes : ℕ → Request → Bool) (q : Request) (n left : ℕ)
    → (j : ℕ) × ((first_taken takes q n (suc left)).0 ≡ suc j)
first_taken-pos takes q n left = elim (Bool-cases (takes n q)) [
  | inl taken ↦ (0, rw taken refl)
  | inr refused ↦ ((first_taken takes q (suc n) left).0, rw refused refl)
]

-- Before the attempts that follow an attempt with `suc left` after it comes a pause of its number.
waits-suc :
    (backs_off : Bool) (left attempt j : ℕ) (d : Desk)
    → (pause backs_off (suc left) attempt d).pauses ++ waits backs_off (attempt + 1) (suc j)
      ≡ d.pauses ++ waits backs_off attempt (suc (suc j))
waits-suc true left attempt j d =
    ground (arith, append_assoc d.pauses (attempt ∷ []) (between (attempt + 1) (suc j)))
waits-suc false left attempt j d = ground arith

waits-one : (backs_off : Bool) (attempt : ℕ) → waits backs_off attempt 1 ≡ []
waits-one true attempt = refl
waits-one false attempt = refl

waits-zero : (backs_off : Bool) (attempt : ℕ) → waits backs_off attempt 0 ≡ []
waits-zero true attempt = refl
waits-zero false attempt = refl

deliver-pauses :
    (sv : Service) (q : Request) (left attempt : ℕ) (d : Desk)
    → let k = (first_taken sv.takes q (length d.posted) left).0 in
      (deliver sv q left attempt d).1.pauses ≡ d.pauses ++ waits sv.backs_off attempt k
unfolding deliver
deliver-pauses sv q zero attempt d =
    rw (waits-zero sv.backs_off attempt) (sym (append-nil d.pauses))
deliver-pauses sv q (suc zero) attempt d =
    ground (arith, waits-one sv.backs_off attempt, append-nil d.pauses)
deliver-pauses sv q (suc (suc left)) attempt d =
    let rest =
      deliver-pauses sv q (suc left) (attempt + 1)
        (pause sv.backs_off (suc left) attempt (post q d)) in
    let (j, more) = first_taken-pos sv.takes q (suc (length d.posted)) left in
    elim (Bool-cases (sv.takes (length d.posted) q)) [
      | inl taken ↦ rw taken (rw (waits-one sv.backs_off attempt) (sym (append-nil d.pauses)))
      | inr refused ↦ ground (
        arith,
        refused,
        rest,
        more,
        waits-suc sv.backs_off left attempt j (post q d),
        posted_one d.posted q,
        pause-posted sv.backs_off (suc left) attempt (post q d),
      )
    ]

report-pauses :
    (stamp : Stamp) (claim_id i : String) (delivered : Bool) (d : Desk)
    → ((report stamp claim_id i delivered d).1.pauses ≡ d.pauses)
      × ((report stamp claim_id i delivered d).1.posted ≡ d.posted)
unfolding report
report-pauses stamp claim_id i delivered d = (refl, refl)

-- A notification posts its request at most as often as attempts are allowed, whatever becomes of it;
-- where it backs off it pauses between two posts, by the number of the attempt before: 1, 2, and so
-- on, with no pause behind the last.
pub notify-pauses :
    (sv : Service) (stamp : Stamp) (claim_id i : String) (d : Desk) (c : Claim)
    → get d.store.claims claim_id ≡ some c
    → let k =
        (first_taken sv.takes (request_of sv d.store c i) (length d.posted) sv.max_attempts).0 in
      let t = (notify sv stamp claim_id i d).1 in
      (length t.posted ≡ length d.posted + k)
      × (k ≤ sv.max_attempts)
      × (t.pauses ≡ d.pauses ++ waits sv.backs_off 1 k)
notify-pauses sv stamp claim_id i d c there =
    let q = request_of sv d.store c i in
    let k : ℕ = (first_taken sv.takes q (length d.posted) sv.max_attempts).0 in
    let (took, posted, kept) = deliver_lem sv q sv.max_attempts 1 d in
    let (delivered, d') = deliver sv q sv.max_attempts 1 d in
    let (same_pauses, same_posted) = report-pauses stamp claim_id i delivered d' in
    rw (notify-report sv stamp claim_id i d c there) (
      ap length (same_posted ∙ posted)
          ∙ length-append d.posted (copies k q)
          ∙ ap (λ n. length d.posted + n) (copies-length k q),
      first_taken-le sv.takes q (length d.posted) sv.max_attempts,
      same_pauses ∙ deliver-pauses sv q sv.max_attempts 1 d,
    )
