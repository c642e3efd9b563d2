-- ===== src/Notifier/Consumer.antt =====
-- claimpipe/notifier.py, main: the loop over the messages of the topic. `parse` is pydantic's
-- `model_validate_json`; an exception ends the loop, and with it the process.
use insurance_claim_ai.Prelude.{
  ℕ, ◌≡◌, ◌⊎◌, inl, inr, refl, sym, ap, ◌∙◌, String, Bool, true, false, List, [], ◌∷◌, arith, get,
  length, map, eq_refl, All,
}
use insurance_claim_ai.Domain.Errors.{Result, ok, err}
use insurance_claim_ai.Domain.Models.{persisted}
use insurance_claim_ai.Domain.Events.{DomainEvent, EventType, claim_persisted}
use insurance_claim_ai.EventStore.{Stamp}
use insurance_claim_ai.EventStore.Status.{HasStatus}
use insurance_claim_ai.EventStore.Listing.{listed, AreDistinct}
use insurance_claim_ai.Notifier.{Desk, Service, notify, handle_event, handle_type}
use insurance_claim_ai.Notifier.Told.{notify-Told, AreTold, HasStatus-others, listed-ne, told_first}
use mathlib.Core.Path.{subst}

abbrev after :
    Result (Unit {0}) × Desk → (Desk → Result (Unit {0}) × Desk) → Result (Unit {0}) × Desk
after (ok u, d) others = others d
after (err x, d) others = (err x, d)

-- The body of the loop.
abbrev pub handled : Result DomainEvent → Service → Stamp → Desk → Result (Unit {0}) × Desk
handled (ok e) sv stamp d = handle_event sv stamp e d
handled (err x) sv stamp d = (err x, d)

unfoldable pub consume :
    (String → Result DomainEvent)
    → Service
    → (ℕ → Stamp)
    → List String
    → Desk
    → Result (Unit {0}) × Desk
consume parse sv stamps [] d = (ok tt, d)
consume parse sv stamps (message ∷ messages) d =
    after (handled (parse message) sv (stamps (length messages)) d)
      (consume parse sv stamps messages)

-- The claims that the events announce, one for each CLAIM_PERSISTED.
abbrev add_announced : EventType → String → List String → List String
add_announced claim_persisted claim_id ids = claim_id ∷ ids
add_announced _ claim_id ids = ids

abbrev pub announced : List DomainEvent → List String
announced [] = []
announced (e ∷ log) = add_announced e.type e.claim_id (announced log)

-- CLAIM_PERSISTED, or a type that announces nothing and is passed over.
abbrev Announces : EventType → Type 0
Announces type =
    (type ≡ claim_persisted)
    ⊎ (((claim_id : String) (ids : List String) → add_announced type claim_id ids ≡ ids)
        × ((sv : Service) (stamp : Stamp) (e : DomainEvent) (d : Desk)
            → handle_type type sv stamp e d ≡ (ok tt, d)))

type-Announces : (type : EventType) → Announces type
type-Announces claim_persisted = inl refl
type-Announces _ = inr (λ claim_id ids. refl, λ sv stamp e d. refl)

abbrev pub Consumed : Desk → List String → Result (Unit {0}) × Desk → Type 0
Consumed d ids (r, t) =
    (r ≡ ok tt)
    × AreTold t.store ids
    × ((k : String) → listed k ids ≡ false → get t.store.claims k ≡ get d.store.claims k)

module _ (parse : String → Result DomainEvent) (dump : DomainEvent → String) (sv : Service)
    (stamps : ℕ → Stamp) where
  consume-handled :
      (e : DomainEvent) (messages : List String) (d d' : Desk)
      → parse (dump e) ≡ ok e
      → handle_event sv (stamps (length messages)) e d ≡ (ok tt, d')
      → consume parse sv stamps (dump e ∷ messages) d ≡ consume parse sv stamps messages d'
  unfolding consume
  consume-handled e messages d d' reads h =
      let next = consume parse sv stamps messages in
      ap (λ r. after (handled r sv (stamps (length messages)) d) next) reads
      ∙ ap (λ r. after r next) h

  handle_event-passed :
      (stamp : Stamp) (e : DomainEvent) (d : Desk)
      → handle_type e.type sv stamp e d ≡ (ok tt, d)
      → handle_event sv stamp e d ≡ (ok tt, d)
  unfolding handle_event
  handle_event-passed stamp e d passed = passed

  handle_event-notify :
      (stamp : Stamp) (e : DomainEvent) (d : Desk) (taken : Bool)
      → e.type ≡ claim_persisted
      → (notify sv stamp e.claim_id e.event_id d).0 ≡ ok taken
      → handle_event sv stamp e d ≡ (ok tt, (notify sv stamp e.claim_id e.event_id d).1)
  unfolding handle_event
  handle_event-notify stamp e d taken persisted_event answer =
      ap (λ t. handle_type t sv stamp e d) persisted_event ∙ rw answer refl

  -- Messages that can be read and announce different claims, each of them PERSISTED, are consumed to the end: the
  -- claims are then NOTIFIED or NOTIFY_FAILED, and no other claim changes.
  pub consume_lem :
      (log : List DomainEvent) (d : Desk)
      → All (λ e. parse (dump e) ≡ ok e) log
      → AreDistinct (announced log)
      → ((k : String) → listed k (announced log) ≡ true → HasStatus d.store k persisted)
      → Consumed d (announced log) (consume parse sv stamps (map dump log) d)
  unfolding consume
  consume_lem [] d readable distinct at = (refl, λ k there. absurd (cc), λ k other. refl)
  consume_lem (e ∷ log) d (reads, readable) distinct at = elim (type-Announces e.type) [
    | inl persisted_event ↦
        let (fresh, later) : AreDistinct (e.claim_id ∷ announced log) =
          subst (λ t. AreDistinct (add_announced t e.claim_id (announced log))) persisted_event
            distinct in
        let at' : (k : String)
            → listed k (e.claim_id ∷ announced log) ≡ true
            → HasStatus d.store k persisted =
          subst
            (λ t.
              (k : String)
              → listed k (add_announced t e.claim_id (announced log)) ≡ true
              → HasStatus d.store k persisted)
            persisted_event at in
        let stamp = stamps (length (map dump log)) in
        let (taken, all) =
          notify-Told sv stamp e.claim_id e.event_id d
            (inl (at' e.claim_id (ground (arith, eq_refl e.claim_id)))) in
        let (r, status, others) = all in
        let d' = (notify sv stamp e.claim_id e.event_id d).1 in
        let (answer, all_told, same) = consume_lem log d' readable later (λ k there.
          HasStatus-others d.store d'.store k persisted
            (others k (listed-ne e.claim_id k (announced log) fresh there))
            (at' k (ground (arith, there)))) in
        let (all_told', same') =
          told_first e.claim_id (announced log) d d'
            (consume parse sv stamps (map dump log) d').1.store taken status others fresh all_told
            same in
        subst (Consumed d (announced (e ∷ log)))
          (sym (
            consume-handled e (map dump log) d d' reads
              (handle_event-notify stamp e d taken persisted_event r)))
          (subst
            (λ t.
              Consumed d (add_announced t e.claim_id (announced log))
                (consume parse sv stamps (map dump log) d'))
            (sym persisted_event) (answer, all_told', same'))
    | inr (silent, passed) ↦
        let none_more = silent e.claim_id (announced log) in
        subst (Consumed d (announced (e ∷ log)))
          (sym (
            consume-handled e (map dump log) d d reads
              (handle_event-passed _ e d (passed sv _ e d))))
          (subst (λ ids. Consumed d ids (consume parse sv stamps (map dump log) d)) (sym none_more)
            (consume_lem log d readable (subst AreDistinct none_more distinct)
              (λ k there. at k (rw none_more there))))
  ]
