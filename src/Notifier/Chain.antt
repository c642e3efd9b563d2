-- ===== src/Notifier/Chain.antt =====
-- The relay and the notifier one after the other: from the outbox over the bus to the customer.
use insurance_claim_ai.Prelude.{
  ℕ, zero, suc, ◌<◌, ◌≡◌, inl, inr, refl, sym, ap, ◌∙◌, String, true, some, List, [], ◌∷◌, ◌++◌,
  map, arith, length, All, get, Bool-cases, nat_eq, if◌then◌else◌,
}
use insurance_claim_ai.Domain.Errors.{Result, ok}
use insurance_claim_ai.Domain.Models.{persisted}
use insurance_claim_ai.Domain.Events.{DomainEvent}
use insurance_claim_ai.EventStore.{
  EventStore, Stamp, unpublished, mark_published, fetch_unpublished,
}
use insurance_claim_ai.EventStore.Status.{HasStatus}
use insurance_claim_ai.EventStore.Listing.{listed, AreDistinct}
use insurance_claim_ai.Relay.{Message, in_memory_bus, mark_sent, run}
use insurance_claim_ai.Relay.Outbox.{Distinct}
use insurance_claim_ai.Relay.Delivery.{message, run-in_memory, run_once-in_memory}
use insurance_claim_ai.Notifier.{Desk, Service}
use insurance_claim_ai.Notifier.Consumer.{announced, consume, Consumed, consume_lem}
use insurance_claim_ai.Notifier.Told.{HasStatus-others}
use mathlib.Core.Path.{subst}

mark_sent-claims : (s : EventStore) (log : List DomainEvent) → (mark_sent s log).claims ≡ s.claims
unfolding mark_published
mark_sent-claims s [] = refl
mark_sent-claims s (e ∷ log) = refl

module _ (dump : DomainEvent → String) (topic : String) where
  run-suc :
      (fuel : ℕ) (s : EventStore) (b : List Message) (batch : ℕ)
      → let log = fetch_unpublished s batch in
        let b' = b ++ map (message dump topic) log in
        run in_memory_bus dump topic (suc fuel) s b batch ≡ (
          if nat_eq (length log) 0
          then some (mark_sent s log, b')
          else run in_memory_bus dump topic fuel (mark_sent s log) b' batch)
  unfolding run
  run-suc fuel s b batch = rw (run_once-in_memory dump topic s b batch) refl

  run-claims :
      (fuel : ℕ) (s t : EventStore) (b c : List Message) (batch : ℕ)
      → run in_memory_bus dump topic fuel s b batch ≡ some (t, c)
      → t.claims ≡ s.claims
  unfolding run
  run-claims zero s t b c batch h = absurd (cc)
  run-claims (suc fuel) s t b c batch h =
      let log = fetch_unpublished s batch in
      let s' = mark_sent s log in
      let b' = b ++ map (message dump topic) log in
      let left = sym (run-suc fuel s b batch) ∙ h in
      elim (Bool-cases (nat_eq (length log) 0)) [
        | inl idle ↦ ground (arith, left, idle, mark_sent-claims s log)
        | inr more ↦
            run-claims fuel s' t b' c batch (ground (arith, left, more)) ∙ mark_sent-claims s log
      ]

  values-message :
      (log : List DomainEvent)
      → map (λ (m : Message). m.value) (map (message dump topic) log) ≡ map dump log
  values-message [] = refl
  values-message (e ∷ log) = ap (λ l. dump e ∷ l) (values-message log)

-- Where the unpublished events can be read back, have different ids and announce different claims,
-- each of them PERSISTED, the relay publishes them all and ends; the notifier consumes what is then on
-- the bus to its end, every announced claim is NOTIFIED or NOTIFY_FAILED, and no other claim changes.
pub run-consume :
    (parse : String → Result DomainEvent) (dump : DomainEvent → String) (topic : String)
    (sv : Service) (stamps : ℕ → Stamp) (fuel batch : ℕ) (d : Desk)
    → let log = unpublished d.store.outbox in
      0 < batch
      → length log < fuel
      → Distinct log
      → All (λ e. parse (dump e) ≡ ok e) log
      → AreDistinct (announced log)
      → ((k : String) → listed k (announced log) ≡ true → HasStatus d.store k persisted)
      → (t : EventStore) × (bus : List Message) × (run in_memory_bus dump topic fuel d.store []
            batch
          ≡ some (t, bus))
        × (unpublished t.outbox ≡ [])
        × Consumed d
            (announced log)
            (consume parse sv stamps (map (λ (m : Message). m.value) bus) (record d { store = t }))
run-consume parse dump topic sv stamps fuel batch d pos enough distinct readable once at =
    let (t, ran, done) = run-in_memory dump topic fuel d.store [] batch pos enough distinct in
    let same = run-claims dump topic fuel d.store t [] (map (message dump topic) log) batch ran in
    let (answer, all_told, others) =
      consume_lem parse dump sv stamps log (record d { store = t }) readable once
        (λ k there. HasStatus-others d.store t k persisted (ap (λ c. get c k) same) (at k there)) in
    (
      t,
      map (message dump topic) log,
      ran,
      done,
      subst
          (λ messages.
            Consumed d (announced log) (consume parse sv stamps messages (record d { store = t })))
          (sym (values-message dump topic log))
          (answer, all_told, λ k other. others k other ∙ ap (λ c. get c k) same),
    )
  where
    log : List DomainEvent
    log = unpublished d.store.outbox
