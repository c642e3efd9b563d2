-- ===== src/Relay/Delivery.antt =====
-- What the relay delivers: nothing is lost when the bus raises, and a bus that does not raise gets
-- every event, once and in order.
use mathlib.Core.List.{map-append}
use insurance_claim_ai.Prelude.{
  nat_eq, zero, suc, take-append-drop, ℕ, ◌<◌, ◌+◌, ◌≡◌, ◌⊎◌, inl, inr, refl, sym, ap, ◌∙◌, String,
  true, false, some, List, [], ◌∷◌, ◌++◌, map, arith, length, Bool-cases, length-append, take, drop,
  append-nil, append_assoc,
}
use insurance_claim_ai.Domain.Errors.{ok, err, Error}
use insurance_claim_ai.Domain.Events.{DomainEvent}
use insurance_claim_ai.EventStore.{EventStore, unpublished, fetch_unpublished}
use insurance_claim_ai.Relay.{
  MessageBus, Message, in_memory_bus, mark_sent, publish_all, run_once, run,
}
use insurance_claim_ai.Relay.Outbox.{Distinct, unpublished-mark_sent, Distinct-drop}

-- If no two unpublished events have one id: a round in which the bus raises leaves the store as it
-- was, and a round that returns has taken the events of the batch, and no others, from the
-- unpublished ones.
pub run_once-store :
    (bus : MessageBus) (dump : DomainEvent → String) (topic : String) (s : EventStore) (b : bus.Bus)
    (batch : ℕ)
    → Distinct (unpublished s.outbox)
    → let (r, s', b') = run_once bus dump topic s b batch in
      ((x : Error) × (r ≡ err x) × (s' ≡ s))
      ⊎ ((r ≡ ok (length (fetch_unpublished s batch)))
          × (unpublished s'.outbox ≡ drop batch (unpublished s.outbox)))
unfolding run_once
run_once-store bus dump topic s b batch distinct =
    ground (arith, unpublished-mark_sent s batch distinct)

abbrev pub message : (DomainEvent → String) → String → DomainEvent → Message
message dump topic e = record { topic = topic; key = e.claim_id; value = dump e }

take_idle :
    (n : ℕ) (log : List DomainEvent)
    → 0 < n
    → nat_eq (length (take n log)) 0 ≡ true
    → (take n log ≡ []) × (log ≡ [])
take_idle zero log pos h = absurd (omega arith)
take_idle (suc n) [] pos h = (refl, refl)
take_idle (suc n) (e ∷ log) pos h = absurd (ground arith)

drop-nil : (n : ℕ) → drop {A = DomainEvent} n [] ≡ []
drop-nil zero = refl
drop-nil (suc n) = refl

-- A round that fetches nothing is one with nothing to publish.
fetch_idle :
    (s : EventStore) (n : ℕ)
    → 0 < n
    → nat_eq (length (fetch_unpublished s n)) 0 ≡ true
    → (fetch_unpublished s n ≡ []) × (unpublished s.outbox ≡ [])
unfolding fetch_unpublished
fetch_idle s n pos h = take_idle n (unpublished s.outbox) pos h

length-fetch :
    (s : EventStore) (batch : ℕ)
    → length (fetch_unpublished s batch) + length (drop batch (unpublished s.outbox))
      ≡ length (unpublished s.outbox)
unfolding fetch_unpublished
length-fetch s batch =
    sym (length-append (take batch (unpublished s.outbox)) (drop batch (unpublished s.outbox)))
    ∙ ap length (take-append-drop batch (unpublished s.outbox))

-- A round that fetches something leaves fewer events to publish.
fetch_fewer :
    (s : EventStore) (batch fuel : ℕ)
    → nat_eq (length (fetch_unpublished s batch)) 0 ≡ false
    → length (unpublished s.outbox) < suc fuel
    → Distinct (unpublished s.outbox)
    → length (unpublished (mark_sent s (fetch_unpublished s batch)).outbox) < fuel
fetch_fewer s batch fuel more enough distinct =
    rw (unpublished-mark_sent s batch distinct) (ground (arith, length-fetch s batch))

module _ (dump : DomainEvent → String) (topic : String) where
  publish_all-in_memory :
      (b : List Message) (log : List DomainEvent)
      → publish_all in_memory_bus dump topic b log ≡ (ok tt, b ++ map (message dump topic) log)
  unfolding publish_all
  publish_all-in_memory b [] = rw append-nil
  publish_all-in_memory b (e ∷ log) =
      publish_all-in_memory (b ++ message dump topic e ∷ []) log
      ∙ ap (λ (l : List Message). (ok tt, l))
          (append_assoc b (message dump topic e ∷ []) (map (message dump topic) log))

  -- Nothing raises in memory: a round publishes the batch and leaves the rest.
  pub run_once-in_memory :
      (s : EventStore) (b : List Message) (batch : ℕ)
      → run_once in_memory_bus dump topic s b batch ≡ (
        ok (length (fetch_unpublished s batch)),
        mark_sent s (fetch_unpublished s batch),
        b ++ map (message dump topic) (fetch_unpublished s batch),
      )
  unfolding run_once
  run_once-in_memory s b batch = ground (arith, publish_all-in_memory b (fetch_unpublished s batch))

  fetch-map :
      (s : EventStore) (batch : ℕ)
      → map (message dump topic) (fetch_unpublished s batch)
          ++ map (message dump topic) (drop batch (unpublished s.outbox))
        ≡ map (message dump topic) (unpublished s.outbox)
  unfolding fetch_unpublished
  fetch-map s batch =
      sym (
        map-append (message dump topic) (take batch (unpublished s.outbox))
          (drop batch (unpublished s.outbox)))
      ∙ ap (map (message dump topic)) (take-append-drop batch (unpublished s.outbox))

  delivered :
      (s : EventStore) (b : List Message) (batch : ℕ)
      → Distinct (unpublished s.outbox)
      → (b ++ map (message dump topic) (fetch_unpublished s batch))
          ++ map (message dump topic) (unpublished (mark_sent s (fetch_unpublished s batch)).outbox)
        ≡ b ++ map (message dump topic) (unpublished s.outbox)
  delivered s b batch distinct = rw (unpublished-mark_sent s batch distinct) (
      append_assoc b (map (message dump topic) (fetch_unpublished s batch))
        (map (message dump topic) (drop batch (unpublished s.outbox)))
      ∙ ap (λ l. b ++ l) (fetch-map s batch))

  -- With a positive batch and no two unpublished events of one id, the relay on the in-memory bus,
  -- run until it finds nothing, has delivered each unpublished event once, in the order of the
  -- outbox, and has nothing left to publish. Fuel for one round more than there are such events is
  -- enough.
  pub run-in_memory :
      (fuel : ℕ) (s : EventStore) (b : List Message) (batch : ℕ)
      → 0 < batch
      → length (unpublished s.outbox) < fuel
      → Distinct (unpublished s.outbox)
      → (t : EventStore) × (run in_memory_bus dump topic fuel s b batch
          ≡ some (t, b ++ map (message dump topic) (unpublished s.outbox)))
        × (unpublished t.outbox ≡ [])
  unfolding run
  run-in_memory zero s b batch pos enough distinct = absurd (omega arith)
  run-in_memory (suc fuel) s b batch pos enough distinct =
      elim (Bool-cases (nat_eq (length (fetch_unpublished s batch)) 0)) [
        | inl idle ↦
            let (none_fetched, none_left) = fetch_idle s batch pos idle in
            (
              s',
              rw (run_once-in_memory s b batch, idle, none_fetched, none_left) refl,
              unpublished-mark_sent s batch distinct ∙ rw none_left (drop-nil batch),
            )
        | inr more ↦
            let (t, ran, rest) =
              run-in_memory fuel s' b' batch pos (fetch_fewer s batch fuel more enough distinct) (
                rw (unpublished-mark_sent s batch distinct)
                  (Distinct-drop batch (unpublished s.outbox) distinct)) in
            (
              t,
              rw (run_once-in_memory s b batch, more)
                  (ran ∙ ap (λ (l : List Message). some (t, l)) (delivered s b batch distinct)),
              rest,
            )
      ]
    where
      s' : EventStore
      s' = mark_sent s (fetch_unpublished s batch)

      b' : List Message
      b' = b ++ map (message dump topic) (fetch_unpublished s batch)
