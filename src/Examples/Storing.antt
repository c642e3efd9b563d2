-- ===== src/Examples/Storing.antt =====
-- The store, the relay and the reference data at concrete inputs.
use insurance_claim_ai.Prelude.{
  ℕ, ◌+◌, ◌≡◌, ◌⊎◌, refl, false, none, some, [], ◌∷◌, ◌++◌, map, arith, length, get, drop,
}
use insurance_claim_ai.Domain.Errors.{ok, err, Error, key_error, rpc_error}
use insurance_claim_ai.Domain.Models.{ClaimStatus-discrete, llm_running, llm_done}
use insurance_claim_ai.Domain.Events.{
  claim_received, predictions_ready, claim_persisted, empty_payload,
}
use insurance_claim_ai.EventStore.{
  EventStore, append, empty, next_event, log_of, unpublished, fetch_unpublished,
}
use insurance_claim_ai.Projection.{project}
use insurance_claim_ai.Examples.Data.{
  claim_at, receipt, stamp_one, stamp_two, store_at, one_claim, one_event,
}
use insurance_claim_ai.EventStore.Invariant.{IsConsistent}
use insurance_claim_ai.EventStore.Reachable.{start, append_step, Reachable-IsConsistent}
use insurance_claim_ai.EventStore.Atomic.{append_torn}
use insurance_claim_ai.Relay.{MessageBus, in_memory_bus, run, run_once}
use insurance_claim_ai.Relay.Delivery.{run-in_memory, run_once-store, message}

Reachable-IsConsistent_example :
    IsConsistent (append one_claim stamp_two "c1" claim_persisted empty_payload none).1
Reachable-IsConsistent_example =
    Reachable-IsConsistent (append one_claim stamp_two "c1" claim_persisted empty_payload none).1 (
      append_step stamp_two "c1" claim_persisted empty_payload none tt
        (append_step stamp_one "c1" claim_received receipt (some "k1") tt start))

append_torn_example :
    let s = store_at (claim_at llm_running) in
    let (r, t) = append s stamp_two "c1" predictions_ready empty_payload none in
    (r ≡ err key_error)
    × (get t.claims "c1" ≡ some (record (claim_at llm_done) { updated_at = some 2 }))
    × (log_of t "c1"
        ≡ log_of s "c1" ++ next_event s stamp_two "c1" predictions_ready empty_payload ∷ [])
    × (t.outbox ≡ s.outbox)
unfolding project get ClaimStatus-discrete
append_torn_example =
    append_torn (store_at (claim_at llm_running)) stamp_two "c1" empty_payload none
      (record (claim_at llm_done) { updated_at = some 2 }) refl refl

abbrev one_row : EventStore
one_row = record empty { outbox = (record { event = one_event; published = false }) ∷ [] }

run-in_memory_example :
    (t : EventStore) × (run in_memory_bus (λ e. "x") "topic" 2 one_row [] 5
      ≡ some (t, [] ++ map (message (λ e. "x") "topic") (unpublished one_row.outbox)))
    × (unpublished t.outbox ≡ [])
run-in_memory_example =
    run-in_memory (λ e. "x") "topic" 2 one_row [] 5 (omega arith) (omega arith) (tt, tt)

-- A bus that is down.
abbrev dead_bus : MessageBus
dead_bus = record { Bus = ℕ; publish = λ b topic key value. (err rpc_error, b + 1) }

run_once-store_example :
    let (r, s', b') = run_once dead_bus (λ e. "x") "topic" one_row 0 5 in
    ((x : Error) × (r ≡ err x) × (s' ≡ one_row))
    ⊎ ((r ≡ ok (length (fetch_unpublished one_row 5)))
        × (unpublished s'.outbox ≡ drop 5 (unpublished one_row.outbox)))
run_once-store_example = run_once-store dead_bus (λ e. "x") "topic" one_row 0 5 (tt, tt)
