-- ===== src/EventStore/Invariant.antt =====
-- The store's parts agree: the claims are the folded log, the numbers count it, the outbox holds it.
use mathlib.Core.Path.{subst}
use insurance_claim_ai.Prelude.{
  ℕ, ◌+◌, ◌≡◌, inl, inr, refl, ap, ◌∙◌, String, true, false, Option, none, some, List, [], ◌∷◌,
  ◌++◌, map, arith, or_else, length, ◌==◌, eq_iff, eq_refl, Dict, get, get-put, get-put_self,
  keep_if, keep_if-append, is_some, Bool-cases, length-append, append-nil,
}
use insurance_claim_ai.Domain.Errors.{ok, >>=-eq-ok}
use insurance_claim_ai.Domain.Models.{Claim, ModelPrediction}
use insurance_claim_ai.Domain.Events.{DomainEvent, EventType, Payload, predictions_ready}
use insurance_claim_ai.Projection.{project, replay_from, replay}
use insurance_claim_ai.EventStore.{
  EventStore, OutboxRow, Stamp, log_of, seq_of, note_key, row_event,
}
use insurance_claim_ai.EventStore.Frame.{IsWritable, note_predictions, Appended}

-- The events of a claim among those of the outbox.
abbrev pub of_claim : String → List DomainEvent → List DomainEvent
of_claim claim_id log = keep_if (λ e. e.claim_id == claim_id) log

abbrev pub enqueued : EventStore → List DomainEvent
enqueued s = map row_event s.outbox

-- The events of one claim are numbered one by one from `n`.
abbrev pub Numbered : String → ℕ → List DomainEvent → Type 0
Numbered claim_id n [] = Unit {0}
Numbered claim_id n (e ∷ log) =
    (e.claim_id ≡ claim_id) × (e.seq ≡ n) × Numbered claim_id (n + 1) log

abbrev pub seen_predictions :
    EventType
    → Option (List ModelPrediction)
    → Option (List ModelPrediction)
    → Option (List ModelPrediction)
seen_predictions predictions_ready new old = new
seen_predictions _ new old = old

-- The predictions of the last PREDICTIONS_READY.
abbrev pub last_predictions :
    Option (List ModelPrediction) → List DomainEvent → Option (List ModelPrediction)
last_predictions old [] = old
last_predictions old (e ∷ log) =
    last_predictions (seen_predictions e.type e.payload.predictions old) log

pub record IsConsistent (s : EventStore) : Type 0 where
  -- the read model is the fold of the log
  pub folded : (claim_id : String) → replay (log_of s claim_id) ≡ ok (get s.claims claim_id)
  pub counted : (claim_id : String) → seq_of s claim_id ≡ length (log_of s claim_id)
  pub numbered : (claim_id : String) → Numbered claim_id 1 (log_of s claim_id)
  -- every event of the log is in the outbox once, in the order of the log
  pub queued : (claim_id : String) → of_claim claim_id (enqueued s) ≡ log_of s claim_id
  pub predicted :
      (claim_id : String) → get s.predictions claim_id ≡ last_predictions none (log_of s claim_id)
  pub keyed :
      (key claim_id : String)
      → get s.idem key ≡ some claim_id
      → is_some (get s.claims claim_id) ≡ true

replay_from-append :
    (log : List DomainEvent) (m n : Option Claim) (e : DomainEvent) (c : Claim)
    → replay_from m log ≡ ok n
    → project n e ≡ ok c
    → replay_from m (log ++ e ∷ []) ≡ ok (some c)
unfolding replay_from
replay_from-append [] m n e c r p = ground arith
replay_from-append (d ∷ log) m n e c r p =
    let (b, first, rest) = >>=-eq-ok (project m d) (λ x. replay_from (some x) log) r in
    rw first (replay_from-append log (some b) n e c rest p)

Numbered-append :
    (claim_id : String) (n : ℕ) (log : List DomainEvent) (e : DomainEvent)
    → Numbered claim_id n log
    → e.claim_id ≡ claim_id
    → e.seq ≡ n + length log
    → Numbered claim_id n (log ++ e ∷ [])
Numbered-append claim_id n [] e h i k = ground arith
Numbered-append claim_id n (d ∷ log) e h i k =
    (h.0, h.1, Numbered-append claim_id (n + 1) log e h.2 i (omega arith))

map-append_one :
    (rows : List OutboxRow) (o : OutboxRow)
    → map row_event (rows ++ o ∷ []) ≡ map row_event rows ++ o.event ∷ []
map-append_one [] o = refl
map-append_one (r ∷ rows) o = ap (λ l. r.event ∷ l) (map-append_one rows o)

last_predictions-append :
    (log : List DomainEvent) (old : Option (List ModelPrediction)) (e : DomainEvent)
    → last_predictions old (log ++ e ∷ [])
      ≡ seen_predictions e.type e.payload.predictions (last_predictions old log)
last_predictions-append [] old e = refl
last_predictions-append (d ∷ log) old e =
    last_predictions-append log (seen_predictions d.type d.payload.predictions old) e

-- To prove of every key what holds of one and of the others.
pub by_key :
    (k : String) (P : String → Type 0)
    → P k
    → ((j : String) → (k == j) ≡ false → P j)
    → (j : String) → P j
by_key k P here there j = elim (Bool-cases (k == j)) [
  | inl same ↦ subst P ((eq_iff k j).0 same) here
  | inr other ↦ there j other
]

note_predictions_self :
    (type : EventType) (p : Payload) (k : String) (d : Dict (List ModelPrediction))
    → IsWritable type p
    → get (note_predictions type p k d) k ≡ seen_predictions type p.predictions (get d k)
note_predictions_self type p k d w = ground (arith, get-put_self d k (or_else p.predictions []))

note_predictions_other :
    (type : EventType) (p : Payload) (k j : String) (d : Dict (List ModelPrediction))
    → (k == j) ≡ false
    → get (note_predictions type p k d) j ≡ get d j
note_predictions_other type p k j d other = ground (arith, get-put d k j (or_else p.predictions []))

note_key_other :
    (key : Option String) (claim_id k j : String) (idem : Dict String)
    → (claim_id == j) ≡ false
    → get (note_key key claim_id idem) k ≡ some j
    → get idem k ≡ some j
note_key_other none claim_id k j idem other found = found
note_key_other (some i) claim_id k j idem other found =
    ground (arith, get-put idem i k claim_id, eq_iff claim_id j)

module _ (s : EventStore) (stamp : Stamp) (claim_id : String) (type : EventType) (payload : Payload)
    (key : Option String) (e : DomainEvent) (t : EventStore)
    (a : Appended s stamp claim_id type payload key e t) where
  pub log_of_self : log_of t claim_id ≡ log_of s claim_id ++ e ∷ []
  log_of_self = rw a.events_eq (rw get-put_self)

  pub log_of_other : (j : String) → (claim_id == j) ≡ false → log_of t j ≡ log_of s j
  log_of_other j other = rw a.events_eq (rw (get-put, other))

  pub find_self : get t.claims claim_id ≡ some a.claim
  find_self = rw a.claims_eq (get-put_self s.claims claim_id a.claim)

  pub find_other : (j : String) → (claim_id == j) ≡ false → get t.claims j ≡ get s.claims j
  find_other j other = rw a.claims_eq (rw (get-put, other))

  same_id : e.claim_id ≡ claim_id
  same_id = ap (λ d. d.claim_id) a.event_eq

  same_type : e.type ≡ type
  same_type = ap (λ d. d.type) a.event_eq

  same_payload : e.payload ≡ payload
  same_payload = ap (λ d. d.payload) a.event_eq

  folded-append :
      ((j : String) → replay (log_of s j) ≡ ok (get s.claims j))
      → (j : String) → replay (log_of t j) ≡ ok (get t.claims j)
  folded-append h =
      by_key claim_id (λ j. replay (log_of t j) ≡ ok (get t.claims j))
        (rw (log_of_self, find_self)
          (replay_from-append (log_of s claim_id) none (get s.claims claim_id) e a.claim
            (h claim_id) a.projected))
        (λ j other. rw (log_of_other j other, find_other j other) (h j))

  counted-append :
      ((j : String) → seq_of s j ≡ length (log_of s j))
      → (j : String) → seq_of t j ≡ length (log_of t j)
  counted-append h =
      by_key claim_id (λ j. seq_of t j ≡ length (log_of t j))
        (rw (log_of_self, a.seq_eq, get-put_self)
          (omega (arith, h claim_id, length-append (log_of s claim_id) (e ∷ []))))
        (λ j other. rw (log_of_other j other, a.seq_eq) (rw (get-put, other) (h j)))

  append-Numbered :
      ((j : String) → seq_of s j ≡ length (log_of s j))
      → ((j : String) → Numbered j 1 (log_of s j))
      → (j : String) → Numbered j 1 (log_of t j)
  append-Numbered n h =
      by_key claim_id (λ j. Numbered j 1 (log_of t j))
        (rw log_of_self (
          Numbered-append claim_id 1 (log_of s claim_id) e (h claim_id) (ground (arith, a.event_eq))
            (ground (arith, a.event_eq, n claim_id))))
        (λ j other. rw (log_of_other j other) (h j))

  queued-append :
      ((j : String) → of_claim j (enqueued s) ≡ log_of s j)
      → (j : String) → of_claim j (enqueued t) ≡ log_of t j
  queued-append h =
      by_key claim_id (λ j. of_claim j (enqueued t) ≡ log_of t j)
        (rw (log_of_self, a.outbox_eq, map-append_one, keep_if-append, h claim_id)
          (rw (same_id, eq_refl)))
        (λ j other.
          rw (log_of_other j other, a.outbox_eq, map-append_one, keep_if-append, h j)
            (rw (same_id, other, append-nil)))

  predicted-append :
      ((j : String) → get s.predictions j ≡ last_predictions none (log_of s j))
      → (j : String) → get t.predictions j ≡ last_predictions none (log_of t j)
  predicted-append h =
      by_key claim_id (λ j. get t.predictions j ≡ last_predictions none (log_of t j))
        (rw
          (
            log_of_self,
            last_predictions-append,
            a.predictions_eq,
            same_type,
            same_payload,
            ← h claim_id,
          )
          (note_predictions_self type payload claim_id s.predictions a.written))
        (λ j other.
          rw (log_of_other j other, a.predictions_eq)
            (note_predictions_other type payload claim_id j s.predictions other ∙ h j))

  keyed-append :
      ((k j : String) → get s.idem k ≡ some j → is_some (get s.claims j) ≡ true)
      → (k j : String) → get t.idem k ≡ some j
      → is_some (get t.claims j) ≡ true
  keyed-append h k =
      by_key claim_id (λ j. get t.idem k ≡ some j → is_some (get t.claims j) ≡ true)
        (λ found. rw find_self)
        (λ j other.
          rw (find_other j other, a.idem_eq)
            (λ found. h k j (note_key_other key claim_id k j s.idem other found)))

  -- Every part of the store agrees after an accepted event.
  pub Appended-IsConsistent : IsConsistent s → IsConsistent t
  Appended-IsConsistent c = record {
    folded = folded-append c.folded;
    counted = counted-append c.counted;
    numbered = append-Numbered c.counted c.numbered;
    queued = queued-append c.queued;
    predicted = predicted-append c.predicted;
    keyed = keyed-append c.keyed;
  }
