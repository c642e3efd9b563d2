-- ===== src/Relay/Outbox.antt =====
-- Marking rows of the outbox: which events stay unpublished.
use insurance_claim_ai.Prelude.{
  zero, suc, All, ℕ, ◌≡◌, refl, sym, ap, ◌∙◌, String, Bool, false, not, List, [], ◌∷◌, map, arith,
  any, ◌==◌, eq_refl, keep_if, take, drop,
}
use insurance_claim_ai.Domain.Events.{DomainEvent}
use insurance_claim_ai.EventStore.{
  EventStore, OutboxRow, unpublished, fetch_unpublished, mark_row, mark_published,
}
use insurance_claim_ai.Relay.{ids_of, mark_sent}

abbrev pub is_among : List String → DomainEvent → Bool
is_among ids e = any (λ i. i == e.event_id) ids

-- No two events have one id.
abbrev pub Distinct : List DomainEvent → Type 0
Distinct [] = Unit {0}
Distinct (e ∷ log) = All (λ d. (e.event_id == d.event_id) ≡ false) log × Distinct log

unpublished-mark_row :
    (ids : List String) (rows : List OutboxRow)
    → unpublished (map (mark_row ids) rows) ≡ keep_if (λ e. not (is_among ids e)) (unpublished rows)
unpublished-mark_row ids [] = refl
unpublished-mark_row ids (o ∷ rows) = ground (arith, unpublished-mark_row ids rows)

keep_if-none_among : (log : List DomainEvent) → keep_if (λ e. not (is_among [] e)) log ≡ log
keep_if-none_among [] = refl
keep_if-none_among (e ∷ log) = ap (λ l. e ∷ l) (keep_if-none_among log)

-- An id that no event has makes no difference.
keep_if-other_id :
    (i : String) (ids : List String) (log : List DomainEvent)
    → All (λ d. (i == d.event_id) ≡ false) log
    → keep_if (λ e. not (is_among (i ∷ ids) e)) log ≡ keep_if (λ e. not (is_among ids e)) log
keep_if-other_id i ids [] h = refl
keep_if-other_id i ids (e ∷ log) h = ground (arith, keep_if-other_id i ids log h.1)

keep_if-take :
    (n : ℕ) (log : List DomainEvent)
    → Distinct log
    → keep_if (λ e. not (is_among (ids_of (take n log)) e)) log ≡ drop n log
keep_if-take zero log h = keep_if-none_among log
keep_if-take (suc n) [] h = refl
keep_if-take (suc n) (e ∷ log) h = ground (
  arith,
  eq_refl e.event_id,
  keep_if-other_id e.event_id (ids_of (take n log)) log h.0,
  keep_if-take n log h.1,
)

-- Marking the first `n` unpublished events leaves the others unpublished, in order.
pub unpublished-mark_published :
    (s : EventStore) (n : ℕ)
    → Distinct (unpublished s.outbox)
    → unpublished (mark_published s (ids_of (fetch_unpublished s n))).outbox
      ≡ drop n (unpublished s.outbox)
unfolding mark_published fetch_unpublished
unpublished-mark_published s n h =
    unpublished-mark_row (ids_of (take n (unpublished s.outbox))) s.outbox
    ∙ keep_if-take n (unpublished s.outbox) h

All-drop :
    (P : DomainEvent → Type 0) (n : ℕ) (log : List DomainEvent) → All P log → All P (drop n log)
All-drop P zero log h = h
All-drop P (suc n) [] h = h
All-drop P (suc n) (e ∷ log) h = All-drop P n log h.1

pub Distinct-drop : (n : ℕ) (log : List DomainEvent) → Distinct log → Distinct (drop n log)
Distinct-drop zero log h = h
Distinct-drop (suc n) [] h = h
Distinct-drop (suc n) (e ∷ log) h = Distinct-drop n log h.1

take_nothing : (n : ℕ) (log : List DomainEvent) → take n log ≡ [] → drop n log ≡ log
take_nothing zero log h = refl
take_nothing (suc n) [] h = refl
take_nothing (suc n) (e ∷ log) h = absurd (cc)

mark_fetched :
    (s : EventStore) (n : ℕ) (batch : List DomainEvent)
    → fetch_unpublished s n ≡ batch
    → Distinct (unpublished s.outbox)
    → unpublished (mark_sent s batch).outbox ≡ drop n (unpublished s.outbox)
unfolding fetch_unpublished
mark_fetched s n [] h distinct = sym (take_nothing n (unpublished s.outbox) h)
mark_fetched s n (e ∷ log) h distinct =
    ap (λ (l : List DomainEvent). unpublished (mark_published s (ids_of l)).outbox) (sym h)
    ∙ unpublished-mark_published s n distinct

pub unpublished-mark_sent :
    (s : EventStore) (n : ℕ)
    → Distinct (unpublished s.outbox)
    → unpublished (mark_sent s (fetch_unpublished s n)).outbox ≡ drop n (unpublished s.outbox)
unpublished-mark_sent s n distinct = mark_fetched s n (fetch_unpublished s n) refl distinct
