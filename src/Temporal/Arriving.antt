-- ===== src/Temporal/Arriving.antt =====
-- An activity that does not raise returns as soon as one of its attempts arrives.
use mathlib.Core.Path.{subst}
use insurance_claim_ai.Prelude.{
  ◌≡◌, ◌≢◌, inl, inr, refl, ap, ◌∙◌, String, true, none, some, List, [], ◌∷◌,
}
use insurance_claim_ai.Domain.Errors.{Result, ok, err, Error, activity_error}
use insurance_claim_ai.Domain.Models.{ClaimStatus}
use insurance_claim_ai.Domain.Events.{EventType, Payload, claim_received}
use insurance_claim_ai.Temporal.Action.{Action, Ensures, World, Services}
use insurance_claim_ai.Projection.{allowed, event_status}
use insurance_claim_ai.Projection.Diagram.{IsComplete}
use insurance_claim_ai.EventStore.Frame.{IsWritable}
use insurance_claim_ai.Temporal.Storing.{At, Within}
use insurance_claim_ai.Prelude.{ℕ, zero, suc}
use insurance_claim_ai.Temporal.Retry.{Attempt, lost, unacked, arrived, settled, execute}
use insurance_claim_ai.Temporal.Storing.{append_event-At}
use insurance_claim_ai.EventStore.Status.{target}
use insurance_claim_ai.Temporal.Activities.{append_event}

-- Nothing is raised.
abbrev pub Never : {S : Type 0} → Error → S → Type 0
Never e s = ⊥

-- One of the first `n` attempts arrives.
abbrev pub Arrives : ℕ → List Attempt → Type 0
Arrives zero schedule = ⊥
Arrives (suc n) [] = Unit {0}
Arrives (suc n) (arrived ∷ schedule) = Unit {0}
Arrives (suc n) (lost ∷ schedule) = Arrives n schedule
Arrives (suc n) (unacked ∷ schedule) = Arrives n schedule

module _ {S A : Type 0} (P : S → Type 0) (Q : A → S → Type 0)
    (keeps : (a : A) (s : S) → Q a s → P s) where
  settled_returns :
      (again : Error → Action S A) (r : Result A) (s : S)
      → Ensures Never Q (r, s)
      → Ensures Never Q (settled again r s)
  settled_returns again (ok a) s h = h
  settled_returns again (err e) s h = absurd h

  returned_keeps : (r : Result A) (s : S) → Ensures Never Q (r, s) → P s
  returned_keeps (ok a) s h = keeps a s h
  returned_keeps (err e) s h = absurd h

  -- An activity that never raises returns as soon as an attempt arrives.
  pub execute_returns :
      (act : Action S A)
      → ((s : S) → P s → Ensures Never Q (act s))
      → (n : ℕ) (cause : Error) (schedule : List Attempt) (s : S) → Arrives n schedule
      → P s
      → Ensures Never Q (execute n cause schedule act s)
  unfolding execute
  execute_returns act once zero cause schedule s arrives h = absurd arrives
  execute_returns act once (suc n) cause [] s arrives h =
      settled_returns (λ e. execute n e [] act) (act s).0 (act s).1 (once s h)
  execute_returns act once (suc n) cause (arrived ∷ schedule) s arrives h =
      settled_returns (λ e. execute n e schedule act) (act s).0 (act s).1 (once s h)
  execute_returns act once (suc n) cause (lost ∷ schedule) s arrives h =
      execute_returns act once n activity_error schedule s arrives h
  execute_returns act once (suc n) cause (unacked ∷ schedule) s arrives h =
      execute_returns act once n activity_error schedule (act s).1 arrives
        (returned_keeps (act s).0 (act s).1 (once s h))

-- The event that moves a claim is stored.
pub stored_returns :
    (sv : Services) (claim_id : String) (a b : ClaimStatus) (type : EventType) (payload : Payload)
    → type ≢ claim_received
    → IsComplete type payload
    → IsWritable type payload
    → event_status type ≡ some b
    → allowed a b ≡ true
    → (w : World) → Within claim_id a b w
    → Ensures Never (λ u t. At claim_id b t) (append_event sv claim_id type payload w)
stored_returns sv claim_id a b type payload other complete writable goes legal w
      (inl (c, there, at_a)) =
    subst (λ s. Ensures Never (λ u t. At claim_id s t) (append_event sv claim_id type payload w))
      (ap (target c.status) goes)
      (append_event-At sv claim_id type payload other complete writable Never w c there
        (rw (goes, at_a) (inr legal)))
stored_returns sv claim_id a b type payload other complete writable goes legal w
      (inr (c, there, at_b)) =
    subst (λ s. Ensures Never (λ u t. At claim_id s t) (append_event sv claim_id type payload w))
      (ap (target c.status) goes)
      (append_event-At sv claim_id type payload other complete writable Never w c there
        (rw (goes, at_b) (inl refl)))

pub stays_returns :
    (sv : Services) (claim_id : String) (a : ClaimStatus) (type : EventType) (payload : Payload)
    → type ≢ claim_received
    → IsComplete type payload
    → IsWritable type payload
    → event_status type ≡ none
    → (w : World) → At claim_id a w
    → Ensures Never (λ u t. At claim_id a t) (append_event sv claim_id type payload w)
stays_returns sv claim_id a type payload other complete writable stays w (c, there, at_a) =
    subst (λ s. Ensures Never (λ u t. At claim_id s t) (append_event sv claim_id type payload w))
      (ap (target c.status) stays ∙ at_a)
      (append_event-At sv claim_id type payload other complete writable Never w c there
        (rw stays tt))
