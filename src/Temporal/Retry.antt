-- ===== src/Temporal/Retry.antt =====
-- How the engine runs an activity: at least once, again after a failure, a lost worker or a lost
-- answer, and at most as often as the retry policy says. Which attempts fare badly is a schedule.
use insurance_claim_ai.Prelude.{ℕ, zero, suc, List, [], ◌∷◌}
use insurance_claim_ai.Domain.Errors.{Result, ok, err, Error, activity_error}
use insurance_claim_ai.Temporal.Action.{Ensures, Action}

pub data Attempt : Type 0 where
  -- the worker is lost before the activity does anything
  lost : Attempt
  -- the activity runs, and its answer is lost
  unacked : Attempt
  -- the activity runs, and its answer or its exception arrives
  arrived : Attempt

abbrev pub settled {ℓ} : {S A : Type ℓ} → (Error → Action S A) → Result A → Action S A
settled again (ok a) s = (ok a, s)
settled again (err e) s = again e s

-- At most `n` attempts. After the schedule every attempt arrives. When no attempt is left the last
-- exception is the cause that the workflow sees.
unfoldable pub execute {ℓ} : {S A : Type ℓ} → ℕ → Error → List Attempt → Action S A → Action S A
execute zero cause schedule act s = (err cause, s)
execute (suc n) cause (lost ∷ schedule) act s = execute n activity_error schedule act s
execute (suc n) cause (unacked ∷ schedule) act s = execute n activity_error schedule act (act s).1
execute (suc n) cause (arrived ∷ schedule) act s =
    settled (λ e. execute n e schedule act) (act s).0 (act s).1
execute (suc n) cause [] act s = settled (λ e. execute n e [] act) (act s).0 (act s).1

module _ {S A : Type 0} (P : S → Type 0) (Q : A → S → Type 0) (Safe : Error → Type 0)
    (keeps : (a : A) (s : S) → Q a s → P s) where
  settled_rule :
      (again : Error → Action S A) (r : Result A) (s : S)
      → ((e : Error) → Safe e → P s → Ensures (λ e t. Safe e × P t) Q (again e s))
      → Ensures (λ e t. Safe e × P t) Q (r, s)
      → Ensures (λ e t. Safe e × P t) Q (settled again r s)
  settled_rule again (ok a) s later h = h
  settled_rule again (err e) s later h = later e h.0 h.1

  ensured_keeps : (r : Result A) (s : S) → Ensures (λ e t. Safe e × P t) Q (r, s) → P s
  ensured_keeps (ok a) s h = keeps a s h
  ensured_keeps (err e) s h = h.1

  -- What an activity ensures of its answer and of its exceptions, from every state of an invariant
  -- that it keeps, it ensures under every schedule.
  pub execute_rule :
      (act : Action S A)
      → ((s : S) → P s → Ensures (λ e t. Safe e × P t) Q (act s))
      → Safe activity_error
      → (n : ℕ) (cause : Error) (schedule : List Attempt) (s : S) → Safe cause
      → P s
      → Ensures (λ e t. Safe e × P t) Q (execute n cause schedule act s)
  unfolding execute
  execute_rule act once lost_safe zero cause schedule s c h = (c, h)
  execute_rule act once lost_safe (suc n) cause [] s c h =
      settled_rule (λ e. execute n e [] act) (act s).0 (act s).1
        (λ e safe kept. execute_rule act once lost_safe n e [] (act s).1 safe kept) (once s h)
  execute_rule act once lost_safe (suc n) cause (lost ∷ schedule) s c h =
      execute_rule act once lost_safe n activity_error schedule s lost_safe h
  execute_rule act once lost_safe (suc n) cause (unacked ∷ schedule) s c h =
      execute_rule act once lost_safe n activity_error schedule (act s).1 lost_safe
        (ensured_keeps (act s).0 (act s).1 (once s h))
  execute_rule act once lost_safe (suc n) cause (arrived ∷ schedule) s c h =
      settled_rule (λ e. execute n e schedule act) (act s).0 (act s).1
        (λ e safe kept. execute_rule act once lost_safe n e schedule (act s).1 safe kept) (once s h)
