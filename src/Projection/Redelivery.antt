-- ===== src/Projection/Redelivery.antt =====
-- An activity that is retried after its event was stored appends the event once more.
use insurance_claim_ai.Prelude.{◌≡◌, String, some, [], arith, or_else}
use insurance_claim_ai.Domain.Errors.{ok}
use insurance_claim_ai.Domain.Models.{Claim}
use insurance_claim_ai.Domain.Events.{DomainEvent, review_completed}
use insurance_claim_ai.Projection.{project}

-- The same event stored again, with the id, number and time of the second try.
abbrev pub IsRetry : DomainEvent → DomainEvent → Type 0
IsRetry e e' = (e'.type ≡ e.type) × (e'.payload ≡ e.payload)

-- An event that an existing claim accepted is accepted again, and the second delivery changes only
-- the time of update.
pub project_again :
    (c c' : Claim) (e e' : DomainEvent)
    → project (some c) e ≡ ok c'
    → IsRetry e e'
    → project (some c') e' ≡ ok (record c' { updated_at = some e'.occurred_at })
unfolding project
project_again c c' e e' h retry = ground arith

-- A verdict of a reviewer is accepted in every status, the end states included: it replaces the
-- decision and keeps the status.
pub review_anywhere :
    (c : Claim) (e : DomainEvent) (d : String)
    → e.type ≡ review_completed
    → e.payload.decision ≡ some d
    → project (some c) e
      ≡ ok (record c {
        decision = some d;
        reason_codes = or_else e.payload.reason_codes [];
        updated_at = some e.occurred_at;
      })
unfolding project
review_anywhere c e d h k = ground arith
