-- ===== src/Projection/Replay.antt =====
-- What a whole log makes of a claim: no cycle, no way out of the end states, and the fields as
-- functions of the log.
use insurance_claim_ai.Prelude.{
  ◌<◌, ◌≡◌, ◌≢◌, ◌⊎◌, inl, inr, refl, ◌∙◌, Bool, true, false, none, some, List, [], ◌∷◌, arith,
}
use insurance_claim_ai.Domain.Errors.{ok, >>=-eq-ok}
use insurance_claim_ai.Domain.Models.{
  Claim, ClaimStatus, received, persisted, notified, failed, partial_success,
}
use insurance_claim_ai.Domain.Events.{DomainEvent, EventType, claim_received}
use insurance_claim_ai.Projection.{project, allowed, event_status, replay_from, replay}
use insurance_claim_ai.Projection.Diagram.{rank, project-rank, project-allowed}

-- Induction over an accepted log, from a claim that is there.
replay_induction :
    (P : Claim → Type 0)
    → ((c c' : Claim) (e : DomainEvent) → P c → project (some c) e ≡ ok c' → P c')
    → (log : List DomainEvent) (c c' : Claim) → P c
    → replay_from (some c) log ≡ ok (some c')
    → P c'
unfolding replay_from
replay_induction P step [] c c' h r = ground arith
replay_induction P step (e ∷ log) c c' h r =
    let (d, first, rest) = >>=-eq-ok (project (some c) e) (λ x. replay_from (some x) log) r in
    replay_induction P step log d c' (step c d e h first) rest

-- A failed or notified claim keeps its status under every accepted event.
end_stays :
    (c c' : Claim) (e : DomainEvent)
    → (c.status ≡ failed) ⊎ (c.status ≡ notified)
    → project (some c) e ≡ ok c'
    → c'.status ≡ c.status
unfolding allowed
end_stays c c' e h step = ground (arith, project-allowed c c' e step)

-- Failed and notified claims stay so, whatever is accepted after.
pub end_absorbs :
    (log : List DomainEvent) (c c' : Claim)
    → (c.status ≡ failed) ⊎ (c.status ≡ notified)
    → replay_from (some c) log ≡ ok (some c')
    → c'.status ≡ c.status
end_absorbs log c c' h r =
    replay_induction (λ d. d.status ≡ c.status)
      (λ d d' e same step. end_stays d d' e (ground arith) step ∙ same) log c c' refl r

-- No log goes back: the rank of the status rises, or the status is what it was.
pub replay-rank :
    (log : List DomainEvent) (c c' : Claim)
    → replay_from (some c) log ≡ ok (some c')
    → (c'.status ≡ c.status) ⊎ (rank c.status < rank c'.status)
replay-rank log c c' r =
    replay_induction (λ d. (d.status ≡ c.status) ⊎ (rank c.status < rank d.status))
      (λ d d' e so_far step. ground (arith, project-rank d d' e step)) log c c' (inl refl) r

-- Some event of the log moves a claim to the status.
abbrev pub Sent : ClaimStatus → List DomainEvent → Type 0
Sent s [] = ⊥
Sent s (e ∷ log) = (event_status e.type ≡ some s) ⊎ Sent s log

step-Sent :
    (c c' : Claim) (e : DomainEvent)
    → project (some c) e ≡ ok c'
    → (c'.status ≡ c.status) ⊎ (event_status e.type ≡ some c'.status)
unfolding project
step-Sent c c' e h = ground arith

-- A claim ends in the status that it began with, or in one that an event of the log sent it to.
pub replay-Sent :
    (log : List DomainEvent) (c c' : Claim)
    → replay_from (some c) log ≡ ok (some c')
    → (c'.status ≡ c.status) ⊎ Sent c'.status log
unfolding replay_from
replay-Sent [] c c' r = ground arith
replay-Sent (e ∷ log) c c' r =
    let (d, first, rest) = >>=-eq-ok (project (some c) e) (λ x. replay_from (some x) log) r in
    ground (arith, step-Sent c d e first, replay-Sent log d c' rest)

opened-received :
    (e : DomainEvent) (c : Claim)
    → project none e ≡ ok c
    → (e.type ≡ claim_received) × (c.status ≡ received) × (c.claim_id ≡ e.claim_id)
unfolding project
opened-received e c h = ground arith

not-sent_partial : (t : EventType) → event_status t ≢ some partial_success
unfolding event_status
not-sent_partial t h = ground arith

Sent-partial : (log : List DomainEvent) → ¬ Sent partial_success log
Sent-partial [] h = h
Sent-partial (e ∷ log) (inl h) = not-sent_partial e.type h
Sent-partial (e ∷ log) (inr h) = Sent-partial log h

-- PARTIAL_SUCCESS, though the table has it, is reached by no log.
pub replay-ne-partial_success :
    (log : List DomainEvent) (c : Claim) → replay log ≡ ok (some c) → c.status ≢ partial_success
unfolding replay_from
replay-ne-partial_success [] c r h = cc
replay-ne-partial_success (e ∷ log) c r h =
    let (d, first, rest) = >>=-eq-ok (project none e) (λ x. replay_from (some x) log) r in
    ground (arith, opened-received e d first, replay-Sent log d c rest, Sent-partial log)

-- The statuses past the checkpoint.
abbrev pub is_past_checkpoint : ClaimStatus → Bool
is_past_checkpoint persisted = true
is_past_checkpoint ClaimStatus.notify_failed = true
is_past_checkpoint notified = true
is_past_checkpoint _ = false

checkpoint_step :
    (c c' : Claim) (e : DomainEvent)
    → project (some c) e ≡ ok c'
    → is_past_checkpoint c'.status ≡ true
    → (is_past_checkpoint c.status ≡ true) ⊎ (event_status e.type ≡ some persisted)
unfolding allowed
checkpoint_step c c' e h past = ground (arith, project-allowed c c' e h, step-Sent c c' e h)

checkpoint_from :
    (log : List DomainEvent) (c c' : Claim)
    → replay_from (some c) log ≡ ok (some c')
    → is_past_checkpoint c'.status ≡ true
    → (is_past_checkpoint c.status ≡ true) ⊎ Sent persisted log
unfolding replay_from
checkpoint_from [] c c' r past = ground arith
checkpoint_from (e ∷ log) c c' r past =
    let (d, first, rest) = >>=-eq-ok (project (some c) e) (λ x. replay_from (some x) log) r in
    ground (arith, checkpoint_step c d e first, checkpoint_from log d c' rest past)

-- A claim whose customer was notified, or could not be, went through CLAIM_PERSISTED.
pub checkpoint_needs_persisted :
    (log : List DomainEvent) (c : Claim)
    → replay log ≡ ok (some c)
    → is_past_checkpoint c.status ≡ true
    → Sent persisted log
unfolding replay_from
checkpoint_needs_persisted [] c r past = cc
checkpoint_needs_persisted (e ∷ log) c r past =
    let (d, first, rest) = >>=-eq-ok (project none e) (λ x. replay_from (some x) log) r in
    ground (arith, opened-received e d first, checkpoint_from log d c rest past)
