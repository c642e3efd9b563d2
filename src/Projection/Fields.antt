-- ===== src/Projection/Fields.antt =====
-- The fields of a projected claim as functions of its log: the last verdict, the last OCR reference,
-- the first and the last time.
use insurance_claim_ai.Prelude.{
  ℕ, ◌≡◌, sym, ap, ◌∙◌, String, Option, none, some, List, [], ◌∷◌, arith, or_else,
}
use insurance_claim_ai.Domain.Errors.{ok, >>=-eq-ok}
use insurance_claim_ai.Domain.Models.{Claim}
use insurance_claim_ai.Domain.Events.{
  DomainEvent, EventType, Payload, claim_received, ocr_completed, claim_adjudicated,
  review_completed,
}
use insurance_claim_ai.Projection.{project, replay_from, replay}

-- The verdict that an event carries, over what stood before.
abbrev verdict_of : EventType → Payload → Option String → Option String
verdict_of claim_adjudicated p old = p.decision
verdict_of review_completed p old = p.decision
verdict_of _ p old = old

abbrev codes_of : EventType → Payload → List String → List String
codes_of claim_adjudicated p old = or_else p.reason_codes []
codes_of review_completed p old = or_else p.reason_codes []
codes_of _ p old = old

abbrev ref_of : EventType → Payload → Option String → Option String
ref_of ocr_completed p old = p.ocr_ref
ref_of _ p old = old

abbrev pub last_decision : Option String → List DomainEvent → Option String
last_decision old [] = old
last_decision old (e ∷ log) = last_decision (verdict_of e.type e.payload old) log

abbrev pub last_codes : List String → List DomainEvent → List String
last_codes old [] = old
last_codes old (e ∷ log) = last_codes (codes_of e.type e.payload old) log

abbrev pub last_ref : Option String → List DomainEvent → Option String
last_ref old [] = old
last_ref old (e ∷ log) = last_ref (ref_of e.type e.payload old) log

abbrev pub last_time : Option ℕ → List DomainEvent → Option ℕ
last_time old [] = old
last_time old (e ∷ log) = last_time (some e.occurred_at) log

-- `d` is `c` after the events of `log`.
pub record IsAfter (c : Claim) (log : List DomainEvent) (d : Claim) : Type 0 where
  pub same_id : d.claim_id ≡ c.claim_id
  pub same_metadata : d.metadata ≡ c.metadata
  pub same_created : d.created_at ≡ c.created_at
  pub same_pdf : d.pdf_ref ≡ c.pdf_ref
  pub decided : d.decision ≡ last_decision c.decision log
  pub coded : d.reason_codes ≡ last_codes c.reason_codes log
  pub referred : d.ocr_ref ≡ last_ref c.ocr_ref log
  pub updated : d.updated_at ≡ last_time c.updated_at log

pub project-IsAfter :
    (c d : Claim) (e : DomainEvent) → project (some c) e ≡ ok d → IsAfter c (e ∷ []) d
unfolding project
project-IsAfter c d e h = ground arith

pub replay_from-IsAfter :
    (log : List DomainEvent) (c d : Claim)
    → replay_from (some c) log ≡ ok (some d)
    → IsAfter c log d
unfolding replay_from
replay_from-IsAfter [] c d r = ground arith
replay_from-IsAfter (e ∷ log) c d r =
    let (m, first, rest) = >>=-eq-ok (project (some c) e) (λ x. replay_from (some x) log) r in
    let now = project-IsAfter c m e first in
    let later = replay_from-IsAfter log m d rest in
    record {
      same_id = later.same_id ∙ now.same_id;
      same_metadata = later.same_metadata ∙ now.same_metadata;
      same_created = later.same_created ∙ now.same_created;
      same_pdf = later.same_pdf ∙ now.same_pdf;
      decided = later.decided ∙ ap (λ o. last_decision o log) now.decided;
      coded = later.coded ∙ ap (λ o. last_codes o log) now.coded;
      referred = later.referred ∙ ap (λ o. last_ref o log) now.referred;
      updated = later.updated ∙ ap (λ o. last_time o log) now.updated;
    }

-- What the projection of a log promises of a claim, read off the log alone.
pub record IsView (e : DomainEvent) (log : List DomainEvent) (c : Claim) : Type 0 where
  pub opens : e.type ≡ claim_received
  pub named : c.claim_id ≡ e.claim_id
  pub submitted : e.payload.metadata ≡ some c.metadata
  pub created : c.created_at ≡ some e.occurred_at
  pub decided : c.decision ≡ last_decision none log
  pub coded : c.reason_codes ≡ last_codes [] log
  pub referred : c.ocr_ref ≡ last_ref none log
  pub updated : c.updated_at ≡ last_time (some e.occurred_at) log

opened-IsView : (e : DomainEvent) (c : Claim) → project none e ≡ ok c → IsView e [] c
unfolding project
opened-IsView e c h = ground arith

-- An accepted log begins with CLAIM_RECEIVED, which fixes the id, the metadata and the time of
-- creation; the decision and its reason codes are those of the last verdict, rules' or reviewer's,
-- the OCR reference that of the last OCR_COMPLETED, and the time of update that of the last event.
pub replay-IsView :
    (e : DomainEvent) (log : List DomainEvent) (c : Claim)
    → replay (e ∷ log) ≡ ok (some c)
    → IsView e log c
unfolding replay_from
replay-IsView e log c r =
    let (d, first, rest) = >>=-eq-ok (project none e) (λ x. replay_from (some x) log) r in
    let new = opened-IsView e d first in
    let later = replay_from-IsAfter log d c rest in
    record {
      opens = new.opens;
      named = later.same_id ∙ new.named;
      submitted = new.submitted ∙ ap some (sym later.same_metadata);
      created = later.same_created ∙ new.created;
      decided = later.decided ∙ ap (λ o. last_decision o log) new.decided;
      coded = later.coded ∙ ap (λ o. last_codes o log) new.coded;
      referred = later.referred ∙ ap (λ o. last_ref o log) new.referred;
      updated = later.updated ∙ ap (λ o. last_time o log) new.updated;
    }
