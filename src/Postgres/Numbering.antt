-- ===== src/Postgres/Numbering.antt =====
-- The numbers that transactions read and the check of their event, against the in-memory store.
use insurance_claim_ai.Prelude.{◌≤◌, ◌≡◌, refl, sym, ◌∙◌, String, false, Option, arith, get}
use insurance_claim_ai.Domain.Errors.{is_ok}
use insurance_claim_ai.Domain.Models.{Claim}
use insurance_claim_ai.Domain.Events.{DomainEvent}
use insurance_claim_ai.Projection.{project}
use insurance_claim_ai.EventStore.{EventStore, log_of, seq_of}
use insurance_claim_ai.EventStore.Invariant.{IsConsistent}
use insurance_claim_ai.Postgres.{Database, Columns, IsLossless, max_seq}
use insurance_claim_ai.Postgres.Append.{check_event, event_row_of, write}
use insurance_claim_ai.Postgres.Rows.{insert_event-taken, max_seq-length}
use insurance_claim_ai.Postgres.Agree.{Agree, event_row-cases}

module _ (columns : Columns) (lossless : IsLossless columns) where
  -- `COALESCE(MAX(seq), 0)` is the number of the claim's last event.
  pub max_seq-seq_of :
      (db : Database) (s : EventStore) (claim_id : String)
      → Agree db s
      → IsConsistent s
      → max_seq claim_id db.claim_events ≡ seq_of s claim_id
  max_seq-seq_of db s claim_id agree good =
      max_seq-length db.claim_events (log_of s claim_id) claim_id (agree.logged claim_id)
        (good.numbered claim_id)
      ∙ sym (good.counted claim_id)

  pub check_event-project :
      (db : Database) (s : EventStore) (e : DomainEvent)
      → Agree db s
      → check_event db e ≡ project (get s.claims e.claim_id) e
  unfolding check_event
  check_event-project db s e agree = rw (agree.held e.claim_id) refl

  -- A transaction whose number another took in the meantime writes nothing.
  pub write-taken :
      (db : Database) (s : EventStore) (e : DomainEvent) (c : Claim) (key : Option String)
      → Agree db s
      → IsConsistent s
      → 1 ≤ e.seq
      → e.seq ≤ seq_of s e.claim_id
      → is_ok (write columns db e c key) ≡ false
  unfolding write
  write-taken db s e c key agree good low high = ground (
    arith,
    event_row-cases columns lossless (event_row_of e),
    insert_event-taken db.claim_events (log_of s e.claim_id) (event_row_of e)
        (agree.logged e.claim_id) (good.numbered e.claim_id) low
        (omega (arith, good.counted e.claim_id)),
  )
