-- ===== src/Postgres/Conflict.antt =====
-- Two transactions of PostgresEventStore on one claim, and a transaction against the in-memory
-- `append`.
use insurance_claim_ai.Prelude.{
  ◌+◌, ◌≤◌, ◌≡◌, inl, inr, ap, String, false, Option, List, ◌∷◌, ◌++◌, arith, length,
}
use insurance_claim_ai.Domain.Errors.{ok, is_ok}
use insurance_claim_ai.Domain.Models.{Claim}
use insurance_claim_ai.Domain.Events.{DomainEvent}
use insurance_claim_ai.EventStore.{EventStore, seq_of}
use insurance_claim_ai.EventStore.Reachable.{Reachable-IsConsistent}
use insurance_claim_ai.Postgres.{Database, Columns, IsLossless}
use insurance_claim_ai.Postgres.Append.{read_seq, write, append_row, commit_or_rollback}
use insurance_claim_ai.Postgres.Queries.{events}
use insurance_claim_ai.Postgres.Agree.{stamp_of}
use insurance_claim_ai.Postgres.Numbering.{write-taken, max_seq-seq_of, check_event-project}
use insurance_claim_ai.Postgres.Runs.{
  Interleaving, Transaction, checked, IsCurrent, Mirrors, Interleaving-Mirrors, All-split,
}
use insurance_claim_ai.Postgres.History.{events-log_of}

module _ (columns : Columns) (lossless : IsLossless columns) where
  checked-IsCurrent :
      (db : Database) (before after : List Transaction) (s : EventStore) (e : DomainEvent)
      (c : Claim) (key : Option String)
      → Mirrors db (before ++ checked e c key ∷ after) s
      → IsCurrent s (checked e c key)
  checked-IsCurrent db before after s e c key m =
      (All-split (IsCurrent s) before (checked e c key ∷ after) m.current).1.0

  read_seq-seq_of :
      (db : Database) (s : EventStore) (e : DomainEvent) (ts : List Transaction)
      → Mirrors db ts s
      → e.seq ≡ seq_of s e.claim_id + 1
      → read_seq db (stamp_of e) e.claim_id e.type e.payload ≡ e
  read_seq-seq_of db s e ts m next = ground (
    arith,
    max_seq-seq_of columns lossless db s e.claim_id m.agree (Reachable-IsConsistent s m.reachable),
  )

  -- A transaction that is committed, whatever came between its reads and its writes, does what it
  -- would have done had it run in one go at its commit.
  pub write-append_row :
      (db db' : Database) (before after : List Transaction) (e : DomainEvent) (c : Claim)
      (key : Option String)
      → Interleaving columns db (before ++ checked e c key ∷ after)
      → write columns db e c key ≡ ok db'
      → append_row columns db (stamp_of e) e.claim_id e.type e.payload key ≡ (ok e, db')
  unfolding append_row
  write-append_row db db' before after e c key r h =
      let ts = before ++ checked e c key ∷ after in
      let (s, m) = Interleaving-Mirrors columns lossless db ts r in
      let current = checked-IsCurrent db before after s e c key m in
      elim current.1 [
        | inl taken ↦ absurd (
            ground (
              arith,
              write-taken columns lossless db s e c key m.agree
                  (Reachable-IsConsistent s m.reachable) current.0 taken,
            ))
        | inr (next, accepted) ↦
            rw
              (
                read_seq-seq_of db s e ts m next,
                check_event-project columns lossless db s e m.agree,
                accepted,
              )
              (ap (commit_or_rollback db e) h)
      ]

  -- A transaction whose claim has got an event of its number in the meantime is refused.
  pub write-overtaken :
      (db : Database) (before after : List Transaction) (e : DomainEvent) (c : Claim)
      (key : Option String) (log : List DomainEvent)
      → Interleaving columns db (before ++ checked e c key ∷ after)
      → events db e.claim_id ≡ ok log
      → e.seq ≤ length log
      → is_ok (write columns db e c key) ≡ false
  write-overtaken db before after e c key log r read low =
      let ts = before ++ checked e c key ∷ after in
      let (s, m) = Interleaving-Mirrors columns lossless db ts r in
      let good = Reachable-IsConsistent s m.reachable in
      let current = checked-IsCurrent db before after s e c key m in
      let same =
        events-log_of columns lossless db s e.claim_id m.agree (good.numbered e.claim_id) in
      write-taken columns lossless db s e c key m.agree good current.0
        (ground (arith, good.counted e.claim_id, read, same))
