-- ===== src/Postgres/Runs.antt =====
-- Transactions of PostgresEventStore that run at the same time, statement by statement: a statement
-- reads what is committed by then, and the writes of a transaction take place at its committed.
use insurance_claim_ai.Prelude.{
  ◌+◌, ◌≤◌, ◌≡◌, ◌⊎◌, inl, inr, ap, String, Option, List, [], ◌∷◌, ◌++◌, arith, eq_iff, All, get,
  get-put,
}
use insurance_claim_ai.Domain.Errors.{ok}
use insurance_claim_ai.Domain.Models.{Claim}
use insurance_claim_ai.Domain.Events.{DomainEvent, EventType, Payload}
use insurance_claim_ai.Projection.{project}
use insurance_claim_ai.EventStore.{EventStore, Stamp, seq_of, append, mark_published, empty}
use insurance_claim_ai.EventStore.Frame.{append-Appended}
use insurance_claim_ai.EventStore.Reachable.{
  Reachable, start, append_step, relayed, Reachable-IsConsistent,
}
use insurance_claim_ai.Postgres.{Database, Columns, IsLossless, empty_database}
use insurance_claim_ai.Postgres.Append.{read_seq, check_event, write}
use insurance_claim_ai.Postgres.Queries.{mark_rows}
use insurance_claim_ai.Postgres.Agree.{Agree, stamp_of, write-Agree, mark_rows-Agree, empty-Agree}
use insurance_claim_ai.Postgres.Numbering.{write-taken, max_seq-seq_of, check_event-project}

-- A transaction under way, by what it has read: the number of its event, then the claim, too.
pub data Transaction : Type 0 where
  numbered : DomainEvent → Option String → Transaction
  checked : DomainEvent → Claim → Option String → Transaction

module _ (columns : Columns) where
  -- The committed rows and the transactions under way that any interleaving leads to.
  pub data Interleaving : Database → List Transaction → Type 0 where
    initial : Interleaving empty_database []
    begin :
        {db : Database} {ts : List Transaction} (stamp : Stamp) (claim_id : String)
        (type : EventType) (payload : Payload) (key : Option String)
        → Interleaving db ts
        → Interleaving db (numbered (read_seq db stamp claim_id type payload) key ∷ ts)
    check :
        {db : Database} (before after : List Transaction) (e : DomainEvent) (c : Claim)
        (key : Option String)
        → check_event db e ≡ ok c
        → Interleaving db (before ++ numbered e key ∷ after)
        → Interleaving db (before ++ checked e c key ∷ after)
    committed :
        {db : Database} (db' : Database) (before after : List Transaction) (e : DomainEvent)
        (c : Claim) (key : Option String)
        → write columns db e c key ≡ ok db'
        → Interleaving db (before ++ checked e c key ∷ after)
        → Interleaving db' (before ++ after)
    rollback :
        {db : Database} (before after : List Transaction) (t : Transaction)
        → Interleaving db (before ++ t ∷ after)
        → Interleaving db (before ++ after)
    relay :
        {db : Database} {ts : List Transaction} (ids : List String)
        → Interleaving db ts
        → Interleaving (mark_rows db ids) ts

-- A number that was read is not past the next one.
abbrev pub IsCurrent : EventStore → Transaction → Type 0
IsCurrent s (numbered e key) = (1 ≤ e.seq) × (e.seq ≤ seq_of s e.claim_id + 1)
IsCurrent s (checked e c key) =
    (1 ≤ e.seq)
    × ((e.seq ≤ seq_of s e.claim_id)
        ⊎ ((e.seq ≡ seq_of s e.claim_id + 1) × (project (get s.claims e.claim_id) e ≡ ok c)))

All-append {ℓ κ} :
    {A : Type ℓ} (P : A → Type κ) (xs ys : List A) → All P xs → All P ys → All P (xs ++ ys)
All-append P [] ys h i = i
All-append P (x ∷ xs) ys h i = (h.0, All-append P xs ys h.1 i)

pub All-split {ℓ κ} :
    {A : Type ℓ} (P : A → Type κ) (xs ys : List A) → All P (xs ++ ys) → All P xs × All P ys
All-split P [] ys h = (tt, h)
All-split P (x ∷ xs) ys h = let (front, back) = All-split P xs ys h.1 in ((h.0, front), back)

All-map {ℓ κ ι} :
    {A : Type ℓ} (P : A → Type κ) (Q : A → Type ι)
    → ((x : A) → P x → Q x)
    → (xs : List A) → All P xs
    → All Q xs
All-map P Q f [] h = tt
All-map P Q f (x ∷ xs) h = (f x h.0, All-map P Q f xs h.1)

-- Another transaction's committed takes the number of one for the same claim, and leaves others current.
append-IsCurrent :
    (s s' : EventStore) (stamp : Stamp) (claim_id : String) (type : EventType) (payload : Payload)
    (key : Option String) (e : DomainEvent) (t : Transaction)
    → append s stamp claim_id type payload key ≡ (ok e, s')
    → IsCurrent s t
    → IsCurrent s' t
append-IsCurrent s s' stamp claim_id type payload key e (numbered d k) h current =
    let a = append-Appended s stamp claim_id type payload key e s' h in
    ground (
      arith,
      a.seq_eq,
      get-put s.seq claim_id d.claim_id (seq_of s claim_id + 1),
      eq_iff claim_id d.claim_id,
    )
append-IsCurrent s s' stamp claim_id type payload key e (checked d c k) h current =
    let a = append-Appended s stamp claim_id type payload key e s' h in
    ground (
      arith,
      a.seq_eq,
      get-put s.seq claim_id d.claim_id (seq_of s claim_id + 1),
      a.claims_eq,
      get-put s.claims claim_id d.claim_id a.claim,
      eq_iff claim_id d.claim_id,
    )

All-IsCurrent :
    (s s' : EventStore) (stamp : Stamp) (claim_id : String) (type : EventType) (payload : Payload)
    (key : Option String) (e : DomainEvent) (ts : List Transaction)
    → append s stamp claim_id type payload key ≡ (ok e, s')
    → All (IsCurrent s) ts
    → All (IsCurrent s') ts
All-IsCurrent s s' stamp claim_id type payload key e [] h current = tt
All-IsCurrent s s' stamp claim_id type payload key e (t ∷ ts) h current = (
  append-IsCurrent s s' stamp claim_id type payload key e t h current.0,
  All-IsCurrent s s' stamp claim_id type payload key e ts h current.1,
)

-- What a run leaves is what calls of the in-memory store leave.
pub record Mirrors (db : Database) (ts : List Transaction) (s : EventStore) : Type 0 where
  pub reachable : Reachable s
  pub agree : Agree db s
  pub current : All (IsCurrent s) ts

module _ (columns : Columns) (lossless : IsLossless columns) where
  begin-Mirrors :
      (db : Database) (ts : List Transaction) (s : EventStore) (stamp : Stamp) (claim_id : String)
      (type : EventType) (payload : Payload) (key : Option String)
      → Mirrors db ts s
      → Mirrors db (numbered (read_seq db stamp claim_id type payload) key ∷ ts) s
  begin-Mirrors db ts s stamp claim_id type payload key m = record {
    reachable = m.reachable;
    agree = m.agree;
    current = (
      (
        omega arith,
        omega (
          arith,
          max_seq-seq_of columns lossless db s claim_id m.agree
              (Reachable-IsConsistent s m.reachable),
        ),
      ),
      m.current,
    );
  }

  check-Mirrors :
      (db : Database) (before after : List Transaction) (s : EventStore) (e : DomainEvent)
      (c : Claim) (key : Option String)
      → check_event db e ≡ ok c
      → Mirrors db (before ++ numbered e key ∷ after) s
      → Mirrors db (before ++ checked e c key ∷ after) s
  check-Mirrors db before after s e c key h m =
      let (front, back) = All-split (IsCurrent s) before (numbered e key ∷ after) m.current in
      let same = check_event-project columns lossless db s e m.agree in
      record {
        reachable = m.reachable;
        agree = m.agree;
        current =
            All-append (IsCurrent s) before (checked e c key ∷ after) front
              (ground (arith, same), back.1);
      }

  rollback-Mirrors :
      (db : Database) (before after : List Transaction) (t : Transaction) (s : EventStore)
      → Mirrors db (before ++ t ∷ after) s
      → Mirrors db (before ++ after) s
  rollback-Mirrors db before after t s m =
      let (front, back) = All-split (IsCurrent s) before (t ∷ after) m.current in
      record {
        reachable = m.reachable;
        agree = m.agree;
        current = All-append (IsCurrent s) before after front back.1;
      }

  committed-Mirrors :
      (db db' : Database) (before after : List Transaction) (s : EventStore) (e : DomainEvent)
      (c : Claim) (key : Option String)
      → write columns db e c key ≡ ok db'
      → Mirrors db (before ++ checked e c key ∷ after) s
      → (s' : EventStore) × Mirrors db' (before ++ after) s'
  committed-Mirrors db db' before after s e c key h m =
      let (front, back) = All-split (IsCurrent s) before (checked e c key ∷ after) m.current in
      elim back.0.1 [
        | inl taken ↦ absurd (
            ground (
              arith,
              write-taken columns lossless db s e c key m.agree
                  (Reachable-IsConsistent s m.reachable) back.0.0 taken,
            ))
        | inr (next, accepted) ↦
            let (w, (s', same, agree)) =
              write-Agree columns lossless db db' s e c key m.agree next accepted h in
            (
              s',
              record {
                reachable =
                    rw (← ap (λ r. r.1) same)
                      (append_step (stamp_of e) e.claim_id e.type e.payload key w m.reachable);
                agree = agree;
                current =
                    All-append (IsCurrent s') before after
                      (All-IsCurrent s s' (stamp_of e) e.claim_id e.type e.payload key e before same
                        front)
                      (All-IsCurrent s s' (stamp_of e) e.claim_id e.type e.payload key e after same
                        back.1);
              },
            )
      ]

  relay-IsCurrent :
      (s : EventStore) (ids : List String) (t : Transaction)
      → IsCurrent s t
      → IsCurrent (mark_published s ids) t
  unfolding mark_published
  relay-IsCurrent s ids (numbered e k) h = h
  relay-IsCurrent s ids (checked e c k) h = h

  -- Whatever the interleaving, some sequence of calls of the in-memory store, one after the other,
  -- leaves the same logs, the same claims and the same outbox as the committed rows; and a transaction
  -- under way has read a number that is the next one, with a claim that is projected from the present
  -- one, or a number that is taken by now.
  pub Interleaving-Mirrors :
      (db : Database) (ts : List Transaction)
      → Interleaving columns db ts
      → (s : EventStore) × Mirrors db ts s
  Interleaving-Mirrors db ts initial =
      (empty, record { reachable = start; agree = empty-Agree columns lossless; current = tt })
  Interleaving-Mirrors db ts (begin {ts = us} stamp claim_id type payload key r) =
      let (s, m) = Interleaving-Mirrors db us r in
      (s, begin-Mirrors db us s stamp claim_id type payload key m)
  Interleaving-Mirrors db ts (check before after e c key h r) =
      let (s, m) = Interleaving-Mirrors db (before ++ numbered e key ∷ after) r in
      (s, check-Mirrors db before after s e c key h m)
  Interleaving-Mirrors db ts (committed {db = old} new before after e c key h r) =
      let (s, m) = Interleaving-Mirrors old (before ++ checked e c key ∷ after) r in
      committed-Mirrors old db before after s e c key h m
  Interleaving-Mirrors db ts (rollback before after t r) =
      let (s, m) = Interleaving-Mirrors db (before ++ t ∷ after) r in
      (s, rollback-Mirrors db before after t s m)
  Interleaving-Mirrors db ts (relay {db = old} ids r) =
      let (s, m) = Interleaving-Mirrors old ts r in
      (
        mark_published s ids,
        record {
          reachable = relayed ids m.reachable;
          agree = mark_rows-Agree columns lossless old s ids m.agree;
          current =
              All-map (IsCurrent s) (IsCurrent (mark_published s ids)) (relay-IsCurrent s ids) ts
                m.current;
        },
      )
