-- ===== src/Postgres/Keys.antt =====
-- `idempotency_key TEXT UNIQUE` of the claims table.
use insurance_claim_ai.Prelude.{
  ◌≡◌, inl, inr, refl, ap, ◌∙◌, String, Bool, true, false, Option, none, some, List, [], ◌∷◌, ◌++◌,
  map, arith, any, eq_iff, eq_refl, or_else,
}
use insurance_claim_ai.Domain.Errors.{Result, ok, err, is_ok, ◌>>=◌, Error, Result-cases}
use insurance_claim_ai.Domain.Models.{Claim}
use insurance_claim_ai.Domain.Events.{DomainEvent, EventType, Payload}
use insurance_claim_ai.EventStore.{Stamp, is_decision}
use insurance_claim_ai.Postgres.{
  Database, Columns, IsLossless, ClaimRow, is_row_of, update_claim, upsert_claim, same_key,
}
use insurance_claim_ai.Postgres.Append.{
  write, claim_row_of, load_claim, row_of, append_row, read_seq, check_event, commit_or_rollback,
}
use insurance_claim_ai.Postgres.Queries.{find_by_key, row_with_key, mark_rows}
use insurance_claim_ai.Postgres.Agree.{claim_row-cases, row_of-claim_id}
use insurance_claim_ai.Postgres.Runs.{
  Interleaving, Transaction, initial, begin, check, committed, rollback, relay, numbered, checked,
}

abbrev pub has_key : Option String → ClaimRow → Bool
has_key key r = same_key key r.idempotency_key

-- No two rows have one key.
abbrev pub IsUnique : List ClaimRow → Type 0
IsUnique [] = Unit
IsUnique (r ∷ rows) = (any (has_key r.idempotency_key) rows ≡ false) × IsUnique rows

any-update_key :
    (rows : List ClaimRow) (new : ClaimRow) (key : Option String)
    → any (has_key key) (map (update_claim new) rows) ≡ any (has_key key) rows
any-update_key [] new key = refl
any-update_key (r ∷ rows) new key = ground (arith, any-update_key rows new key)

update_claim-IsUnique :
    (rows : List ClaimRow) (new : ClaimRow) → IsUnique rows → IsUnique (map (update_claim new) rows)
update_claim-IsUnique [] new h = tt
update_claim-IsUnique (r ∷ rows) new h = (
  ground (arith, h.0, any-update_key rows new r.idempotency_key),
  update_claim-IsUnique rows new h.1,
)

same_key-swap : (k j : Option String) → same_key k j ≡ same_key j k
same_key-swap none none = refl
same_key-swap none (some j) = refl
same_key-swap (some k) none = refl
same_key-swap (some k) (some j) = ground (arith, eq_iff k j, eq_iff j k)

any-append_key :
    (rows : List ClaimRow) (new : ClaimRow) (key : Option String)
    → any (has_key key) rows ≡ false
    → same_key key new.idempotency_key ≡ false
    → any (has_key key) (rows ++ new ∷ []) ≡ false
any-append_key [] new key h i = ground arith
any-append_key (r ∷ rows) new key h i = ground (arith, any-append_key rows new key)

append-IsUnique :
    (rows : List ClaimRow) (new : ClaimRow)
    → any (has_key new.idempotency_key) rows ≡ false
    → IsUnique rows
    → IsUnique (rows ++ new ∷ [])
append-IsUnique [] new h i = (refl, tt)
append-IsUnique (r ∷ rows) new h i = (
  any-append_key rows new r.idempotency_key i.0
      (same_key-swap r.idempotency_key new.idempotency_key ∙ ground arith),
  append-IsUnique rows new (ground arith) i.1,
)

upsert_claim-IsUnique :
    (rows rows' : List ClaimRow) (new : ClaimRow)
    → IsUnique rows
    → upsert_claim rows new ≡ ok rows'
    → IsUnique rows'
unfolding upsert_claim
upsert_claim-IsUnique rows rows' new unique h =
    ground (arith, update_claim-IsUnique rows new unique, append-IsUnique rows new)

any-row_of :
    (rows : List ClaimRow) (claim_id k : String) (r : ClaimRow)
    → row_of rows claim_id ≡ some r
    → r.idempotency_key ≡ some k
    → any (has_key (some k)) rows ≡ true
any-row_of [] claim_id k r found keyed = absurd (cc)
any-row_of (q ∷ rows) claim_id k r found keyed =
    ground (arith, any-row_of rows claim_id k r, eq_refl k)

is_decision-some : (k : String) (key : Option String) → is_decision k key ≡ true → key ≡ some k
is_decision-some k none h = absurd (cc)
is_decision-some k (some j) h = ground (arith, eq_iff j k)

-- The row of a key is found, if no other has it.
row_with_key-row_of :
    (rows : List ClaimRow) (claim_id k : String) (r : ClaimRow)
    → IsUnique rows
    → row_of rows claim_id ≡ some r
    → r.idempotency_key ≡ some k
    → row_with_key rows k ≡ some r
row_with_key-row_of [] claim_id k r unique found keyed = absurd (cc)
row_with_key-row_of (q ∷ rows) claim_id k r unique found keyed = ground (
  arith,
  row_with_key-row_of rows claim_id k r unique.1,
  any-row_of rows claim_id k r,
  unique.0,
  eq_iff q.claim_id claim_id,
  eq_refl k,
  is_decision-some k q.idempotency_key,
)

module _ (columns : Columns) where
  write-IsUnique :
      (db db' : Database) (e : DomainEvent) (c : Claim) (key : Option String)
      → write columns db e c key ≡ ok db'
      → IsUnique db.claims
      → IsUnique db'.claims
  unfolding write
  write-IsUnique db db' e c key h unique =
      elim (Result-cases (
        columns.claim_row
          (claim_row_of e.claim_id c key (or_else c.created_at 0) (or_else c.updated_at 0)))) [
            | inl (row, taken) ↦
                ground (arith, taken, upsert_claim-IsUnique db.claims db'.claims row unique)
            | inr (x, refused) ↦ absurd (ground (arith, refused))
          ]

  Interleaving-IsUnique :
      (db : Database) (ts : List Transaction) → Interleaving columns db ts → IsUnique db.claims
  unfolding mark_rows
  Interleaving-IsUnique db ts initial = tt
  Interleaving-IsUnique db ts (begin {ts = us} stamp claim_id type payload key r) =
      Interleaving-IsUnique db us r
  Interleaving-IsUnique db ts (check before after e c key h r) =
      Interleaving-IsUnique db (before ++ numbered e key ∷ after) r
  Interleaving-IsUnique db ts (committed {db = old} new before after e c key h r) =
      write-IsUnique old db e c key h
        (Interleaving-IsUnique old (before ++ checked e c key ∷ after) r)
  Interleaving-IsUnique db ts (rollback before after t r) =
      Interleaving-IsUnique db (before ++ t ∷ after) r
  Interleaving-IsUnique db ts (relay {db = old} ids r) = Interleaving-IsUnique old ts r

  -- After any interleaving, the key of a claim's row leads to the claim.
  pub find_by_key-load_claim :
      (db : Database) (ts : List Transaction) (claim_id k : String) (r : ClaimRow)
      → Interleaving columns db ts
      → row_of db.claims claim_id ≡ some r
      → r.idempotency_key ≡ some k
      → find_by_key db k ≡ load_claim db claim_id
  unfolding find_by_key load_claim
  find_by_key-load_claim db ts claim_id k r run found keyed =
      rw (row_with_key-row_of db.claims claim_id k r (Interleaving-IsUnique db ts run) found keyed)
        (ap (λ i. load_claim db i) (row_of-claim_id db.claims claim_id r found))

module _ (columns : Columns) (lossless : IsLossless columns) where
  write-same_key :
      (db : Database) (e : DomainEvent) (c : Claim) (key : Option String)
      → any (is_row_of e.claim_id) db.claims ≡ false
      → any (has_key key) db.claims ≡ true
      → is_ok (write columns db e c key) ≡ false
  unfolding write upsert_claim
  write-same_key db e c key new held = ground (
    arith,
    claim_row-cases columns lossless
        (claim_row_of e.claim_id c key (or_else c.created_at 0) (or_else c.updated_at 0)),
  )

  refused-same_key :
      (db : Database) (e : DomainEvent) (key : Option String) (checked_claim : Result Claim)
      → any (is_row_of e.claim_id) db.claims ≡ false
      → any (has_key key) db.claims ≡ true
      → (x : Error) × (commit_or_rollback db e (checked_claim >>= λ c. write columns db e c key)
          ≡ (err x, db))
  refused-same_key db e key (err x) new held = (x, refl)
  refused-same_key db e key (ok c) new held = elim (Result-cases (write columns db e c key)) [
    | inl (db', stored) ↦ absurd (ground (arith, stored, write-same_key db e c key new held))
    | inr (x, refused) ↦ (x, ap (commit_or_rollback db e) refused)
  ]

  -- A key that the row of a claim has, the empty text too, refuses every claim that has no row.
  pub append_row-same_key :
      (db : Database) (stamp : Stamp) (claim_id : String) (type : EventType) (payload : Payload)
      (key : Option String)
      → any (is_row_of claim_id) db.claims ≡ false
      → any (has_key key) db.claims ≡ true
      → (x : Error) × (append_row columns db stamp claim_id type payload key ≡ (err x, db))
  unfolding append_row
  append_row-same_key db stamp claim_id type payload key new held =
      let e = read_seq db stamp claim_id type payload in
      refused-same_key db e key (check_event db e) new held
