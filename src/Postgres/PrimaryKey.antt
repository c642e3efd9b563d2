-- ===== src/Postgres/PrimaryKey.antt =====
-- `claim_id TEXT PRIMARY KEY`: the table of claims has one row for each claim, in every run.
use insurance_claim_ai.Prelude.{
  ◌≡◌, inl, inr, refl, String, false, Option, List, [], ◌∷◌, ◌++◌, map, arith, any, ◌==◌, eq_iff,
  or_else,
}
use insurance_claim_ai.Domain.Errors.{ok, Result-cases}
use insurance_claim_ai.Domain.Models.{Claim}
use insurance_claim_ai.Domain.Events.{DomainEvent}
use insurance_claim_ai.Postgres.{Database, Columns, ClaimRow, is_row_of, update_claim, upsert_claim}
use insurance_claim_ai.Postgres.Append.{write, claim_row_of}
use insurance_claim_ai.Postgres.Queries.{mark_rows}
use insurance_claim_ai.Postgres.Runs.{
  Interleaving, Transaction, initial, begin, check, committed, rollback, relay, numbered, checked,
}

-- `claim_id TEXT PRIMARY KEY`
abbrev pub IsKeyed : List ClaimRow → Type 0
IsKeyed [] = Unit
IsKeyed (r ∷ rows) = (any (is_row_of r.claim_id) rows ≡ false) × IsKeyed rows

any-update_claim :
    (rows : List ClaimRow) (new : ClaimRow) (claim_id : String)
    → any (is_row_of claim_id) (map (update_claim new) rows) ≡ any (is_row_of claim_id) rows
any-update_claim [] new claim_id = refl
any-update_claim (r ∷ rows) new claim_id = ground (arith, any-update_claim rows new claim_id)

update_claim-IsKeyed :
    (rows : List ClaimRow) (new : ClaimRow) → IsKeyed rows → IsKeyed (map (update_claim new) rows)
update_claim-IsKeyed [] new h = tt
update_claim-IsKeyed (r ∷ rows) new h =
    (ground (arith, h.0, any-update_claim rows new r.claim_id), update_claim-IsKeyed rows new h.1)

any-append_one :
    (rows : List ClaimRow) (new : ClaimRow) (claim_id : String)
    → any (is_row_of claim_id) rows ≡ false
    → (new.claim_id == claim_id) ≡ false
    → any (is_row_of claim_id) (rows ++ new ∷ []) ≡ false
any-append_one [] new claim_id h i = ground arith
any-append_one (r ∷ rows) new claim_id h i = ground (arith, any-append_one rows new claim_id)

pub append-IsKeyed :
    (rows : List ClaimRow) (new : ClaimRow)
    → any (is_row_of new.claim_id) rows ≡ false
    → IsKeyed rows
    → IsKeyed (rows ++ new ∷ [])
append-IsKeyed [] new h i = (refl, tt)
append-IsKeyed (r ∷ rows) new h i = (
  any-append_one rows new r.claim_id i.0
      (ground (arith, eq_iff r.claim_id new.claim_id, eq_iff new.claim_id r.claim_id)),
  append-IsKeyed rows new (ground arith) i.1,
)

pub upsert_claim-IsKeyed :
    (rows rows' : List ClaimRow) (new : ClaimRow)
    → IsKeyed rows
    → upsert_claim rows new ≡ ok rows'
    → IsKeyed rows'
unfolding upsert_claim
upsert_claim-IsKeyed rows rows' new keyed h =
    ground (arith, update_claim-IsKeyed rows new keyed, append-IsKeyed rows new)

module _ (columns : Columns) where
  write-IsKeyed :
      (db db' : Database) (e : DomainEvent) (c : Claim) (key : Option String)
      → write columns db e c key ≡ ok db'
      → IsKeyed db.claims
      → IsKeyed db'.claims
  unfolding write
  write-IsKeyed db db' e c key h keyed =
      elim (Result-cases (
        columns.claim_row
          (claim_row_of e.claim_id c key (or_else c.created_at 0) (or_else c.updated_at 0)))) [
            | inl (row, taken) ↦
                ground (arith, taken, upsert_claim-IsKeyed db.claims db'.claims row keyed)
            | inr (x, refused) ↦ absurd (ground (arith, refused))
          ]

  -- The primary key of claims holds in every run.
  pub Interleaving-IsKeyed :
      (db : Database) (ts : List Transaction) → Interleaving columns db ts → IsKeyed db.claims
  unfolding mark_rows
  Interleaving-IsKeyed db ts initial = tt
  Interleaving-IsKeyed db ts (begin {ts = us} stamp claim_id type payload key r) =
      Interleaving-IsKeyed db us r
  Interleaving-IsKeyed db ts (check before after e c key h r) =
      Interleaving-IsKeyed db (before ++ numbered e key ∷ after) r
  Interleaving-IsKeyed db ts (committed {db = old} new before after e c key h r) =
      write-IsKeyed old db e c key h
        (Interleaving-IsKeyed old (before ++ checked e c key ∷ after) r)
  Interleaving-IsKeyed db ts (rollback before after t r) =
      Interleaving-IsKeyed db (before ++ t ∷ after) r
  Interleaving-IsKeyed db ts (relay {db = old} ids r) = Interleaving-IsKeyed old ts r
