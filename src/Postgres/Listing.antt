-- ===== src/Postgres/Listing.antt =====
-- The queries of PostgresEventStore over all claims.
use insurance_claim_ai.Prelude.{
  ◌≡◌, inl, inr, refl, sym, ap, ◌∙◌, String, Bool, true, false, Option, none, some, List, [], ◌∷◌,
  map, arith, All, get, any, is_yes, ◌==◌, eq_iff, eq_refl, keep_if, Bool-cases,
}
use insurance_claim_ai.Domain.Errors.{ok, err, is_ok, Error, Result-cases, ok-injective}
use insurance_claim_ai.Domain.Models.{Claim, ClaimStatus, ClaimStatus-discrete, adjudicated}
use insurance_claim_ai.Domain.Names.{
  status_text, status_named, text-status_named, named-status_text,
}
use insurance_claim_ai.EventStore.{awaits_review}
use insurance_claim_ai.Postgres.{Database, Columns, IsLossless, ClaimRow, is_row_of}
use insurance_claim_ai.Postgres.Append.{load_claim, row_of, read_row, read_claim}
use insurance_claim_ai.Postgres.Queries.{claims_with, pending_review, is_pending, get_all}
use insurance_claim_ai.Postgres.PrimaryKey.{IsKeyed, Interleaving-IsKeyed}
use insurance_claim_ai.Postgres.Runs.{Interleaving, Transaction, Interleaving-Mirrors}

abbrev row_has_status : String → Option ClaimRow → Bool
row_has_status status none = false
row_has_status status (some r) = r.status == status

abbrev pub has_status : ClaimStatus → Option Claim → Bool
has_status status none = false
has_status status (some c) = is_yes (ClaimStatus-discrete c.status status)

any-no_row :
    (rows : List ClaimRow) (claim_id : String) (p : ClaimRow → Bool)
    → any (is_row_of claim_id) rows ≡ false
    → any (λ i. i == claim_id) (map (λ r. r.claim_id) (keep_if p rows)) ≡ false
any-no_row [] claim_id p h = refl
any-no_row (r ∷ rows) claim_id p h = ground (arith, any-no_row rows claim_id p)

any-keep_if :
    (rows : List ClaimRow) (status claim_id : String)
    → IsKeyed rows
    → any (λ i. i == claim_id) (map (λ r. r.claim_id) (keep_if (λ r. r.status == status) rows))
      ≡ row_has_status status (row_of rows claim_id)
any-keep_if [] status claim_id h = refl
any-keep_if (r ∷ rows) status claim_id h = ground (
  arith,
  any-keep_if rows status claim_id h.1,
  any-no_row rows claim_id (λ r. r.status == status),
  eq_iff r.claim_id claim_id,
)

same_text :
    (s t : ClaimStatus) → (status_text s == status_text t) ≡ is_yes (ClaimStatus-discrete s t)
same_text s t =
    elim (ClaimStatus-discrete s t) as (λ d. (status_text s == status_text t) ≡ is_yes d) [
      | yes same ↦ rw same (eq_refl (status_text t))
      | no apart ↦ elim (Bool-cases (status_text s == status_text t)) [
        | inl same ↦ absurd (
            apart (
              ok-injective (
                sym (named-status_text s)
                ∙ ap status_named ((eq_iff (status_text s) (status_text t)).0 same)
                ∙ named-status_text t)))
        | inr other ↦ other
      ]
    ]

row_has_status-has_status :
    (row : Option ClaimRow) (claim : Option Claim) (status : ClaimStatus)
    → read_row row ≡ ok claim
    → row_has_status (status_text status) row ≡ has_status status claim
unfolding read_claim ClaimStatus-discrete
row_has_status-has_status none claim status h = ground arith
row_has_status-has_status (some r) claim status h = elim (Result-cases (status_named r.status)) [
  | inl (read, named) ↦
      ground (arith, named, text-status_named r.status read named, same_text read status)
  | inr (x, unnamed) ↦ absurd (ground (arith, unnamed))
]

-- The row that a query meets is the row of its claim.
abbrev IsFound : List ClaimRow → ClaimRow → Type 0
IsFound rows r = row_of rows r.claim_id ≡ some r

IsFound-past :
    (rows : List ClaimRow) (r : ClaimRow) (some_rows : List ClaimRow)
    → any (is_row_of r.claim_id) some_rows ≡ false
    → All (IsFound rows) some_rows
    → All (IsFound (r ∷ rows)) some_rows
IsFound-past rows r [] h found = tt
IsFound-past rows r (q ∷ some_rows) h found = (
  ground (arith, found.0, eq_iff r.claim_id q.claim_id, eq_iff q.claim_id r.claim_id),
  IsFound-past rows r some_rows (ground arith) found.1,
)

IsKeyed-IsFound : (rows : List ClaimRow) → IsKeyed rows → All (IsFound rows) rows
IsKeyed-IsFound [] h = tt
IsKeyed-IsFound (r ∷ rows) h =
    (ground (arith, eq_refl r.claim_id), IsFound-past rows r rows h.0 (IsKeyed-IsFound rows h.1))

abbrev row_is_pending : Option ClaimRow → Bool
row_is_pending none = false
row_is_pending (some r) = is_pending r

abbrev pub waits : Option Claim → Bool
waits none = false
waits (some c) = awaits_review c

row_is_pending-waits :
    (row : Option ClaimRow) (claim : Option Claim)
    → read_row row ≡ ok claim
    → row_is_pending row ≡ waits claim
unfolding read_claim
row_is_pending-waits none claim h = ground arith
row_is_pending-waits (some r) claim h = elim (Result-cases (status_named r.status)) [
  | inl (read, named) ↦
      ground (arith, named, text-status_named r.status read named, same_text read adjudicated)
  | inr (x, unnamed) ↦ absurd (ground (arith, unnamed))
]

row_of-none :
    (rows : List ClaimRow) (claim_id : String)
    → any (is_row_of claim_id) rows ≡ false
    → row_of rows claim_id ≡ none
row_of-none [] claim_id h = refl
row_of-none (r ∷ rows) claim_id h = ground (arith, row_of-none rows claim_id)

read_claim-claim_id : (r : ClaimRow) (c : Claim) → read_claim r ≡ ok c → c.claim_id ≡ r.claim_id
unfolding read_claim
read_claim-claim_id r c h = ground arith

get_all-next :
    (db : Database) (r : ClaimRow) (rows : List ClaimRow) (c : Claim) (cs : List Claim)
    → IsFound db.claims r
    → read_claim r ≡ ok c
    → get_all db rows ≡ ok cs
    → get_all db (r ∷ rows) ≡ ok (c ∷ cs)
unfolding load_claim
get_all-next db r rows c cs found read rest = rw (found, read, rest) refl

unreadable :
    (db : Database) (r : ClaimRow) (x : Error)
    → IsFound db.claims r
    → read_claim r ≡ err x
    → is_ok (load_claim db r.claim_id) ≡ true
    → ⊥
unfolding load_claim
unreadable db r x found unread readable = ground arith

-- The claims that `get_all` collects, by their ids.
get_all-pending :
    (db : Database) (rows : List ClaimRow)
    → ((j : String) → is_ok (load_claim db j) ≡ true)
    → All (IsFound db.claims) rows
    → IsKeyed rows
    → (cs : List Claim) × (get_all db (keep_if is_pending rows) ≡ ok cs)
      × ((j : String) → any (λ c. c.claim_id == j) cs ≡ row_is_pending (row_of rows j))
get_all-pending db [] readable found keyed = ([], refl, λ j. refl)
get_all-pending db (r ∷ rows) readable found keyed =
    let (cs, rest, listed) = get_all-pending db rows readable found.1 keyed.1 in
    elim (Bool-cases (is_pending r)) [
      | inr passed ↦ (
        cs,
        rw passed rest,
        λ j.
            ground
              (arith, passed, listed j, row_of-none rows r.claim_id keyed.0, eq_iff r.claim_id j),
      )
      | inl waiting ↦ elim (Result-cases (read_claim r)) [
        | inl (c, read) ↦ (
          c ∷ cs,
          rw waiting (get_all-next db r (keep_if is_pending rows) c cs found.0 read rest),
          λ j. ground (
            arith,
            waiting,
            listed j,
            row_of-none rows r.claim_id keyed.0,
            eq_iff r.claim_id j,
            read_claim-claim_id r c read,
          ),
        )
        | inr (x, unread) ↦ absurd (unreadable db r x found.0 unread (readable r.claim_id))
      ]
    ]

module _ (columns : Columns) (lossless : IsLossless columns) where
  -- After any interleaving, `list_by_status` answers with the claims that are at the status.
  pub claims_with-has_status :
      (db : Database) (ts : List Transaction) (status : ClaimStatus) (claim_id : String)
      → Interleaving columns db ts
      → (claim : Option Claim) × (load_claim db claim_id ≡ ok claim)
        × (any (λ i. i == claim_id) (claims_with db (status_text status)) ≡ has_status status claim)
  unfolding claims_with load_claim
  claims_with-has_status db ts status claim_id r =
      let (s, m) = Interleaving-Mirrors columns lossless db ts r in
      (
        get s.claims claim_id,
        m.agree.held claim_id,
        any-keep_if db.claims (status_text status) claim_id (Interleaving-IsKeyed columns db ts r)
            ∙ row_has_status-has_status (row_of db.claims claim_id) (get s.claims claim_id) status
                (m.agree.held claim_id),
      )

  -- After any interleaving, the work queue answers, and with just the claims at ADJUDICATED whose
  -- decision is PEND.
  pub pending_review-waits :
      (db : Database) (ts : List Transaction)
      → Interleaving columns db ts
      → (cs : List Claim) × (pending_review db ≡ ok cs)
        × ((claim_id : String)
            → (claim : Option Claim) × (load_claim db claim_id ≡ ok claim)
              × (any (λ c. c.claim_id == claim_id) cs ≡ waits claim))
  unfolding pending_review load_claim
  pending_review-waits db ts r =
      let (s, m) = Interleaving-Mirrors columns lossless db ts r in
      let keyed = Interleaving-IsKeyed columns db ts r in
      let (cs, collected, listed) =
        get_all-pending db db.claims (λ j. rw (m.agree.held j) refl)
          (IsKeyed-IsFound db.claims keyed) keyed in
      (
        cs,
        collected,
        λ j. (
          get s.claims j,
          m.agree.held j,
          listed j ∙ row_is_pending-waits (row_of db.claims j) (get s.claims j) (m.agree.held j),
        ),
      )
