-- ===== src/Examples/Persisting.antt =====
-- The tables of PostgresEventStore at concrete inputs.
use insurance_claim_ai.Prelude.{
  ◌≡◌, ◌⊎◌, refl, sym, String, true, false, Option, none, some, List, [], ◌∷◌, arith, get, any,
  ◌==◌,
}
use insurance_claim_ai.Domain.Errors.{ok, err, is_ok, ok-injective, Error}
use insurance_claim_ai.Domain.Models.{Claim, received, adjudicated, ClaimStatus-discrete}
use insurance_claim_ai.Domain.Events.{
  DomainEvent, claim_received, claim_adjudicated, review_completed,
}
use insurance_claim_ai.Domain.Names.{status_named, type_named}
use insurance_claim_ai.EventStore.{append, empty, Stamp, EventStore, next_event}
use insurance_claim_ai.Projection.{project}
use insurance_claim_ai.Examples.Data.{claim_at, decided_at, receipt, verdict, stamp_one, stamp_two}
use insurance_claim_ai.Postgres.{
  Database, Columns, IsLossless, empty_database, insert_event, upsert_claim, insert_outbox,
}
use insurance_claim_ai.Postgres.Append.{
  read_seq, check_event, write, append_row, load_claim, read_claim, event_row_of, claim_row_of,
  queue_row_of,
}
use insurance_claim_ai.Postgres.Queries.{events}
use insurance_claim_ai.Postgres.Runs.{
  Interleaving, Transaction, initial, begin, check, committed, numbered, checked, Mirrors,
  Interleaving-Mirrors,
}
use insurance_claim_ai.Postgres.History.{IsHistory, Interleaving-IsHistory}
use insurance_claim_ai.EventStore.Reachable.{empty-IsConsistent}
use insurance_claim_ai.Postgres.Queries.{read_event, pending_review}
use insurance_claim_ai.Postgres.Agree.{Agree, stamp_of, empty-Agree}
use insurance_claim_ai.Postgres.Refinement.{append_row-append, append_row-stored, IsTaken, IsFresh}
use insurance_claim_ai.Postgres.Listing.{waits, pending_review-waits}
use insurance_claim_ai.Postgres.Keys.{append_row-same_key}
use insurance_claim_ai.Postgres.Conflict.{write-append_row, write-overtaken}

-- Columns that take every row.
abbrev pub open_columns : Columns
open_columns = record { event_row = ok; claim_row = ok; model_row = ok; reread = ok }

pub open_columns-IsLossless : IsLossless open_columns
open_columns-IsLossless = record {
  event_row-eq = λ r r' h. ok-injective (sym h);
  claim_row-eq = λ r r' h. ok-injective (sym h);
  model_row-eq = λ r r' h. ok-injective (sym h);
  reread-eq = λ e. refl;
}

abbrev stamp_three : Stamp
stamp_three = record { id = "e3"; now = 3 }

-- The receipt of a claim, a verdict of the rules and one of a reviewer.
abbrev receipt_event : DomainEvent
receipt_event = read_seq empty_database stamp_one "c1" claim_received receipt

abbrev pub received_database : Database
received_database = record {
  claim_events = event_row_of receipt_event ∷ [];
  claims = claim_row_of "c1" (claim_at received) (some "k1") 1 1 ∷ [];
  outbox = queue_row_of receipt_event ∷ [];
  model_outputs = [];
}

abbrev rules_event : DomainEvent
rules_event = read_seq received_database stamp_two "c1" claim_adjudicated (verdict "PEND")

abbrev review_event : DomainEvent
review_event = read_seq received_database stamp_three "c1" review_completed (verdict "APPROVE")

abbrev ruled_claim : Claim
ruled_claim = record (decided_at adjudicated "PEND") {
  reason_codes = "R" ∷ [];
  updated_at = some 2;
}

abbrev reviewed_claim : Claim
reviewed_claim = record (decided_at received "APPROVE") {
  reason_codes = "R" ∷ [];
  updated_at = some 3;
}

-- The reviewer's transaction, which has read and not yet written.
abbrev late_review : List Transaction
late_review = checked review_event reviewed_claim none ∷ []

abbrev ruled_database : Database
ruled_database = record {
  claim_events = event_row_of receipt_event ∷ event_row_of rules_event ∷ [];
  claims = claim_row_of "c1" ruled_claim (some "k1") 1 2 ∷ [];
  outbox = queue_row_of receipt_event ∷ queue_row_of rules_event ∷ [];
  model_outputs = [];
}

pub received_run : Interleaving open_columns received_database []
unfolding check_event load_claim project write insert_event upsert_claim insert_outbox
received_run =
    committed received_database [] [] receipt_event (claim_at received) (some "k1") refl (
      check [] [] receipt_event (claim_at received) (some "k1") refl
        (begin stamp_one "c1" claim_received receipt (some "k1") initial))

-- Both verdicts are checked on the claim as received, before either is written.
both_run :
    Interleaving open_columns received_database
      (checked review_event reviewed_claim none ∷ checked rules_event ruled_claim none ∷ [])
unfolding check_event load_claim read_claim status_named project ClaimStatus-discrete
both_run =
    check [] (checked rules_event ruled_claim none ∷ []) review_event reviewed_claim none refl (
      check (numbered review_event none ∷ []) [] rules_event ruled_claim none refl (
        begin stamp_three "c1" review_completed (verdict "APPROVE") none
          (begin stamp_two "c1" claim_adjudicated (verdict "PEND") none received_run)))

rules_written :
    write open_columns received_database rules_event ruled_claim none ≡ ok ruled_database
unfolding write insert_event upsert_claim insert_outbox
rules_written = refl

ruled_run : Interleaving open_columns ruled_database late_review
ruled_run =
    committed ruled_database late_review [] rules_event ruled_claim none rules_written both_run

Interleaving-IsHistory_example :
    (log : List DomainEvent) × (claim : Option Claim) × (queue : List DomainEvent) × IsHistory
      open_columns ruled_database "c1" log claim queue
Interleaving-IsHistory_example =
    Interleaving-IsHistory open_columns open_columns-IsLossless ruled_database late_review "c1"
      ruled_run

Interleaving-Mirrors_example : (s : EventStore) × Mirrors ruled_database late_review s
Interleaving-Mirrors_example =
    Interleaving-Mirrors open_columns open_columns-IsLossless ruled_database late_review ruled_run

write-append_row_example :
    append_row open_columns received_database
      (stamp_of rules_event)
      "c1"
      claim_adjudicated
      (verdict "PEND")
      none
    ≡ (ok rules_event, ruled_database)
write-append_row_example =
    write-append_row open_columns open_columns-IsLossless received_database ruled_database
      late_review [] rules_event ruled_claim none both_run rules_written

-- The reviewer's verdict came second.
write-overtaken_example :
    is_ok (write open_columns ruled_database review_event reviewed_claim none) ≡ false
unfolding events read_event type_named
write-overtaken_example =
    write-overtaken open_columns open_columns-IsLossless ruled_database [] [] review_event
      reviewed_claim none (receipt_event ∷ rules_event ∷ []) ruled_run refl (omega arith)

append_row-append_example :
    let (r, db') =
      append_row open_columns empty_database stamp_one "c1" claim_received receipt none in
    let (q, s') = append empty stamp_one "c1" claim_received receipt none in
    let e = next_event empty stamp_one "c1" claim_received receipt in
    ((r ≡ q) × Agree db' s')
    ⊎ ((x : Error) × (r ≡ err x)
        × (db' ≡ empty_database)
        × (is_ok (project (get {V = Claim} [] "c1") e) ≡ true)
        × ¬ (
            (c : Claim) × ((project (get {V = Claim} [] "c1") e ≡ ok c)
              × Unit {0}
              × IsTaken open_columns e c none
              × IsFresh empty_database "e1" none)))
append_row-append_example =
    append_row-append open_columns open_columns-IsLossless empty_database empty stamp_one "c1"
      claim_received receipt none (empty-Agree open_columns open_columns-IsLossless)
      empty-IsConsistent

append_row-stored_example :
    let (r, t) =
      append_row open_columns empty_database stamp_one "c1" claim_received receipt (some "k1") in
    (r ≡ ok receipt_event)
    × (t.claim_events ≡ event_row_of receipt_event ∷ [])
    × (t.outbox ≡ queue_row_of receipt_event ∷ [])
    × (load_claim t "c1" ≡ ok (some (claim_at received)))
unfolding project get
append_row-stored_example =
    append_row-stored open_columns open_columns-IsLossless empty_database empty stamp_one "c1"
      claim_received receipt (some "k1") (empty-Agree open_columns open_columns-IsLossless)
      empty-IsConsistent (claim_at received)
      (
        refl,
        tt,
        record {
          event_taken = refl;
          created = refl;
          updated = refl;
          claim_taken = refl;
          models_taken = tt;
        },
        (refl, refl, refl),
      )

pending_review-waits_example :
    (cs : List Claim) × (pending_review ruled_database ≡ ok cs)
    × ((claim_id : String)
        → (claim : Option Claim) × (load_claim ruled_database claim_id ≡ ok claim)
          × (any (λ c. c.claim_id == claim_id) cs ≡ waits claim))
pending_review-waits_example =
    pending_review-waits open_columns open_columns-IsLossless ruled_database late_review ruled_run

append_row-same_key_example :
    (x : Error) × (append_row open_columns received_database stamp_two "c2" claim_received receipt
        (some "k1")
      ≡ (err x, received_database))
append_row-same_key_example =
    append_row-same_key open_columns open_columns-IsLossless received_database stamp_two "c2"
      claim_received receipt (some "k1") refl refl
