-- ===== src/Intake/RoundTrip.antt =====
-- claimpipe/adapters/intake.py, X12LikeIntakeAdapter: the reading of an interchange that a sender wrote.
use insurance_claim_ai.Prelude.{All, ap, ◌∙◌, ◌≡◌, String, Option, some, List, [], ◌∷◌, arith}
use insurance_claim_ai.Domain.Errors.{ok, ◌>>=◌}
use insurance_claim_ai.Domain.Models.{validate_metadata}
use insurance_claim_ai.Value.{Float, float, str}
use insurance_claim_ai.Intake.X12.{
  split, strip, read_segment, read_segments, normalize_x12, x12_metadata, Reading, unread, Lacks,
  joined, split-joined,
}

-- What the segments say: NM1 names the subscriber, CLM the claim and its amount, DTP*472 the date.
pub record Interchange : Type 0 where
  pub entity_type : String
  pub last_name : String
  pub first_name : String
  pub middle_name : String
  pub prefix : String
  pub suffix : String
  pub qualifier : String
  pub subscriber : String
  pub claim_id : String
  pub amount : String
  pub date_format : String
  pub service_date : String

-- The elements of the three segments behind their names.
abbrev pub subscriber_elements : Interchange → List String
subscriber_elements x =
    "IL" ∷ x.entity_type ∷ x.last_name ∷ x.first_name ∷ x.middle_name ∷ x.prefix ∷ x.suffix
    ∷ x.qualifier ∷ x.subscriber ∷ []

abbrev pub claim_elements : Interchange → List String
claim_elements x = x.claim_id ∷ x.amount ∷ []

abbrev pub date_elements : Interchange → List String
date_elements x = "472" ∷ x.date_format ∷ x.service_date ∷ []

abbrev pub subscriber_segment : Interchange → String
subscriber_segment x = joined "*" ("NM1" ∷ subscriber_elements x)

abbrev pub claim_segment : Interchange → String
claim_segment x = joined "*" ("CLM" ∷ claim_elements x)

abbrev pub date_segment : Interchange → String
date_segment x = joined "*" ("DTP" ∷ date_elements x)

abbrev pub segments : Interchange → List String
segments x = subscriber_segment x ∷ claim_segment x ∷ date_segment x ∷ []

-- The text of an interchange.
abbrev pub written : Interchange → String
written x = joined "~" (segments x)

abbrev pub IsTrimmed : String → Type 0
IsTrimmed s = strip s ≡ s

-- A segment is read as the elements that it was written from.
read_segment-joined :
    (read : String → Option Float) (s : String) (parts : List String) (r : Reading)
    → IsTrimmed (joined "*" (s ∷ parts))
    → All (Lacks b'*') (s ∷ parts)
    → read_segment read (split b'*' (strip (joined "*" (s ∷ parts)))) r
      ≡ read_segment read (s ∷ parts) r
read_segment-joined read s parts r trimmed plain =
    ap (λ t. read_segment read (split b'*' t) r) trimmed
    ∙ ap (λ l. read_segment read l r) (split-joined "*" s parts plain)

read_segments-next :
    (read : String → Option Float) (s : String) (parts rest : List String) (r t : Reading)
    → IsTrimmed (joined "*" (s ∷ parts))
    → All (Lacks b'*') (s ∷ parts)
    → read_segment read (s ∷ parts) r ≡ ok t
    → read_segments read (joined "*" (s ∷ parts) ∷ rest) r ≡ read_segments read rest t
unfolding read_segments
read_segments-next read s parts rest r t trimmed plain h =
    ap (λ o. o >>= read_segments read rest) (read_segment-joined read s parts r trimmed plain ∙ h)

read_segments-written :
    (read : String → Option Float) (x : Interchange) (amount : Float)
    → All (Lacks b'*') ("NM1" ∷ subscriber_elements x)
    → All (Lacks b'*') ("CLM" ∷ claim_elements x)
    → All (Lacks b'*') ("DTP" ∷ date_elements x)
    → All IsTrimmed (segments x)
    → read x.amount ≡ some amount
    → read_segments read (segments x) unread
      ≡ ok (record {
        subscriber = some x.subscriber;
        amount = some amount;
        service_date = some x.service_date;
      })
unfolding read_segments read_segment
read_segments-written read x amount plain_nm1 plain_clm plain_dtp trimmed number =
    let named : Reading = record unread { subscriber = some x.subscriber } in
    let valued : Reading = record named { amount = some amount } in
    let dated : Reading = record valued { service_date = some x.service_date } in
    read_segments-next read "NM1" (subscriber_elements x) (claim_segment x ∷ date_segment x ∷ [])
      unread named trimmed.0 plain_nm1 (ground arith)
    ∙ read_segments-next read "CLM" (claim_elements x) (date_segment x ∷ []) named valued
        trimmed.1.0 plain_clm (ground (arith, number))
    ∙ read_segments-next read "DTP" (date_elements x) [] valued dated trimmed.1.1.0 plain_dtp
        (ground arith)

-- Where no element has a separator and no segment has blanks around it, the adapter reads an
-- interchange back as it was written: the subscriber, the number of the amount, and the date.
pub normalize-written :
    (read : String → Option Float) (callback_url : String) (x : Interchange) (amount : Float)
    → All (Lacks b'*') ("NM1" ∷ subscriber_elements x)
    → All (Lacks b'*') ("CLM" ∷ claim_elements x)
    → All (Lacks b'*') ("DTP" ∷ date_elements x)
    → All (Lacks b'~') (segments x)
    → All IsTrimmed (segments x)
    → IsTrimmed (written x)
    → read x.amount ≡ some amount
    → normalize_x12 read callback_url (written x)
      ≡ validate_metadata (record {
        customer_id = x.subscriber;
        callback_url = callback_url;
        claim_type = "structured-claim";
        tenant_id = "default";
        schema_version = "v1";
        attributes = ("amount", float amount) ∷ ("service_date", str x.service_date) ∷ [];
      })
unfolding normalize_x12 x12_metadata
normalize-written read callback_url x amount plain_nm1 plain_clm plain_dtp plain trimmed whole
      number =
    ap (λ t. read_segments read (split b'~' t) unread >>= x12_metadata callback_url) whole
    ∙ ap (λ l. read_segments read l unread >>= x12_metadata callback_url)
        (split-joined "~" (subscriber_segment x) (claim_segment x ∷ date_segment x ∷ []) plain)
    ∙ ap (λ r. r >>= x12_metadata callback_url)
        (read_segments-written read x amount plain_nm1 plain_clm plain_dtp trimmed number)
