-- ===== src/Intake/Schema.antt =====
-- What an adapter delivers against the seed schema of its claim type.
use insurance_claim_ai.Prelude.{◌≡◌, not, none, String, Option, some, [], arith, get}
use insurance_claim_ai.Domain.Errors.{ok, >>=-eq-ok, require, guard, ◌>>◌, intake_error}
use insurance_claim_ai.Domain.Models.{ClaimMetadata, validate_metadata}
use insurance_claim_ai.ClaimTypes.{validate_attributes}
use insurance_claim_ai.ClaimTypes.Seed.{structured_type, fnol_type}
use insurance_claim_ai.Value.{Value, Float}
use insurance_claim_ai.Value.Conversion.{to_float}
use insurance_claim_ai.Intake.{
  normalize_fnol, normalize_doc, fnol_claim, fnol_of, fnol_fields, is_missing,
}
use insurance_claim_ai.Intake.X12.{
  normalize_x12, x12_metadata, read_segments, unread, Reading, split, strip,
}

-- What the X12 adapter accepts is a structured claim, whose attributes pass that type's schema.
x12_metadata-fits :
    (url : String) (r : Reading) (m : ClaimMetadata)
    → x12_metadata url r ≡ ok m
    → (m.claim_type ≡ "structured-claim")
      × (validate_attributes structured_type.attributes m.attributes ≡ [])
unfolding x12_metadata validate_metadata validate_attributes get
x12_metadata-fits url r m h = ground arith

pub normalize_x12-fits :
    (read : String → Option Float) (url text : String) (m : ClaimMetadata)
    → normalize_x12 read url text ≡ ok m
    → (m.claim_type ≡ "structured-claim")
      × (validate_attributes structured_type.attributes m.attributes ≡ [])
unfolding normalize_x12
normalize_x12-fits read url text m h =
    let (r, done, made) =
      >>=-eq-ok (read_segments read (split b'~' (strip text)) unread) (x12_metadata url) h in
    x12_metadata-fits url r m made

abbrev FitsFnol : ClaimMetadata → Type 0
FitsFnol m =
    (m.claim_type ≡ "auto-fnol") × (validate_attributes fnol_type.attributes m.attributes ≡ [])

fnol_claim-fits :
    (show : Value → String) (doc p d : Value) (x : Float) (i u : Value) (m : ClaimMetadata)
    → fnol_claim show doc p d x i u ≡ ok m
    → FitsFnol m
unfolding fnol_claim validate_metadata validate_attributes get
fnol_claim-fits show doc p d x i u m h = ground arith

fnol_of-fits :
    (read : String → Option Float) (show : Value → String) (doc : Value) (p d e i u : Option Value)
    (m : ClaimMetadata)
    → fnol_of read show doc p d e i u ≡ ok m
    → FitsFnol m
unfolding fnol_of
fnol_of-fits read show doc (some p) (some d) (some e) (some i) (some u) m h =
    let (x, converted, made) = >>=-eq-ok (to_float read e) (λ x. fnol_claim show doc p d x i u) h in
    fnol_claim-fits show doc p d x i u m made
fnol_of-fits read show doc p d e i none m h = ground arith
fnol_of-fits read show doc p d e none u m h = ground arith
fnol_of-fits read show doc p d none i u m h = ground arith
fnol_of-fits read show doc p none e i u m h = ground arith
fnol_of-fits read show doc none d e i u m h = ground arith

normalize_doc-fits :
    (read : String → Option Float) (show : Value → String) (doc : Value) (m : ClaimMetadata)
    → normalize_doc read show doc ≡ ok m
    → FitsFnol m
unfolding normalize_doc
normalize_doc-fits read show doc m h =
    let (f, found, rest) =
      >>=-eq-ok (fnol_fields doc)
        (λ f.
          guard (not (is_missing f)) intake_error
          >> fnol_of read show doc f.policy f.date f.estimate f.id f.url)
        h in
    let (v, passed, made) =
      >>=-eq-ok (guard (not (is_missing f)) intake_error)
        (λ v. fnol_of read show doc f.policy f.date f.estimate f.id f.url) rest in
    fnol_of-fits read show doc f.policy f.date f.estimate f.id f.url m made

-- What the FNOL adapter accepts is an auto-fnol claim whose attributes pass that type's schema.
pub normalize_fnol-fits :
    (parse : String → Option Value) (read : String → Option Float) (show : Value → String)
    (raw : String) (m : ClaimMetadata)
    → normalize_fnol parse read show raw ≡ ok m
    → (m.claim_type ≡ "auto-fnol") × (validate_attributes fnol_type.attributes m.attributes ≡ [])
unfolding normalize_fnol
normalize_fnol-fits parse read show raw m h =
    let (doc, parsed, made) =
      >>=-eq-ok (require (parse raw) intake_error) (λ doc. normalize_doc read show doc) h in
    normalize_doc-fits read show doc m made
