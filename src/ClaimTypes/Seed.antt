-- ===== src/ClaimTypes/Seed.antt =====
-- claimpipe/claimtypes.py, default_registry: the seed claim types.
use insurance_claim_ai.Prelude.{◌≡◌, refl, String, Bool, true, false, [], ◌∷◌, put}
use insurance_claim_ai.Domain.Errors.{Result, ok, ◌>>=◌}
use insurance_claim_ai.ClaimTypes.{
  Stage-discrete, upload, ocr, llm, adjudicate, review, persist, AttributeSpec, AttributeType,
  string, number, ClaimTypeDef, Registry, register, validate_pipeline, set_of, misplaced, order,
}

abbrev attribute : String → AttributeType → Bool → AttributeSpec
attribute name type required = record { name = name; type = type; required = required }

abbrev pub generic_type : ClaimTypeDef
generic_type = record {
  name = "generic-document";
  version = "v1";
  description = "PDF + JSON claim: OCR, tiered LLM scoring, adjudicate, persist.";
  attributes = attribute "amount" number false ∷ [];
  stages = upload ∷ ocr ∷ llm ∷ adjudicate ∷ review ∷ persist ∷ [];
}

abbrev pub metadata_type : ClaimTypeDef
metadata_type = record {
  name = "metadata-only";
  version = "v1";
  description = "Structured-data claim with no document: validate and persist.";
  attributes = [];
  stages = persist ∷ [];
}

abbrev pub structured_type : ClaimTypeDef
structured_type = record {
  name = "structured-claim";
  version = "v1";
  description = "Structured claim (e.g. EDI): no document, rules adjudicate directly.";
  attributes = attribute "amount" number true ∷ [];
  stages = adjudicate ∷ review ∷ persist ∷ [];
}

abbrev pub archive_type : ClaimTypeDef
archive_type = record {
  name = "archive-document";
  version = "v1";
  description = "Document archival: OCR + store, no model scoring.";
  attributes = [];
  stages = upload ∷ ocr ∷ persist ∷ [];
}

abbrev pub fnol_type : ClaimTypeDef
fnol_type = record {
  name = "auto-fnol";
  version = "v1";
  description = "Demo FNOL line with a required attribute schema.";
  attributes =
      attribute "policy_number" string true
      ∷ attribute "incident_date" string true
      ∷ attribute "amount" number true
      ∷ [];
  stages = upload ∷ ocr ∷ llm ∷ adjudicate ∷ review ∷ persist ∷ [];
}

unfoldable pub default_registry : Result Registry
unfolding register validate_pipeline
default_registry = do
  r ← register [] generic_type
  r ← register r metadata_type
  r ← register r structured_type
  r ← register r archive_type
  register r fnol_type

abbrev pub seed_registry : Registry
seed_registry =
    ("generic-document", generic_type)
    ∷ ("metadata-only", metadata_type)
    ∷ ("structured-claim", structured_type)
    ∷ ("archive-document", archive_type)
    ∷ ("auto-fnol", fnol_type)
    ∷ []

-- The seed registry is built without an error, and has the five types.
pub default_registry-is_ok : default_registry ≡ ok seed_registry
unfolding default_registry register validate_pipeline set_of misplaced order put Stage-discrete
default_registry-is_ok = refl
