-- ===== src/Domain/Names.antt =====
-- The texts of the members of ClaimStatus and EventType (claimpipe/domain), which the database holds,
-- and the members that they name.
use insurance_claim_ai.Prelude.{
  ◌≡◌, refl, String, List, [], ◌∷◌, ◌==◌, if◌then◌else◌, arith, eq_iff, Bool-cases, inl, inr,
}
use insurance_claim_ai.Domain.Errors.{Result, ok, err, value_error}
use insurance_claim_ai.Domain.Models.{
  ClaimStatus, received, ocr_running, ocr_done, llm_running, llm_done, adjudicated, persisted,
  notified, failed, partial_success,
}
use insurance_claim_ai.Domain.Events.{
  EventType, claim_received, metadata_logged, ocr_started, ocr_completed, claim_failed, llm_started,
  predictions_ready, claim_adjudicated, review_completed, claim_persisted, claim_notified,
}

-- The member whose text it is; Python's enumerations raise ValueError where there is none.
abbrev pub named_by {ℓ} : {A : Type ℓ} → (A → String) → List A → String → Result A
named_by text [] name = err value_error
named_by text (m ∷ members) name =
    let others = named_by text members name in if text m == name then ok m else others

pub text-named_by {ℓ} :
    {A : Type ℓ} (text : A → String) (members : List A) (name : String) (m : A)
    → named_by text members name ≡ ok m
    → text m ≡ name
text-named_by text [] name m h = absurd (cc)
text-named_by text (n ∷ members) name m h = elim (Bool-cases (text n == name)) [
  | inl same ↦ ground (arith, same, eq_iff (text n) name)
  | inr other ↦ text-named_by text members name m (ground (arith, other))
]

-- `str(status)`
abbrev pub status_text : ClaimStatus → String
status_text received = "RECEIVED"
status_text ocr_running = "OCR_RUNNING"
status_text ocr_done = "OCR_DONE"
status_text llm_running = "LLM_RUNNING"
status_text llm_done = "LLM_DONE"
status_text adjudicated = "ADJUDICATED"
status_text persisted = "PERSISTED"
status_text notified = "NOTIFIED"
status_text failed = "FAILED"
status_text partial_success = "PARTIAL_SUCCESS"
status_text ClaimStatus.notify_failed = "NOTIFY_FAILED"

abbrev statuses : List ClaimStatus
statuses =
    received ∷ ocr_running ∷ ocr_done ∷ llm_running ∷ llm_done ∷ adjudicated ∷ persisted ∷ notified
    ∷ failed ∷ partial_success ∷ ClaimStatus.notify_failed ∷ []

-- `ClaimStatus(text)`
unfoldable pub status_named : String → Result ClaimStatus
status_named name = named_by status_text statuses name

pub named-status_text : (m : ClaimStatus) → status_named (status_text m) ≡ ok m
unfolding status_named
named-status_text received = refl
named-status_text ocr_running = refl
named-status_text ocr_done = refl
named-status_text llm_running = refl
named-status_text llm_done = refl
named-status_text adjudicated = refl
named-status_text persisted = refl
named-status_text notified = refl
named-status_text failed = refl
named-status_text partial_success = refl
named-status_text ClaimStatus.notify_failed = refl

-- `str(type)`
abbrev pub type_text : EventType → String
type_text claim_received = "CLAIM_RECEIVED"
type_text metadata_logged = "METADATA_LOGGED"
type_text ocr_started = "OCR_STARTED"
type_text ocr_completed = "OCR_COMPLETED"
type_text claim_failed = "CLAIM_FAILED"
type_text llm_started = "LLM_STARTED"
type_text predictions_ready = "PREDICTIONS_READY"
type_text claim_adjudicated = "CLAIM_ADJUDICATED"
type_text review_completed = "REVIEW_COMPLETED"
type_text claim_persisted = "CLAIM_PERSISTED"
type_text claim_notified = "CLAIM_NOTIFIED"
type_text EventType.notify_failed = "NOTIFY_FAILED"

abbrev types : List EventType
types =
    claim_received ∷ metadata_logged ∷ ocr_started ∷ ocr_completed ∷ claim_failed ∷ llm_started
    ∷ predictions_ready ∷ claim_adjudicated ∷ review_completed ∷ claim_persisted ∷ claim_notified
    ∷ EventType.notify_failed ∷ []

-- `EventType(text)`
unfoldable pub type_named : String → Result EventType
type_named name = named_by type_text types name

pub named-type_text : (m : EventType) → type_named (type_text m) ≡ ok m
unfolding type_named
named-type_text claim_received = refl
named-type_text metadata_logged = refl
named-type_text ocr_started = refl
named-type_text ocr_completed = refl
named-type_text claim_failed = refl
named-type_text llm_started = refl
named-type_text predictions_ready = refl
named-type_text claim_adjudicated = refl
named-type_text review_completed = refl
named-type_text claim_persisted = refl
named-type_text claim_notified = refl
named-type_text EventType.notify_failed = refl

pub text-status_named :
    (name : String) (s : ClaimStatus) → status_named name ≡ ok s → status_text s ≡ name
unfolding status_named
text-status_named name s h = text-named_by status_text statuses name s h
