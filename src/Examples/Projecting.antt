-- ===== src/Examples/Projecting.antt =====
-- The projection at concrete logs.
use insurance_claim_ai.Prelude.{◌<◌, ◌≡◌, ◌≢◌, ◌⊎◌, refl, ◌↔◌, true, some, [], ◌∷◌}
use insurance_claim_ai.Domain.Errors.{ok, is_ok}
use insurance_claim_ai.Domain.Models.{
  Claim, ClaimStatus, ClaimStatus-discrete, received, ocr_running, persisted,
}
use insurance_claim_ai.Domain.Events.{EventType, claim_received, ocr_started, empty_payload}
use insurance_claim_ai.Projection.{project, event_status, replay_from}
use insurance_claim_ai.Examples.Data.{claim_at, event_of, receipt, short_log}
use insurance_claim_ai.Projection.Diagram.{IsComplete, MayMove, project-ok_iff, rank}
use insurance_claim_ai.Projection.Replay.{replay-rank}
use insurance_claim_ai.Projection.Fields.{IsView, replay-IsView}
use insurance_claim_ai.Projection.Redelivery.{project_again}

project-ok_iff_example :
    (is_ok (project (some (claim_at received)) (event_of 2 ocr_started empty_payload)) ≡ true) ↔ (
      (◌≢◌ {A = EventType} ocr_started claim_received)
      × IsComplete ocr_started empty_payload
      × MayMove received (event_status ocr_started))
project-ok_iff_example = project-ok_iff (claim_at received) (event_of 2 ocr_started empty_payload)

abbrev done_claim : Claim
done_claim = record (claim_at persisted) {
  decision = some "APPROVE";
  reason_codes = "R" ∷ [];
  updated_at = some 4;
}

replay-rank_example : (◌≡◌ {A = ClaimStatus} persisted received) ⊎ (rank received < rank persisted)
unfolding replay_from project ClaimStatus-discrete
replay-rank_example = replay-rank short_log (claim_at received) done_claim refl

replay-IsView_example : IsView (event_of 1 claim_received receipt) short_log done_claim
unfolding replay_from project ClaimStatus-discrete
replay-IsView_example = replay-IsView (event_of 1 claim_received receipt) short_log done_claim refl

project_again_example :
    project
      (some (record (claim_at ocr_running) { updated_at = some 2 }))
      (event_of 3 ocr_started empty_payload)
    ≡ ok (record (claim_at ocr_running) { updated_at = some 3 })
unfolding project ClaimStatus-discrete
project_again_example =
    project_again (claim_at received) (record (claim_at ocr_running) { updated_at = some 2 })
      (event_of 2 ocr_started empty_payload) (event_of 3 ocr_started empty_payload) refl
      (refl, refl)
