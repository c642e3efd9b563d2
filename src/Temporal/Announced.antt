-- ===== src/Temporal/Announced.antt =====
-- The documents that the signals of a workflow announce.
use insurance_claim_ai.Prelude.{
  ◌≡◌, ◌⊎◌, inl, inr, refl, String, Bool, true, false, ◌||◌, List, [], ◌∷◌, ◌++◌, arith, any,
}
use insurance_claim_ai.Temporal.Workflow.{
  Signal, pdf_uploaded, review_signal, Run, receive, receive_all,
}

-- Whether a signal announces a document.
abbrev pub announces : Signal → Bool
announces (pdf_uploaded key) = true
announces (review_signal r) = false

-- A signal of the list announces the document of a key.
abbrev pub IsAnnounced : String → List Signal → Type 0
IsAnnounced key [] = ⊥
IsAnnounced key (pdf_uploaded k ∷ signals) = (k ≡ key) ⊎ IsAnnounced key signals
IsAnnounced key (review_signal r ∷ signals) = IsAnnounced key signals

pub IsAnnounced-front :
    (key : String) (l k : List Signal) → IsAnnounced key l → IsAnnounced key (l ++ k)
IsAnnounced-front key [] k h = absurd h
IsAnnounced-front key (pdf_uploaded j ∷ l) k (inl same) = inl same
IsAnnounced-front key (pdf_uploaded j ∷ l) k (inr h) = inr (IsAnnounced-front key l k h)
IsAnnounced-front key (review_signal r ∷ l) k h = IsAnnounced-front key l k h

pub IsAnnounced-back :
    (key : String) (l k : List Signal) → IsAnnounced key k → IsAnnounced key (l ++ k)
IsAnnounced-back key [] k h = h
IsAnnounced-back key (pdf_uploaded j ∷ l) k h = inr (IsAnnounced-back key l k h)
IsAnnounced-back key (review_signal r ∷ l) k h = IsAnnounced-back key l k h

pub receive_all-uploaded :
    (l : List Signal) (s : Run) → (receive_all l s).uploaded ≡ (any announces l || s.uploaded)
unfolding receive_all
receive_all-uploaded [] s = refl
receive_all-uploaded (pdf_uploaded k ∷ l) s =
    ground (arith, receive_all-uploaded l (receive (pdf_uploaded k) s))
receive_all-uploaded (review_signal r ∷ l) s = receive_all-uploaded l (receive (review_signal r) s)
