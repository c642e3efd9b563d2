-- ===== src/Notifier/Delivery.antt =====
-- The delivery loop: at most the attempts that are allowed, and no more than are needed.
use insurance_claim_ai.Prelude.{
  ℕ, zero, suc, ◌≤◌, ◌+◌, ◌≡◌, inl, inr, refl, sym, ◌∙◌, Bool, true, false, List, [], ◌∷◌, ◌++◌,
  arith, if◌then◌else◌, length, Bool-cases, length-append, append-nil, append_assoc,
}
use insurance_claim_ai.Notifier.{Request, Desk, Service, post, pause, deliver}

abbrev pub copies : ℕ → Request → List Request
copies zero q = []
copies (suc n) q = q ∷ copies n q

-- The first request taken, among `left` from number `n`: how many are posted, and whether one is taken.
abbrev pub first_taken : (ℕ → Request → Bool) → Request → ℕ → ℕ → ℕ × Bool
first_taken takes q n zero = (0, false)
first_taken takes q n (suc left) =
    let (k, taken) = first_taken takes q (suc n) left in
    if takes n q then (1, true) else (suc k, taken)

append_copies :
    (l : List Request) (q : Request) (k : ℕ) → (l ++ q ∷ []) ++ copies k q ≡ l ++ copies (suc k) q
append_copies l q k = append_assoc l (q ∷ []) (copies k q)

pub posted_one : (l : List Request) (q : Request) → length (l ++ q ∷ []) ≡ suc (length l)
posted_one l q = length-append l (q ∷ []) ∙ omega arith

pub pause-posted :
    (backs_off : Bool) (left attempt : ℕ) (d : Desk)
    → (pause backs_off left attempt d).posted ≡ d.posted
pause-posted backs_off left attempt d = ground arith

pause-store :
    (backs_off : Bool) (left attempt : ℕ) (d : Desk)
    → (pause backs_off left attempt d).store ≡ d.store
pause-store backs_off left attempt d = ground arith

-- The loop answers whether some attempt was taken; it posts the one request again up to the first
-- that is taken, and leaves the store alone.
pub deliver_lem :
    (sv : Service) (q : Request) (left attempt : ℕ) (d : Desk)
    → let (k, taken) = first_taken sv.takes q (length d.posted) left in
      let (delivered, d') = deliver sv q left attempt d in
      (delivered ≡ taken) × (d'.posted ≡ d.posted ++ copies k q) × (d'.store ≡ d.store)
unfolding deliver
deliver_lem sv q zero attempt d = (refl, sym (append-nil d.posted), refl)
deliver_lem sv q (suc left) attempt d =
    let rest = deliver_lem sv q left (attempt + 1) (pause sv.backs_off left attempt (post q d)) in
    let k : ℕ = (first_taken sv.takes q (suc (length d.posted)) left).0 in
    elim (Bool-cases (sv.takes (length d.posted) q)) [
      | inl taken ↦ ground (arith, taken)
      | inr refused ↦ ground (
        arith,
        refused,
        rest,
        pause-posted sv.backs_off left attempt (post q d),
        pause-store sv.backs_off left attempt (post q d),
        append_copies d.posted q k,
        posted_one d.posted q,
      )
    ]

pub first_taken-le :
    (takes : ℕ → Request → Bool) (q : Request) (n left : ℕ) → (first_taken takes q n left).0 ≤ left
first_taken-le takes q n zero = omega arith
first_taken-le takes q n (suc left) = ground (arith, first_taken-le takes q (suc n) left)
