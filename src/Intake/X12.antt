-- ===== src/Intake/X12.antt =====
-- claimpipe/adapters/intake.py, X12LikeIntakeAdapter: segments end in `~`, elements in `*`.
use Prim.Native.Char.{Char, code}
use Prim.Native.String as Text
use text.Mathlib.TextLemmas.{nil-append, cons-append}
use insurance_claim_ai.Prelude.{
  All, ap, ◌∙◌, ℕ, zero, suc, ◌≡◌, refl, String, Bool, false, ◌&&◌, ◌||◌, Option, none, some, List,
  [], ◌∷◌, ◌++◌, arith, if◌then◌else◌, ◌==◌, ltb, leb, nat_eq, length, inl, inr,
}
use insurance_claim_ai.Domain.Errors.{Result, ok, err, intake_error, require, ◌>>=◌, Result-cases}
use insurance_claim_ai.Domain.Models.{ClaimMetadata, validate_metadata}
use insurance_claim_ai.Value.{Float, float, str}

abbrev pub add_first : Char → List String → List String
add_first c [] = Text.◌∷◌ c Text.[] ∷ []
add_first c (s ∷ rest) = Text.◌∷◌ c s ∷ rest

-- `text.split(sep)`
unfoldable pub split : ℕ → String → List String
split sep Text.[] = "" ∷ []
split sep (Text.◌∷◌ c s) =
    let rest = split sep s in if nat_eq (code c) sep then "" ∷ rest else add_first c rest

-- `str.isspace` of a code point.
abbrev pub is_space : ℕ → Bool
is_space c =
    (leb 9 c && leb c 13)
    || (leb 28 c && leb c 32)
    || nat_eq c 133
    || nat_eq c 160
    || nat_eq c 5760
    || (leb 8192 c && leb c 8202)
    || nat_eq c 8232
    || nat_eq c 8233
    || nat_eq c 8239
    || nat_eq c 8287
    || nat_eq c 12288

unfoldable pub strip_left : String → String
strip_left Text.[] = ""
strip_left (Text.◌∷◌ c s) =
    let rest = strip_left s in if is_space (code c) then rest else Text.◌∷◌ c s

unfoldable pub strip_right : String → String
strip_right Text.[] = ""
strip_right (Text.◌∷◌ c s) =
    let rest = strip_right s in if is_space (code c) && rest == "" then "" else Text.◌∷◌ c rest

-- `text.strip()`
abbrev pub strip : String → String
strip s = strip_right (strip_left s)

-- `parts[n]`, where the guards have checked the length.
abbrev pub item? : List String → ℕ → Option String
item? [] n = none
item? (s ∷ parts) zero = some s
item? (s ∷ parts) (suc n) = item? parts n

pub record Reading : Type 0 where
  pub subscriber : Option String
  pub amount : Option Float
  pub service_date : Option String

abbrev pub unread : Reading
unread = record { subscriber = none; amount = none; service_date = none }

abbrev is_at : List String → ℕ → String → Bool
is_at parts n s = elim (item? parts n) [ none ↦ false | some t ↦ t == s ]

-- What the loop of `normalize` does with one segment's elements.
unfoldable pub read_segment : (String → Option Float) → List String → Reading → Result Reading
read_segment read parts r =
    if is_at parts 0 "NM1" && ltb 9 (length parts) && is_at parts 1 "IL"
    then ok (record r { subscriber = item? parts 9 })
    else (if is_at parts 0 "CLM" && ltb 2 (length parts)
        then elim (item? parts 2) [
          | none ↦ err intake_error
          | some t ↦ elim (read t) [
            | none ↦ err intake_error
            | some x ↦ ok (record r { amount = some x })
          ]
        ]
        else (if is_at parts 0 "DTP" && ltb 3 (length parts) && is_at parts 1 "472"
            then ok (record r { service_date = item? parts 3 })
            else ok r))

unfoldable pub read_segments : (String → Option Float) → List String → Reading → Result Reading
read_segments read [] r = ok r
read_segments read (s ∷ segments) r = do
  t ← read_segment read (split b'*' (strip s)) r
  read_segments read segments t

unfoldable pub x12_metadata : String → Reading → Result ClaimMetadata
x12_metadata callback_url r = do
  s ← require r.subscriber intake_error
  x ← require r.amount intake_error
  d ← require r.service_date intake_error
  validate_metadata (record {
    customer_id = s;
    callback_url = callback_url;
    claim_type = "structured-claim";
    tenant_id = "default";
    schema_version = "v1";
    attributes = ("amount", float x) ∷ ("service_date", str d) ∷ [];
  })

-- X12LikeIntakeAdapter.normalize
unfoldable pub normalize_x12 : (String → Option Float) → String → String → Result ClaimMetadata
normalize_x12 read callback_url text = do
  r ← read_segments read (split b'~' (strip text)) unread
  x12_metadata callback_url r

-- Segments are read one after the other.
pub read_segments-append :
    (read : String → Option Float) (xs ys : List String) (r : Reading)
    → read_segments read (xs ++ ys) r ≡ (read_segments read xs r >>= read_segments read ys)
unfolding read_segments
read_segments-append read [] ys r = refl
read_segments-append read (x ∷ xs) ys r =
    elim (Result-cases (read_segment read (split b'*' (strip x)) r)) [
      | inl (t, h) ↦ rw h (read_segments-append read xs ys t)
      | inr (e, h) ↦ rw h refl
    ]

-- The separator is not in the text.
abbrev pub Lacks : ℕ → String → Type 0
Lacks sep Text.[] = Unit {0}
Lacks sep (Text.◌∷◌ c s) = (nat_eq (code c) sep ≡ false) × Lacks sep s

-- `sep.join(parts)`
abbrev pub joined : Char → List String → String
joined sep [] = ""
joined sep (s ∷ []) = s
joined sep (s ∷ t ∷ parts) = Text.◌++◌ s (Text.◌∷◌ sep (joined sep (t ∷ parts)))

split-Lacks : (sep : ℕ) (s : String) → Lacks sep s → split sep s ≡ s ∷ []
unfolding split
split-Lacks sep Text.[] h = refl
split-Lacks sep (Text.◌∷◌ c s) h = ground (arith, split-Lacks sep s h.1)

split-append :
    (sep : Char) (s rest : String)
    → Lacks (code sep) s
    → split (code sep) (Text.◌++◌ s (Text.◌∷◌ sep rest)) ≡ s ∷ split (code sep) rest
unfolding split
split-append sep Text.[] rest h = rw (nil-append (Text.◌∷◌ sep rest)) (ground arith)
split-append sep (Text.◌∷◌ c s) rest h =
    rw (cons-append c s (Text.◌∷◌ sep rest)) (ground (arith, split-append sep s rest h.1))

-- Splitting undoes joining: elements that do not have the separator are read as they were written.
pub split-joined :
    (sep : Char) (s : String) (parts : List String)
    → All (Lacks (code sep)) (s ∷ parts)
    → split (code sep) (joined sep (s ∷ parts)) ≡ s ∷ parts
split-joined sep s [] h = split-Lacks (code sep) s h.0
split-joined sep s (t ∷ parts) h =
    split-append sep s (joined sep (t ∷ parts)) h.0 ∙ ap (λ l. s ∷ l) (split-joined sep t parts h.1)
