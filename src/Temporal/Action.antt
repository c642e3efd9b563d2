-- ===== src/Temporal/Action.antt =====
-- Calls that change a state and may raise: what was written before a raise stays written. The world
-- of the activities, and the services that they are given.
use insurance_claim_ai.Prelude.{
  Bool, true, false, ◌≡◌, refl, if◌then◌else◌, ℕ, String, Option, Dict,
}
use insurance_claim_ai.Domain.Errors.{Result, ok, err, Error}
use insurance_claim_ai.Value.{Value, Float}
use insurance_claim_ai.EventStore.{EventStore, Stamp}
use insurance_claim_ai.ObjectStore.{Objects}
use insurance_claim_ai.Llm.{ModelClient}
use insurance_claim_ai.Agent.{AgentState}
use insurance_claim_ai.Adjudication.{RuleSet}
use insurance_claim_ai.RefData.{PolicyRecord}
use insurance_claim_ai.Tenancy.{Directory}

abbrev pub Action {ℓ} : Type ℓ → Type ℓ → Type ℓ
Action S A = S → Result A × S

abbrev pub continue {ℓ} : {S A B : Type ℓ} → Result A → (A → Action S B) → Action S B
continue (ok a) f s = f a s
continue (err e) f s = (err e, s)

infixl 5 ◌>>=◌ ◌>>◌
abbrev pub ◌>>=◌ {ℓ} : {S A B : Type ℓ} → Action S A → (A → Action S B) → Action S B
◌>>=◌ m f s = continue (m s).0 f (m s).1

abbrev pub ◌>>◌ {ℓ} : {S A B : Type ℓ} → Action S A → Action S B → Action S B
m >> k = m >>= λ _. k

abbrev pub pure {ℓ} : {S A : Type ℓ} → A → Action S A
pure a s = (ok a, s)

abbrev pub raise {ℓ} : {S A : Type ℓ} → Error → Action S A
raise e s = (err e, s)

abbrev pub lift {ℓ} : {S A : Type ℓ} → Result A → Action S A
lift r s = (r, s)

abbrev pub gets {ℓ} : {S A : Type ℓ} → (S → A) → Action S A
gets f s = (ok (f s), s)

abbrev pub modify : {S : Type 0} → (S → S) → Action S (Unit {0})
modify f s = (ok tt, f s)

-- What a call ensures: `Q` of its answer, `E` of its exception, each with the state it leaves.
abbrev pub Ensures :
    {S A : Type 0} → (Error → S → Type 0) → (A → S → Type 0) → Result A × S → Type 0
Ensures E Q (ok a, s) = Q a s
Ensures E Q (err e, s) = E e s

pub continue_rule :
    {S A B : Type 0} (E : Error → S → Type 0) (Q : A → S → Type 0) (R : B → S → Type 0)
    (r : Result A) (f : A → Action S B) (s : S)
    → Ensures E Q (r, s)
    → ((a : A) → Q a s → Ensures E R (f a s))
    → Ensures E R (continue r f s)
continue_rule E Q R (ok a) f s h k = k a h
continue_rule E Q R (err e) f s h k = h

-- The rule for a sequence.
pub bind_rule :
    {S A B : Type 0} (E : Error → S → Type 0) (Q : A → S → Type 0) (R : B → S → Type 0)
    (m : Action S A) (f : A → Action S B) (s : S)
    → Ensures E Q (m s)
    → ((a : A) (t : S) → Q a t → Ensures E R (f a t))
    → Ensures E R ((m >>= f) s)
bind_rule E Q R m f s h k = continue_rule E Q R (m s).0 f (m s).1 h (λ a q. k a (m s).1 q)

-- The rule of consequence.
pub weaken_rule :
    {S A : Type 0} (E : Error → S → Type 0) (Q R : A → S → Type 0) (r : Result A × S)
    → Ensures E Q r
    → ((a : A) (s : S) → Q a s → R a s)
    → Ensures E R r
weaken_rule E Q R (ok a, s) h k = k a s h
weaken_rule E Q R (err e, s) h k = h

-- The rule for a test.
pub if_rule :
    {S A : Type 0} (E : Error → S → Type 0) (Q : A → S → Type 0) (b : Bool) (m n : Result A × S)
    → (b ≡ true → Ensures E Q m)
    → (b ≡ false → Ensures E Q n)
    → Ensures E Q (if b then m else n)
if_rule E Q true m n h k = h refl
if_rule E Q false m n h k = k refl

-- What the activities read and write. `calls` numbers the calls that need an id and a time.
pub record World : Type 0 where
  pub store : EventStore
  pub objects : Objects
  pub calls : ℕ

-- What the worker injects: the OCR and LLM services, the configuration, Python's conversions, and
-- the ids and times that the environment hands out.
pub record Services : Type 0 where
  pub extract_text : String → Result String
  pub cost_model : ModelClient
  pub accuracy_model : ModelClient
  pub agent : Option (String → Result AgentState)
  pub confidence_threshold : Float
  pub high_value_amount : Float
  pub rulesets : Dict RuleSet
  pub refdata : Option (String → Option PolicyRecord)
  pub tenants : Option Directory
  pub reference : String → String
  pub read : String → Option Float
  pub show : Value → String
  pub stamp : ℕ → Stamp
