-- ===== src/Temporal/Faults.antt =====
-- The exceptions of the services and of the data, set apart from those of a wrong order of stages.
use insurance_claim_ai.Prelude.{
  ◌≡◌, inl, inr, String, Bool, true, false, Option, List, [], ◌∷◌, arith, Dict, get, Option-cases,
}
use insurance_claim_ai.Domain.Errors.{err, Error, illegal_transition, assertion_error, Result-cases}
use insurance_claim_ai.Value.{Value, Float}
use insurance_claim_ai.Domain.Models.{Claim}
use insurance_claim_ai.ObjectStore.{Objects, get_object}
use insurance_claim_ai.Adjudication.{
  RuleSet, adjudicate, Op, Condition, Rule, ordered, holds, all_hold, try_rules, present,
}
use insurance_claim_ai.Value.Conversion.{to_float, float_of_int}
use insurance_claim_ai.Temporal.Action.{Services}
use insurance_claim_ai.Temporal.Activities.{claim_value, amount_or_zero, second_opinion}

-- The exceptions that come from the services and the data, and not from an order of the stages that
-- the projection or the workflow refuses.
abbrev pub is_order_error : Error → Bool
is_order_error illegal_transition = true
is_order_error assertion_error = true
is_order_error _ = false

abbrev pub Safe : Error → Type 0
Safe e = is_order_error e ≡ false

pub to_float-Safe :
    (read : String → Option Float) (v : Value) (e : Error) → to_float read v ≡ err e → Safe e
unfolding to_float float_of_int
to_float-Safe read v e h = ground arith

module _ (read : String → Option Float) where
  ordered-Safe :
      (op : Op) (actual value : Value) (e : Error) → ordered read op actual value ≡ err e → Safe e
  ordered-Safe op actual value e h = elim (Result-cases (to_float read actual)) [
    | inr (x, bad) ↦ ground (arith, bad, to_float-Safe read actual x bad)
    | inl (a, fine) ↦ elim (Result-cases (to_float read value)) [
      | inr (y, bad) ↦ ground (arith, fine, bad, to_float-Safe read value y bad)
      | inl (b, both) ↦ absurd (ground (arith, fine, both))
    ]
  ]

  holds-Safe :
      (c : Condition) (facts : Dict Value) (e : Error) → holds read c facts ≡ err e → Safe e
  unfolding holds
  holds-Safe c facts e h = elim (Option-cases (present facts c.field)) [
    | inl absent ↦ absurd (ground (arith, absent))
    | inr (v, there) ↦ ground (arith, there, ordered-Safe c.op v c.value e)
  ]

  all_hold-Safe :
      (cs : List Condition) (facts : Dict Value) (e : Error)
      → all_hold read cs facts ≡ err e
      → Safe e
  unfolding all_hold
  all_hold-Safe [] facts e h = cc
  all_hold-Safe (c ∷ cs) facts e h = ground (arith, holds-Safe c facts e, all_hold-Safe cs facts e)

  try_rules-Safe :
      (rs : RuleSet) (facts : Dict Value) (rules : List Rule) (e : Error)
      → try_rules read rs facts rules ≡ err e
      → Safe e
  unfolding try_rules
  try_rules-Safe rs facts [] e h = cc
  try_rules-Safe rs facts (rule ∷ rules) e h =
      ground (arith, all_hold-Safe rule.conditions facts e, try_rules-Safe rs facts rules e)

  pub adjudicate-Safe :
      (rs : RuleSet) (facts : Dict Value) (e : Error) → adjudicate read rs facts ≡ err e → Safe e
  unfolding adjudicate
  adjudicate-Safe rs facts e h = try_rules-Safe rs facts rs.rules e h

-- The services raise what is theirs, never an exception that speaks of the order of the stages.
pub record AreSafe (sv : Services) : Type 0 where
  pub text_safe : (pdf : String) (e : Error) → sv.extract_text pdf ≡ err e → Safe e
  pub cost_safe : (text : String) (e : Error) → sv.cost_model text ≡ err e → Safe e
  pub opinion_safe :
      (text : String) (e : Error) → second_opinion sv.agent sv.accuracy_model text ≡ err e → Safe e

pub claim_value-Safe : (sv : Services) (c : Claim) (e : Error) → claim_value sv c ≡ err e → Safe e
unfolding claim_value
claim_value-Safe sv c e h =
    to_float-Safe sv.read (amount_or_zero (get c.metadata.attributes "amount")) e h

pub get_object-Safe :
    (objects : Objects) (key : String) (e : Error) → get_object objects key ≡ err e → Safe e
unfolding get_object
get_object-Safe objects key e h = ground arith
