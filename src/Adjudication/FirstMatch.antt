-- ===== src/Adjudication/FirstMatch.antt =====
-- `adjudicate` against a description of first-match decision tables.
use mathlib.Core.Path.{subst}
use insurance_claim_ai.Prelude.{
  ◌≡◌, ◌⊎◌, inl, inr, refl, ap, ◌∙◌, ◌↔◌, String, true, false, All, Option, none, some, List, [],
  ◌∷◌, Dict, Bool-cases,
}
use insurance_claim_ai.Domain.Errors.{ok, >>=-eq-ok, ok-injective}
use insurance_claim_ai.Value.{Value, Float}
use insurance_claim_ai.Adjudication.{
  Condition, Decision, pend, Rule, RuleSet, AdjudicationResult, holds, all_hold, matches, try_rules,
  adjudicate,
}

module _ (read : String → Option Float) (rs : RuleSet) (facts : Dict Value) where
  -- Every condition holds.
  abbrev pub AllMet : List Condition → Type 0
  AllMet cs = All (λ c. holds read c facts ≡ ok true) cs

  -- Some condition does not hold, and those before it do.
  pub data Unmet : List Condition → Type 0 where
    here : (c : Condition) (cs : List Condition) → holds read c facts ≡ ok false → Unmet (c ∷ cs)
    later :
        (c : Condition) (cs : List Condition)
        → holds read c facts ≡ ok true
        → Unmet cs
        → Unmet (c ∷ cs)

  -- The result of the whole table.
  abbrev pub result : Decision → String → Option String → AdjudicationResult
  result decision reason rule_id = record {
    decision = decision;
    reason_codes = reason ∷ [];
    rule_id = rule_id;
    rule_set = rs.name;
    rule_set_version = rs.version;
    facts = facts;
  }

  -- The result that a table gives: that of its first rule all of whose conditions hold, or PEND.
  pub data FirstMatch : List Rule → AdjudicationResult → Type 0 where
    unmatched : FirstMatch [] (result pend "NO_RULE_MATCHED" none)
    hit :
        (rule : Rule) (rules : List Rule)
        → AllMet rule.conditions
        → FirstMatch (rule ∷ rules) (result rule.outcome rule.reason_code (some rule.rule_id))
    miss :
        (rule : Rule) (rules : List Rule) {r : AdjudicationResult}
        → Unmet rule.conditions
        → FirstMatch rules r
        → FirstMatch (rule ∷ rules) r

  all_hold-AllMet : (cs : List Condition) → all_hold read cs facts ≡ ok true → AllMet cs
  unfolding all_hold
  all_hold-AllMet [] h = tt
  all_hold-AllMet (c ∷ cs) h =
      let (b, tested, rest) = >>=-eq-ok (holds read c facts) _ h in
      elim (Bool-cases b) [
        | inl yes_b ↦ (tested ∙ ap ok yes_b, all_hold-AllMet cs (rw yes_b at rest))
        | inr no_b ↦ absurd (cc (rw no_b at rest))
      ]

  AllMet-all_hold : (cs : List Condition) → AllMet cs → all_hold read cs facts ≡ ok true
  unfolding all_hold
  AllMet-all_hold [] h = refl
  AllMet-all_hold (c ∷ cs) h = rw h.0 (AllMet-all_hold cs h.1)

  all_hold-Unmet : (cs : List Condition) → all_hold read cs facts ≡ ok false → Unmet cs
  unfolding all_hold
  all_hold-Unmet [] h = absurd (cc)
  all_hold-Unmet (c ∷ cs) h =
      let (b, tested, rest) = >>=-eq-ok (holds read c facts) _ h in
      elim (Bool-cases b) [
        | inl yes_b ↦ later c cs (tested ∙ ap ok yes_b) (all_hold-Unmet cs (rw yes_b at rest))
        | inr no_b ↦ here c cs (tested ∙ ap ok no_b)
      ]

  Unmet-all_hold : (cs : List Condition) → Unmet cs → all_hold read cs facts ≡ ok false
  unfolding all_hold
  Unmet-all_hold _ (here c cs h) = rw h refl
  Unmet-all_hold _ (later c cs h m) = rw h (Unmet-all_hold cs m)

  try_rules-FirstMatch :
      (rules : List Rule) (r : AdjudicationResult)
      → try_rules read rs facts rules ≡ ok r
      → FirstMatch rules r
  unfolding try_rules
  try_rules-FirstMatch [] r h = subst (FirstMatch []) (ok-injective h) unmatched
  try_rules-FirstMatch (rule ∷ rules) r h =
      let (b, tested, rest) = >>=-eq-ok (matches read rule facts) _ h in
      let others : (try_rules read rs facts rules ≡ ok r → FirstMatch rules r) =
        try_rules-FirstMatch rules r in
      elim (Bool-cases b) [
        | inl yes_b ↦
            subst (FirstMatch (rule ∷ rules)) (ok-injective (rw yes_b at rest))
              (hit rule rules (all_hold-AllMet rule.conditions (tested ∙ ap ok yes_b)))
        | inr no_b ↦
            miss rule rules (all_hold-Unmet rule.conditions (tested ∙ ap ok no_b))
              (others (rw no_b at rest))
      ]

  FirstMatch-try_rules :
      (rules : List Rule) (r : AdjudicationResult)
      → FirstMatch rules r
      → try_rules read rs facts rules ≡ ok r
  unfolding try_rules
  FirstMatch-try_rules _ _ unmatched = refl
  FirstMatch-try_rules _ _ (hit rule rules h) = rw (AllMet-all_hold rule.conditions h)
  FirstMatch-try_rules _ r (miss rule rules h m) =
      rw (Unmet-all_hold rule.conditions h) (FirstMatch-try_rules rules r m)

  -- `adjudicate` returns a result exactly where the table gives it: the first rule all of whose
  -- conditions hold decides, with its outcome and reason; in every rule before it some condition does
  -- not hold; and with no such rule the claim PENDs, by no rule.
  pub adjudicate_iff :
      (r : AdjudicationResult) → (adjudicate read rs facts ≡ ok r) ↔ FirstMatch rs.rules r
  unfolding adjudicate
  adjudicate_iff r = (try_rules-FirstMatch rs.rules r, FirstMatch-try_rules rs.rules r)

  -- Some rule of the list that matches has the outcome.
  abbrev pub HasOutcome : Decision → List Rule → Type 0
  HasOutcome d [] = ⊥
  HasOutcome d (rule ∷ rules) =
      ((matches read rule facts ≡ ok true) × (rule.outcome ≡ d)) ⊎ HasOutcome d rules

  FirstMatch-HasOutcome :
      (rules : List Rule) (r : AdjudicationResult)
      → FirstMatch rules r
      → (r.decision ≡ pend) ⊎ HasOutcome r.decision rules
  FirstMatch-HasOutcome _ _ unmatched = inl refl
  FirstMatch-HasOutcome _ _ (hit rule rules h) = inr (inl (AllMet-all_hold rule.conditions h, refl))
  FirstMatch-HasOutcome _ r (miss rule rules h m) = elim (FirstMatch-HasOutcome rules r m) [
    | inl pending ↦ inl pending
    | inr there ↦ inr (inr there)
  ]

  -- No claim is approved or denied by fallthrough: a rule of the set that matches says so.
  pub decision_needs_rule :
      (r : AdjudicationResult)
      → adjudicate read rs facts ≡ ok r
      → (r.decision ≡ pend) ⊎ HasOutcome r.decision rs.rules
  decision_needs_rule r h = FirstMatch-HasOutcome rs.rules r ((adjudicate_iff r).0 h)
