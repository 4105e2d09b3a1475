-- ===== src/Validation/Outcomes.antt =====
-- The outcome of the engine for an object that has an event_id, from the findings of each rule by
-- itself; for another object the engine raises.
use mathlib.Core.List.{append-nil, append_assoc}
use cryptopulse.Prelude.{
  ◌≡◌, ◌∙◌, sym, refl, ap, inl, inr, true, List, [], ◌∷◌, ◌++◌, some, Option-cases,
}
use cryptopulse.Python.Value.{Value}
use cryptopulse.Python.Call.{Call, returned, raised, >>=-eq-returned, returned-injective}
use cryptopulse.Contracts.Events.{Attributes}
use cryptopulse.Contracts.Validation.{ValidationOutcome}
use cryptopulse.Validation.Rules.{Rule, Failures}
use cryptopulse.Validation.Engine.{execution_failed, run_rule, run_rules, outcome_of, validate}

abbrev pub HasIdentity : Attributes → Type 0
HasIdentity a = (v : Value) × (a.event_id ≡ some v)

-- What one rule adds to the failures.
unfoldable pub finding : Attributes → Rule → Failures
finding a rule = elim (rule.validate a) [
  | returned failures ↦ failures
  | raised x ↦ execution_failed rule.name x
]

-- The findings of the rules, one after the other.
abbrev pub findings : Attributes → List Rule → Failures
findings a [] = []
findings a (rule ∷ rules) = finding a rule ++ findings a rules

abbrev pub outcome : List Rule → Attributes → ValidationOutcome
outcome rules a = outcome_of (findings a rules)

-- The engine returns an outcome that trusts the event.
abbrev pub Trusts : List Rule → Attributes → Type 0
Trusts rules a = (o : ValidationOutcome) × (validate rules a ≡ returned o) × (o.valid ≡ true)

module _ (a : Attributes) where
  module _ (v : Value) (has : a.event_id ≡ some v) where
    run_rule-finding : (rule : Rule) → run_rule a rule ≡ returned (finding a rule)
    unfolding run_rule finding
    run_rule-finding rule = go (rule.validate a) refl
      where
        go : (r : Call Failures) → rule.validate a ≡ r → run_rule a rule ≡ returned (finding a rule)
        go (returned fs) e = rw (run_rule, finding, e) refl
        go (raised x) e = rw (run_rule, finding, e) (rw has refl)

    run_rules-findings :
        (rules : List Rule) (found : Failures)
        → run_rules a rules found ≡ returned (found ++ findings a rules)
    unfolding run_rules
    run_rules-findings [] found = ap returned (sym (append-nil found))
    run_rules-findings (rule ∷ rules) found = rw (run_rule-finding rule) (
        run_rules-findings rules (found ++ finding a rule)
        ∙ ap returned (append_assoc found (finding a rule) (findings a rules)))

  -- An object with an identity gets its outcome.
  pub validate-outcome :
      (rules : List Rule) → HasIdentity a → validate rules a ≡ returned (outcome rules a)
  unfolding validate
  validate-outcome rules (v, has) = rw (run_rules-findings v has rules []) (rw has refl)

  -- An outcome is returned for an object with an identity only, and is the one above.
  pub validate-eq-returned :
      (rules : List Rule) (o : ValidationOutcome)
      → validate rules a ≡ returned o
      → HasIdentity a × (o ≡ outcome rules a)
  unfolding validate
  validate-eq-returned rules o h =
      let (found, ran, rest) = >>=-eq-returned (run_rules a rules []) _ h in
      elim (Option-cases a.event_id) [
        | inl missing ↦ absurd (let h' = rw missing at rest in cc)
        | inr has ↦ (has, returned-injective (sym h ∙ validate-outcome rules has))
      ]
