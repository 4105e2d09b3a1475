-- ===== src/Validation/Collect.antt =====
-- The engine runs every rule, and a rule that raises does not stop the others.
use mathlib.Core.List.{append_assoc}
use cryptopulse.Prelude.{String, ◌≡◌, ◌∙◌, sym, refl, ap, Bool, false, List, [], ◌∷◌, ◌++◌}
use cryptopulse.Python.Value.{Raised}
use cryptopulse.Python.Call.{raised, returned}
use cryptopulse.Contracts.Events.{Attributes}
use cryptopulse.Contracts.Validation.{ValidationOutcome}
use cryptopulse.Validation.Rules.{Rule, Failures}
use cryptopulse.Validation.Engine.{execution_failed, is_nil, outcome_of, validate}
use cryptopulse.Validation.Outcomes.{finding, findings, validate-outcome, validate-eq-returned}

findings-append :
    (a : Attributes) (rs ss : List Rule) → findings a (rs ++ ss) ≡ findings a rs ++ findings a ss
findings-append a [] ss = refl
findings-append a (r ∷ rs) ss =
    ap (λ (t : Failures). finding a r ++ t) (findings-append a rs ss)
    ∙ sym (append_assoc (finding a r) (findings a rs) (findings a ss))

module _ (a : Attributes) (p q : ValidationOutcome) where
  -- If the engine returns an outcome under some rules, and one under others, then under the first
  -- and then the others it returns the failures of the first and then those of the others: no rule
  -- hides the failures of another.
  pub failures-append :
      (rs ss : List Rule)
      → validate rs a ≡ returned p
      → validate ss a ≡ returned q
      → validate (rs ++ ss) a ≡ returned (outcome_of (p.failures ++ q.failures))
  failures-append rs ss first second =
      let (has, is_p) = validate-eq-returned a rs p first in
      let (_, is_q) = validate-eq-returned a ss q second in
      validate-outcome a (rs ++ ss) has
      ∙ ap (λ (fs : Failures). returned (outcome_of fs))
          (findings-append a rs ss ∙ rw is_p (rw is_q refl))

  is_nil-append :
      (xs : Failures) (name : String) (x : Raised) (zs : Failures)
      → is_nil (xs ++ (execution_failed name x ++ zs)) ≡ false
  unfolding execution_failed
  is_nil-append [] name x zs = refl
  is_nil-append (f ∷ xs) name x zs = refl

  -- If a rule raises, on an object for which the engine returns under the rules before it and under
  -- those after it, then the engine returns under all of them, and rejects: the exception is
  -- reported as one failure under the rule's name in the rule's place, and the failures of the rules
  -- before and after it are kept.
  pub validate_raised :
      (before after : List Rule) (rule : Rule) (x : Raised)
      → rule.validate a ≡ raised x
      → validate before a ≡ returned p
      → validate after a ≡ returned q
      → validate (before ++ rule ∷ after) a
        ≡ returned (record {
          valid = false;
          failures = p.failures ++ (execution_failed rule.name x ++ q.failures);
        })
  unfolding finding
  validate_raised before after rule x h first second =
      let (has, is_p) = validate-eq-returned a before p first in
      let (_, is_q) = validate-eq-returned a after q second in
      let found : findings a (before ++ rule ∷ after)
          ≡ p.failures ++ (execution_failed rule.name x ++ q.failures) =
        let one : finding a rule ≡ execution_failed rule.name x = rw (finding, h) refl in
        findings-append a before (rule ∷ after) ∙ rw one (rw is_p (rw is_q refl)) in
      validate-outcome a (before ++ rule ∷ after) has
      ∙ ap (λ (fs : Failures). returned (outcome_of fs)) found
      ∙ ap
          (λ (b : Bool). returned (record {
            valid = b;
            failures = p.failures ++ (execution_failed rule.name x ++ q.failures);
          }))
          (is_nil-append p.failures rule.name x q.failures)
