-- ===== src/Tests/Rules.antt =====
-- The theorems on validation at concrete inputs.
use cryptopulse.Prelude.{◌≡◌, ◌↔◌, refl, true, false, [], ◌∷◌, ◌++◌, none, All}
use cryptopulse.Python.Value.{Raised, attribute_error}
use cryptopulse.Python.Call.{raised, returned}
use cryptopulse.Contracts.Events.{Attributes, attributes}
use cryptopulse.Contracts.Validation.{ValidationOutcome}
use cryptopulse.Validation.Rules.{Rule, default_rules, failure}
use cryptopulse.Validation.Engine.{validate, execution_failed, outcome_of}
use cryptopulse.Validation.Outcomes.{HasIdentity, Trusts}
use cryptopulse.Validation.Trustworthy.{IsTrustworthy}
use cryptopulse.Validation.Decision.{Passes, validate-All, validate-IsTrustworthy}
use cryptopulse.Validation.Collect.{failures-append, validate_raised}
use cryptopulse.Tests.Data.{good, bad}

abbrev broken : Raised
broken = record { kind = "RuntimeError"; message = "no answer" }

abbrev raising_rule : Rule
raising_rule = record { name = "broken"; validate = λ a. raised broken }

good_is_valid :
    validate default_rules (attributes good) ≡ returned (record { valid = true; failures = [] })
unfolding validate default_rules attributes cryptopulse.Validation.Rules.validate_required
    cryptopulse.Validation.Rules.is_unusable cryptopulse.Python.Value.as_text
    cryptopulse.Python.Text.is_blank cryptopulse.Python.Text.is_space
    cryptopulse.Validation.Rules.validate_event_id cryptopulse.Validation.Rules.validate_trade_id
    cryptopulse.Validation.Rules.validate_symbol cryptopulse.Validation.Rules.is_invalid_symbol
    cryptopulse.Validation.Rules.validate_side cryptopulse.Validation.Rules.validate_price
    cryptopulse.Python.Decimal.is_non_positive cryptopulse.Validation.Rules.validate_quantity
    cryptopulse.Validation.Rules.validate_timestamps
good_is_valid = refl

abbrev rejected : ValidationOutcome
rejected = record {
  valid = false;
  failures = failure "price_validity" "non_positive" "price must be positive, got 0" ∷ [];
}

bad_is_rejected : validate default_rules (attributes bad) ≡ returned rejected
unfolding validate default_rules attributes cryptopulse.Validation.Rules.validate_required
    cryptopulse.Validation.Rules.is_unusable cryptopulse.Python.Value.as_text
    cryptopulse.Python.Text.is_blank cryptopulse.Python.Text.is_space
    cryptopulse.Validation.Rules.validate_event_id cryptopulse.Validation.Rules.validate_trade_id
    cryptopulse.Validation.Rules.validate_symbol cryptopulse.Validation.Rules.is_invalid_symbol
    cryptopulse.Validation.Rules.validate_side cryptopulse.Validation.Rules.validate_price
    cryptopulse.Python.Decimal.is_non_positive cryptopulse.Python.Print.str_decimal
    cryptopulse.Validation.Rules.validate_quantity cryptopulse.Validation.Rules.validate_timestamps
bad_is_rejected = refl

validate-IsTrustworthy_example :
    Trusts default_rules (attributes good) ↔ IsTrustworthy (attributes good)
validate-IsTrustworthy_example = validate-IsTrustworthy (attributes good)

validate-All_example :
    Trusts (raising_rule ∷ []) (attributes good)
    ↔ (HasIdentity (attributes good) × All (Passes (attributes good)) (raising_rule ∷ []))
validate-All_example = validate-All (raising_rule ∷ []) (attributes good)

-- Without an identity the engine raises, for the rules that it has raise no matter.
abbrev nameless : Attributes
unfolding attributes
nameless = record (attributes good) { event_id = none }

nameless_raises :
    validate (raising_rule ∷ []) nameless ≡ raised (attribute_error "InternalEvent" "event_id")
unfolding validate nameless
nameless_raises = refl

abbrev broken_outcome : ValidationOutcome
unfolding execution_failed
broken_outcome = record { valid = false; failures = execution_failed "broken" broken }

abbrev nothing_found : ValidationOutcome
nothing_found = record { valid = true; failures = [] }

broken_run : validate (raising_rule ∷ []) (attributes bad) ≡ returned broken_outcome
unfolding validate attributes broken_outcome
broken_run = refl

no_rules : validate [] (attributes bad) ≡ returned nothing_found
unfolding validate attributes
no_rules = refl

failures-append_example :
    validate ((raising_rule ∷ []) ++ default_rules) (attributes bad)
    ≡ returned (outcome_of (broken_outcome.failures ++ rejected.failures))
failures-append_example =
    failures-append (attributes bad) broken_outcome rejected (raising_rule ∷ []) default_rules
      broken_run bad_is_rejected

validate_raised_example :
    validate (default_rules ++ raising_rule ∷ []) (attributes bad)
    ≡ returned (record {
      valid = false;
      failures = rejected.failures ++ (execution_failed "broken" broken ++ []);
    })
validate_raised_example =
    validate_raised (attributes bad) rejected nothing_found default_rules [] raising_rule broken
      refl bad_is_rejected no_rules
