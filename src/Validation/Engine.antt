-- ===== src/Validation/Engine.antt =====
-- processing/validation/engine.py: every rule is run, and a rule that raises counts as a failure.
-- Of the logging, the attribute that it reads of the event is kept, and no more.
use Prim.Native.String
use cryptopulse.Prelude.{String, Bool, true, false, List, [], ◌∷◌, ◌++◌}
use cryptopulse.Python.Datetime.{Datetime}
use cryptopulse.Python.Value.{Value, Raised}
use cryptopulse.Python.Call.{Call, returned, raised, ◌>>=◌}
use cryptopulse.Contracts.Events.{Attributes, InternalEvent, TrustedEvent}
use cryptopulse.Contracts.Validation.{ValidationOutcome}
use cryptopulse.Validation.Rules.{Rule, Failures, failure, read}

-- The failure that stands for an exception of a rule.
unfoldable pub execution_failed : String → Raised → Failures
execution_failed name x =
    failure name "rule_execution_failed" (
      String.◌++◌ "rule '" (
        String.◌++◌ name
          (String.◌++◌ "' raised " (String.◌++◌ x.kind (String.◌++◌ ": " x.message)))))
    ∷ []

-- `event.event_id`, which the engine reads for its logging.
abbrev read_event_id : Attributes → Call Value
read_event_id a = read "event_id" a.event_id

-- One round of the loop: the `try` around the rule. The logging of its handler can raise itself.
unfoldable pub run_rule : Attributes → Rule → Call Failures
unfolding execution_failed
run_rule a rule = elim (rule.validate a) [
  | returned failures ↦ returned failures
  | raised x ↦ (do event_id ← read_event_id a; returned (execution_failed rule.name x))
]

-- `failures` is what the rounds before have found.
unfoldable pub run_rules : Attributes → List Rule → Failures → Call Failures
unfolding run_rule
run_rules a [] failures = returned failures
run_rules a (rule ∷ rules) failures = do
  found ← run_rule a rule
  run_rules a rules (failures ++ found)

abbrev pub is_nil : Failures → Bool
is_nil [] = true
is_nil (x ∷ xs) = false

abbrev pub outcome_of : Failures → ValidationOutcome
outcome_of failures = record { valid = is_nil failures; failures = failures }

-- `ValidationEngine.validate`, for an engine with the given rules. Whatever the outcome is, the
-- logging before the return reads the identity.
unfoldable pub validate : List Rule → Attributes → Call ValidationOutcome
unfolding run_rules
validate rules a = do
  failures ← run_rules a rules []
  event_id ← read_event_id a
  returned (outcome_of failures)

-- `Validator.trusted_event_from`, with the time that it reads.
unfoldable pub trusted_event_from : Datetime → InternalEvent → TrustedEvent
trusted_event_from now e = record {
  event_id = e.event_id;
  source = e.source;
  event_type = e.event_type;
  received_at = e.received_at;
  validated_at = now;
  symbol = e.symbol;
  price = e.price;
  quantity = e.quantity;
  side = e.side;
  trade_id = e.trade_id;
  trade_timestamp = e.trade_timestamp;
  payload = e.payload;
}
