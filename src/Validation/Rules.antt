-- ===== src/Validation/Rules.antt =====
-- processing/validation/base.py and rules.py: the eight rules, as functions of the attributes that
-- they read. Reading an absent attribute raises AttributeError, as `getattr` does.
use Prim.Native.String
use cryptopulse.Prelude.{
  String, Bool, true, false, not, ◌||◌, str_eq, Option, none, some, List, [], ◌∷◌, ◌++◌,
  if◌then◌else◌,
}
use cryptopulse.Python.Text.{strip, is_blank}
use cryptopulse.Python.Decimal.{finite, is_non_positive}
use cryptopulse.Python.Datetime.{is_naive}
use cryptopulse.Python.Print.{str_decimal}
use cryptopulse.Python.Value.{Value, decimal, datetime, object, as_text, type_name, attribute_error}
use cryptopulse.Python.Call.{Call, returned, raised, ◌>>=◌}
use cryptopulse.Contracts.Events.{Attributes}
use cryptopulse.Contracts.Validation.{ValidationFailure}

abbrev pub Failures : Type 0
Failures = List ValidationFailure

-- `ValidationRule`
pub record Rule : Type 0 where
  pub name : String
  pub validate : Attributes → Call Failures

-- `getattr(event, name)`
abbrev pub read : String → Option Value → Call Value
read name none = raised (attribute_error "InternalEvent" name)
read name (some v) = returned v

abbrev pub failure : String → String → String → ValidationFailure
failure rule code message = record { rule = rule; code = code; message = message }

-- `not isinstance(value, str) or not value.strip()`
unfoldable pub is_unusable : Value → Bool
is_unusable v = elim (as_text v) [ none ↦ true | some s ↦ is_blank s ]

abbrev pub required : String → ValidationFailure
required name =
    failure "required_fields" "missing_or_empty"
      (String.◌++◌ "required field '" (String.◌++◌ name "' is missing or empty"))

-- The loop over the names of the required fields, with the attributes that they name.
unfoldable pub check_required : List (String × Option Value) → Call Failures
check_required [] = returned []
check_required ((name, attribute) ∷ rest) = do
  value ← read name attribute
  failures ← check_required rest
  returned (if is_unusable value then required name ∷ failures else failures)

abbrev pub is_object : Value → Bool
is_object (object fs) = true
is_object _ = false

abbrev pub payload_not_object : ValidationFailure
payload_not_object = failure "required_fields" "payload_not_object" "payload must be a JSON object"

unfoldable pub validate_required : Attributes → Call Failures
unfolding check_required
validate_required a = do
  failures ← check_required (
      ("event_id", a.event_id)
      ∷ ("source", a.source)
      ∷ ("symbol", a.symbol)
      ∷ ("trade_id", a.trade_id)
      ∷ [])
  payload ← read "payload" a.payload
  returned (if is_object payload then failures else failures ++ payload_not_object ∷ [])

-- A price or a quantity: finite, and above zero.
unfoldable pub check_amount : String → String → Value → Failures
check_amount rule field (decimal (finite d)) =
    if is_non_positive d
    then failure rule "non_positive"
        (String.◌++◌ field (String.◌++◌ " must be positive, got " (str_decimal d)))
      ∷ []
    else []
check_amount rule field _ =
    failure rule "not_finite_decimal" (String.◌++◌ field " must be a finite Decimal") ∷ []

unfoldable pub validate_price : Attributes → Call Failures
unfolding check_amount
validate_price a = do
  price ← read "price" a.price
  returned (check_amount "price_validity" "price" price)

unfoldable pub validate_quantity : Attributes → Call Failures
unfolding check_amount
validate_quantity a = do
  quantity ← read "quantity" a.quantity
  returned (check_amount "quantity_validity" "quantity" quantity)

abbrev pub is_side : Value → Bool
is_side (Value.side s) = true
is_side _ = false

abbrev pub unsupported_side : ValidationFailure
unsupported_side = failure "trade_side_validity" "unsupported_side" "side must be one of buy, sell"

unfoldable pub validate_side : Attributes → Call Failures
validate_side a = do
  side ← read "side" a.side
  returned (if not (is_side side) then unsupported_side ∷ [] else [])

-- The failures of one timestamp; anything but a datetime has no attribute `tzinfo`.
unfoldable pub check_aware : String → String → Value → Call Failures
check_aware code message (datetime d) =
    returned (if is_naive d then failure "timestamp_validity" code message ∷ [] else [])
check_aware code message v = raised (attribute_error (type_name v) "tzinfo")

unfoldable pub validate_timestamps : Attributes → Call Failures
unfolding check_aware
validate_timestamps a = do
  trade_timestamp ← read "trade_timestamp" a.trade_timestamp
  first ←
      check_aware "naive_trade_timestamp" "trade_timestamp must be timezone-aware" trade_timestamp
  received_at ← read "received_at" a.received_at
  second ← check_aware "naive_received_at" "received_at must be timezone-aware" received_at
  returned (first ++ second)

-- `not isinstance(symbol, str) or not symbol.strip() or symbol != symbol.strip()`
unfoldable pub is_invalid_symbol : Value → Bool
is_invalid_symbol v = elim (as_text v) [
  | none ↦ true
  | some s ↦ is_blank s || not (str_eq s (strip s))
]

abbrev pub bad_symbol : ValidationFailure
bad_symbol =
    failure "symbol_validity" "invalid_symbol"
      "symbol must be a non-blank string without surrounding whitespace"

unfoldable pub validate_symbol : Attributes → Call Failures
validate_symbol a = do
  symbol ← read "symbol" a.symbol
  returned (if is_invalid_symbol symbol then bad_symbol ∷ [] else [])

abbrev pub missing_event_id : ValidationFailure
missing_event_id =
    failure "event_identity" "missing_event_id" "event_id must be present and non-empty"

unfoldable pub validate_event_id : Attributes → Call Failures
validate_event_id a = do
  event_id ← read "event_id" a.event_id
  returned (if is_unusable event_id then missing_event_id ∷ [] else [])

abbrev pub missing_trade_id : ValidationFailure
missing_trade_id =
    failure "trade_identity" "missing_trade_id" "trade_id must be present and non-empty"

unfoldable pub validate_trade_id : Attributes → Call Failures
validate_trade_id a = do
  trade_id ← read "trade_id" a.trade_id
  returned (if is_unusable trade_id then missing_trade_id ∷ [] else [])

-- The rule set, in its order of evaluation.
unfoldable pub default_rules : List Rule
default_rules =
    record { name = "required_fields"; validate = validate_required }
    ∷ record { name = "event_identity"; validate = validate_event_id }
    ∷ record { name = "trade_identity"; validate = validate_trade_id }
    ∷ record { name = "symbol_validity"; validate = validate_symbol }
    ∷ record { name = "trade_side_validity"; validate = validate_side }
    ∷ record { name = "price_validity"; validate = validate_price }
    ∷ record { name = "quantity_validity"; validate = validate_quantity }
    ∷ record { name = "timestamp_validity"; validate = validate_timestamps }
    ∷ []
