-- ===== src/Warehouse/Schemas/Quarantine.antt =====
-- warehouse/schemas/quarantine.py: QuarantineRecords and rows of quarantine.events.

use cryptopulse.Prelude.{
  String, ◌≡◌, refl, Option, none, some, List, [], ◌∷◌, str_eq, if◌then◌else◌,
}
use cryptopulse.Python.Decimal.{finite}
use cryptopulse.Python.Datetime.{Datetime}
use cryptopulse.Python.Value.{
  Value, text, decimal, datetime, array, object, Items, nil, cons, Fields, end, field, side_value,
  event_type_value, as_text,
}
use cryptopulse.Python.Call.{Call, returned, raised, ◌>>=◌}
use cryptopulse.Contracts.Events.{InternalEvent}
use cryptopulse.Contracts.Validation.{ValidationFailure}
use cryptopulse.Warehouse.Rows.{
  Row, RowErrors, get_column, as_datetime, nonconforming, row_error, parse_event_type-value,
  parse_side-value,
}
use cryptopulse.Warehouse.Schemas.Bronze.{read_event}

-- `QuarantineRecord`
pub record QuarantineRecord : Type 0 where
  pub event : InternalEvent
  pub quarantined_at : Datetime
  pub failures : List ValidationFailure

abbrev pub quarantine_errors : RowErrors
quarantine_errors = record {
  kind = "QuarantineRowError";
  nonconforming = "quarantine row does not conform to the canonical contracts";
}

-- `failure.model_dump()`
unfoldable pub model_dump : ValidationFailure → Value
model_dump f =
    object (
      field "rule" (text f.rule)
        (field "code" (text f.code) (field "message" (text f.message) end)))

unfoldable pub dump_failures : List ValidationFailure → Items
unfolding model_dump
dump_failures [] = nil
dump_failures (f ∷ fs) = cons (model_dump f) (dump_failures fs)

unfoldable pub quarantine_record_to_record : QuarantineRecord → Row
unfolding dump_failures
quarantine_record_to_record r =
    let e = r.event in
    ("event_id", text e.event_id)
    ∷ ("source", text e.source)
    ∷ ("event_type", text (event_type_value e.event_type))
    ∷ ("received_at", datetime e.received_at)
    ∷ ("quarantined_at", datetime r.quarantined_at)
    ∷ ("symbol", text e.symbol)
    ∷ ("price", decimal (finite e.price))
    ∷ ("quantity", decimal (finite e.quantity))
    ∷ ("side", text (side_value e.side))
    ∷ ("trade_id", text e.trade_id)
    ∷ ("trade_timestamp", datetime e.trade_timestamp)
    ∷ ("payload", object e.payload)
    ∷ ("failures", array (dump_failures r.failures))
    ∷ []

unfoldable pub member : String → Fields → Option Value
member key end = none
member key (field name v rest) = if str_eq key name then some v else member key rest

-- A member of the JSON object that has to be a text.
abbrev pub text_of : Option Value → Call String
text_of none = raised (nonconforming quarantine_errors)
text_of (some v) = elim (as_text v) [
  | none ↦ raised (nonconforming quarantine_errors)
  | some s ↦ returned s
]

-- `ValidationFailure.model_validate(item)`
unfoldable pub model_validate : Value → Call ValidationFailure
unfolding member as_text
model_validate (object fs) = do
  rule ← text_of (member "rule" fs)
  code ← text_of (member "code" fs)
  message ← text_of (member "message" fs)
  returned (record { rule = rule; code = code; message = message })
model_validate _ = raised (nonconforming quarantine_errors)

unfoldable pub validate_failures : Items → Call (List ValidationFailure)
unfolding model_validate
validate_failures nil = returned []
validate_failures (cons v vs) = do
  f ← model_validate v
  fs ← validate_failures vs
  returned (f ∷ fs)

abbrev pub read_failures : Value → Call (List ValidationFailure)
read_failures (array vs) = validate_failures vs
read_failures _ = raised (row_error quarantine_errors "column 'failures' is not a JSON array")

unfoldable pub record_to_quarantine_record : Row → Call QuarantineRecord
unfolding read_event validate_failures
record_to_quarantine_record row = do
  event ← read_event quarantine_errors row
  quarantined_at ← as_datetime quarantine_errors "quarantined_at" row
  raw_failures ← get_column quarantine_errors "failures" row
  failures ← read_failures raw_failures
  returned (record { event = event; quarantined_at = quarantined_at; failures = failures })

validate-dump : (fs : List ValidationFailure) → validate_failures (dump_failures fs) ≡ returned fs
unfolding validate_failures dump_failures
validate-dump [] = refl
validate-dump (f ∷ fs) = rw (validate-dump fs)

-- A row made from a quarantine record reads back as that record, with every failure in its order.
pub quarantine_round_trip :
    (r : QuarantineRecord)
    → record_to_quarantine_record (quarantine_record_to_record r) ≡ returned r
unfolding record_to_quarantine_record quarantine_record_to_record
quarantine_round_trip r = rw (parse_event_type-value, parse_side-value, validate-dump)
