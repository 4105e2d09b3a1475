-- ===== src/Warehouse/Schemas/Bronze.antt =====
-- warehouse/schemas/bronze.py: InternalEvents and rows of bronze.events.
use cryptopulse.Prelude.{◌≡◌, [], ◌∷◌}
use cryptopulse.Python.Decimal.{finite}
use cryptopulse.Python.Value.{text, decimal, datetime, object, side_value, event_type_value}
use cryptopulse.Python.Call.{Call, returned, ◌>>=◌}
use cryptopulse.Contracts.Events.{InternalEvent}
use cryptopulse.Warehouse.Rows.{
  Row, RowErrors, as_str, as_datetime, as_decimal, as_payload, as_finite, parse_event_type,
  parse_side, parse_event_type-value, parse_side-value,
}

abbrev pub bronze_errors : RowErrors
bronze_errors = record {
  kind = "BronzeRowError";
  nonconforming = "bronze row does not conform to the InternalEvent contract";
}

unfoldable pub internal_event_to_record : InternalEvent → Row
internal_event_to_record e =
    ("event_id", text e.event_id)
    ∷ ("source", text e.source)
    ∷ ("event_type", text (event_type_value e.event_type))
    ∷ ("received_at", datetime e.received_at)
    ∷ ("symbol", text e.symbol)
    ∷ ("price", decimal (finite e.price))
    ∷ ("quantity", decimal (finite e.quantity))
    ∷ ("side", text (side_value e.side))
    ∷ ("trade_id", text e.trade_id)
    ∷ ("trade_timestamp", datetime e.trade_timestamp)
    ∷ ("payload", object e.payload)
    ∷ []

-- The arguments are evaluated in their order, then the constructor checks them.
unfoldable pub read_event : RowErrors → Row → Call InternalEvent
unfolding as_str as_datetime as_decimal as_payload
read_event errors row = do
  event_id ← as_str errors "event_id" row
  source ← as_str errors "source" row
  event_type_text ← as_str errors "event_type" row
  event_type ← parse_event_type errors event_type_text
  received_at ← as_datetime errors "received_at" row
  symbol ← as_str errors "symbol" row
  raw_price ← as_decimal errors "price" row
  raw_quantity ← as_decimal errors "quantity" row
  side_text ← as_str errors "side" row
  side ← parse_side errors side_text
  trade_id ← as_str errors "trade_id" row
  trade_timestamp ← as_datetime errors "trade_timestamp" row
  payload ← as_payload errors "payload" row
  price ← as_finite errors raw_price
  quantity ← as_finite errors raw_quantity
  returned (record {
    event_id = event_id;
    source = source;
    event_type = event_type;
    received_at = received_at;
    symbol = symbol;
    price = price;
    quantity = quantity;
    side = side;
    trade_id = trade_id;
    trade_timestamp = trade_timestamp;
    payload = payload;
  })

unfoldable pub record_to_internal_event : Row → Call InternalEvent
unfolding read_event
record_to_internal_event = read_event bronze_errors

-- A row made from an event reads back as that event.
pub event_round_trip :
    (e : InternalEvent) → record_to_internal_event (internal_event_to_record e) ≡ returned e
unfolding record_to_internal_event internal_event_to_record
event_round_trip e = rw (parse_event_type-value, parse_side-value)
