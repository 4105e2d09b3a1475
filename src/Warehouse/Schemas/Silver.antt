-- ===== src/Warehouse/Schemas/Silver.antt =====
-- warehouse/schemas/silver.py: TrustedEvents and rows of silver.events.
use cryptopulse.Prelude.{◌≡◌, [], ◌∷◌}
use cryptopulse.Python.Decimal.{finite}
use cryptopulse.Python.Value.{text, decimal, datetime, object, side_value, event_type_value}
use cryptopulse.Python.Call.{Call, returned, ◌>>=◌}
use cryptopulse.Contracts.Events.{TrustedEvent}
use cryptopulse.Warehouse.Rows.{
  Row, RowErrors, as_str, as_datetime, as_decimal, as_payload, as_finite, parse_event_type,
  parse_side, parse_event_type-value, parse_side-value,
}

abbrev pub silver_errors : RowErrors
silver_errors = record {
  kind = "SilverRowError";
  nonconforming = "silver row does not conform to the TrustedEvent contract";
}

unfoldable pub trusted_event_to_record : TrustedEvent → Row
trusted_event_to_record e =
    ("event_id", text e.event_id)
    ∷ ("source", text e.source)
    ∷ ("event_type", text (event_type_value e.event_type))
    ∷ ("received_at", datetime e.received_at)
    ∷ ("validated_at", datetime e.validated_at)
    ∷ ("symbol", text e.symbol)
    ∷ ("price", decimal (finite e.price))
    ∷ ("quantity", decimal (finite e.quantity))
    ∷ ("side", text (side_value e.side))
    ∷ ("trade_id", text e.trade_id)
    ∷ ("trade_timestamp", datetime e.trade_timestamp)
    ∷ ("payload", object e.payload)
    ∷ []

-- The arguments are evaluated in their order, then the constructor checks them.
unfoldable pub record_to_trusted_event : Row → Call TrustedEvent
unfolding as_str as_datetime as_decimal as_payload
record_to_trusted_event row = do
  event_id ← as_str silver_errors "event_id" row
  source ← as_str silver_errors "source" row
  event_type_text ← as_str silver_errors "event_type" row
  event_type ← parse_event_type silver_errors event_type_text
  received_at ← as_datetime silver_errors "received_at" row
  validated_at ← as_datetime silver_errors "validated_at" row
  symbol ← as_str silver_errors "symbol" row
  raw_price ← as_decimal silver_errors "price" row
  raw_quantity ← as_decimal silver_errors "quantity" row
  side_text ← as_str silver_errors "side" row
  side ← parse_side silver_errors side_text
  trade_id ← as_str silver_errors "trade_id" row
  trade_timestamp ← as_datetime silver_errors "trade_timestamp" row
  payload ← as_payload silver_errors "payload" row
  price ← as_finite silver_errors raw_price
  quantity ← as_finite silver_errors raw_quantity
  returned (record {
    event_id = event_id;
    source = source;
    event_type = event_type;
    received_at = received_at;
    validated_at = validated_at;
    symbol = symbol;
    price = price;
    quantity = quantity;
    side = side;
    trade_id = trade_id;
    trade_timestamp = trade_timestamp;
    payload = payload;
  })

-- A row made from an event reads back as that event.
pub trusted_round_trip :
    (e : TrustedEvent) → record_to_trusted_event (trusted_event_to_record e) ≡ returned e
unfolding record_to_trusted_event trusted_event_to_record
trusted_round_trip e = rw (parse_event_type-value, parse_side-value)
