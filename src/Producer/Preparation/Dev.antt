-- ===== src/Producer/Preparation/Dev.antt =====
-- producer/preparation/dev.py: a payload of the development source as an InternalEvent.
use Prim.Native.String
use cryptopulse.Python.Value.{Value, Fields, text, object}
use cryptopulse.Contracts.Events.{InternalEvent}
use cryptopulse.Warehouse.World.{Result, ok, err, preparation_error}
use cryptopulse.Producer.Settings.{get_or}
use cryptopulse.Producer.Raising.{◌>>=◌}
use cryptopulse.Producer.Preparation.{
  Runtime, require, str, to_event_type, to_side, non_empty, to_datetime_from_epoch_ms, to_decimal,
  field_decimal,
}

module _ (runtime : Runtime) where
  abbrev prepare_object : Fields → Result InternalEvent
  prepare_object raw = do
    event_type ← to_event_type (str runtime (get_or "type" (text "trade") raw))
    raw_side ← require raw "side"
    side ← to_side (str runtime raw_side)
    raw_trade_id ← require raw "trade_id"
    raw_symbol ← require raw "symbol"
    trade_time_ms ← require raw "trade_time_ms"
    trade_id ← non_empty "trade_id" raw_trade_id
    symbol ← non_empty "symbol" raw_symbol
    trade_timestamp ← to_datetime_from_epoch_ms runtime raw "trade_time_ms"
    price ← to_decimal runtime raw "price"
    quantity ← to_decimal runtime raw "quantity"
    price' ← field_decimal price
    quantity' ← field_decimal quantity
    ok (record {
      event_id =
          String.◌++◌ "dev:" (String.◌++◌ trade_id (String.◌++◌ ":" (str runtime trade_time_ms)));
      source = "dev";
      event_type = event_type;
      received_at = runtime.now;
      symbol = symbol;
      price = price';
      quantity = quantity';
      side = side;
      trade_id = trade_id;
      trade_timestamp = trade_timestamp;
      payload = raw;
    })

  abbrev prepare_value : Value → Result InternalEvent
  prepare_value (object raw) = prepare_object raw
  prepare_value v = err (preparation_error "raw event must be a dictionary")

  -- `prepare`
  unfoldable pub prepare : Value → Result InternalEvent
  prepare v = prepare_value v
