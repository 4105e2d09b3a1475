-- ===== src/Producer/Preparation/Match.antt =====
-- producer/preparation/coinbase.py: a match message as an InternalEvent.
pub mod Correspondence
pub mod Errors
pub mod Trusted
use Prim.Native.String
use cryptopulse.Prelude.{String, Bool, true, false, not, ◌&&◌, if◌then◌else◌}
use cryptopulse.Python.Text.{is_empty}
use cryptopulse.Python.Value.{Value, Fields, EventType, trade, object}
use cryptopulse.Contracts.Events.{InternalEvent}
use cryptopulse.Warehouse.World.{Error, Result, ok, err, preparation_error, type_error}
use cryptopulse.Producer.Settings.{get, has_key, is_hashable, is_match_type}
use cryptopulse.Producer.Raising.{◌>>=◌, ◌>>◌, raise_if}
use cryptopulse.Producer.Preparation.{
  Runtime, require, str, to_side, non_empty, to_utc_datetime, to_decimal, field_decimal,
}

-- `raw.get("type") in _MATCH_TYPES`
unfoldable pub is_match : Fields → Result Bool
is_match raw =
    if is_hashable (get "type" raw)
    then ok (is_match_type (get "type" raw))
    else err (type_error "unhashable type")

abbrev recognised : Value → Result Bool
recognised (object raw) = do known ← is_match raw; ok (known && has_key "product_id" raw)
recognised v = ok false

-- `can_prepare`
unfoldable pub can_prepare : Value → Result Bool
can_prepare v = recognised v

module _ (runtime : Runtime) where
  abbrev prepare_object : Fields → Result InternalEvent
  prepare_object raw = do
    known ← is_match raw
    raise_if (not known) (preparation_error "field 'type' is not a Coinbase match message")
    raw_side ← require raw "side"
    side ← to_side (str runtime raw_side)
    raw_product_id ← require raw "product_id"
    product_id ← non_empty "product_id" raw_product_id
    raw_trade_id ← require raw "trade_id"
    let trade_id = str runtime raw_trade_id
    raise_if (is_empty trade_id) (preparation_error "field 'trade_id' must not be empty")
    trade_timestamp ← to_utc_datetime runtime raw "time"
    price ← to_decimal runtime raw "price"
    quantity ← to_decimal runtime raw "size"
    price' ← field_decimal price
    quantity' ← field_decimal quantity
    ok (record {
      event_id = String.◌++◌ "coinbase:" trade_id;
      source = "coinbase";
      event_type = trade;
      received_at = runtime.now;
      symbol = product_id;
      price = price';
      quantity = quantity';
      side = side;
      trade_id = trade_id;
      trade_timestamp = trade_timestamp;
      payload = raw;
    })

  abbrev prepare_value : Value → Result InternalEvent
  prepare_value (object raw) = prepare_object raw
  prepare_value v = err (preparation_error "raw event must be a dictionary")

  -- `prepare`
  unfoldable pub prepare : Value → Result InternalEvent
  prepare v = prepare_value v
