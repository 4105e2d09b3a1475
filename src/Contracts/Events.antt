-- ===== src/Contracts/Events.antt =====
-- common/contracts/events.py. The fields of a constructed event have the types that it declares:
-- the constructor checks them, and rejects a Decimal that is not finite.
use cryptopulse.Prelude.{String, Option, some}
use cryptopulse.Python.Decimal.{Decimal, finite}
use cryptopulse.Python.Datetime.{Datetime}
use cryptopulse.Python.Value.{TradeSide, EventType, Value, Fields, text, decimal, datetime, object}

pub record InternalEvent : Type 0 where
  pub event_id : String
  pub source : String
  pub event_type : EventType
  pub received_at : Datetime
  pub symbol : String
  pub price : Decimal
  pub quantity : Decimal
  pub side : TradeSide
  pub trade_id : String
  pub trade_timestamp : Datetime
  pub payload : Fields

-- An InternalEvent that passed validation, and when.
pub record TrustedEvent : Type 0 where
  pub event_id : String
  pub source : String
  pub event_type : EventType
  pub received_at : Datetime
  pub validated_at : Datetime
  pub symbol : String
  pub price : Decimal
  pub quantity : Decimal
  pub side : TradeSide
  pub trade_id : String
  pub trade_timestamp : Datetime
  pub payload : Fields

-- The attributes that the rules read, of an object whose fields nothing has checked
-- (`InternalEvent.model_construct`): each may be absent, or of any type.
pub record Attributes : Type 0 where
  pub event_id : Option Value
  pub source : Option Value
  pub received_at : Option Value
  pub symbol : Option Value
  pub price : Option Value
  pub quantity : Option Value
  pub side : Option Value
  pub trade_id : Option Value
  pub trade_timestamp : Option Value
  pub payload : Option Value

-- The attributes of a constructed event.
unfoldable pub attributes : InternalEvent → Attributes
attributes e = record {
  event_id = some (text e.event_id);
  source = some (text e.source);
  received_at = some (datetime e.received_at);
  symbol = some (text e.symbol);
  price = some (decimal (finite e.price));
  quantity = some (decimal (finite e.quantity));
  side = some (Value.side e.side);
  trade_id = some (text e.trade_id);
  trade_timestamp = some (datetime e.trade_timestamp);
  payload = some (object e.payload);
}
