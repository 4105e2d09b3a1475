-- ===== src/Python/Value.antt =====
-- A Python value of any type, as far as the program tells types apart, and raised exceptions.
use Prim.Native.String
use cryptopulse.Prelude.{String, Bool, Option, none, some}
use cryptopulse.Prelude.Int.{ℤ}
use cryptopulse.Python.Datetime.{Datetime}
use cryptopulse.Python.Decimal.{Number}

-- The members of the two enums are texts too: `class TradeSide(StrEnum)`.
pub data TradeSide : Type 0 where
  buy sell : TradeSide

pub data EventType : Type 0 where
  trade ticker orderbook unknown : EventType

unfoldable pub side_value : TradeSide → String
side_value TradeSide.buy = "buy"
side_value TradeSide.sell = "sell"

unfoldable pub event_type_value : EventType → String
event_type_value EventType.trade = "trade"
event_type_value EventType.ticker = "ticker"
event_type_value EventType.orderbook = "orderbook"
event_type_value EventType.unknown = "unknown"

mutual
  pub data Value : Type 0 where
    null : Value
    boolean : Bool → Value
    integer : ℤ → Value
    -- a float, by its text
    real : String → Value
    text : String → Value
    side : TradeSide → Value
    event_type : EventType → Value
    decimal : Number → Value
    datetime : Datetime → Value
    array : Items → Value
    object : Fields → Value

  pub data Items : Type 0 where
    nil : Items
    cons : Value → Items → Items

  pub data Fields : Type 0 where
    end : Fields
    field : String → Value → Fields → Fields

-- `isinstance(v, str)`, with the text.
unfoldable pub as_text : Value → Option String
unfolding side_value event_type_value
as_text (text s) = some s
as_text (side s) = some (side_value s)
as_text (event_type t) = some (event_type_value t)
as_text _ = none

-- The name of the type of `v`, as an AttributeError gives it.
unfoldable pub type_name : Value → String
type_name null = "NoneType"
type_name (boolean b) = "bool"
type_name (integer n) = "int"
type_name (real s) = "float"
type_name (text s) = "str"
type_name (side s) = "TradeSide"
type_name (event_type t) = "EventType"
type_name (decimal d) = "decimal.Decimal"
type_name (datetime d) = "datetime"
type_name (array xs) = "list"
type_name (object fs) = "dict"

-- An exception: the name of its type, and its text.
pub record Raised : Type 0 where
  pub kind : String
  pub message : String

abbrev pub attribute_error : String → String → Raised
attribute_error owner name = record {
  kind = "AttributeError";
  message =
      String.◌++◌ "'"
        (String.◌++◌ owner (String.◌++◌ "' object has no attribute '" (String.◌++◌ name "'")));
}
