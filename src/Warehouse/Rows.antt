-- ===== src/Warehouse/Rows.antt =====
-- A row, as the driver takes and gives it: the values of its columns by name.
-- The column readers are those at the end of each file of warehouse/schemas; they differ only in
-- the class of the error and in the text for a row that does not conform.
use Prim.Native.String
use cryptopulse.Prelude.{
  String, ◌≡◌, refl, Option, none, some, List, [], ◌∷◌, str_eq, if◌then◌else◌,
}
use cryptopulse.Python.Decimal.{Decimal, Number, finite}
use cryptopulse.Python.Datetime.{Datetime}
use cryptopulse.Python.Value.{
  TradeSide, EventType, side_value, event_type_value, Value, Fields, decimal, datetime, object,
  as_text, Raised,
}
use cryptopulse.Python.Call.{Call, returned, raised, ◌>>=◌}

abbrev pub Row : Type 0
Row = List (String × Value)

unfoldable pub cell : String → Row → Option Value
cell key [] = none
cell key ((name, v) ∷ row) = if str_eq key name then some v else cell key row

-- The errors of one schema.
pub record RowErrors : Type 0 where
  pub kind : String
  pub nonconforming : String

abbrev pub row_error : RowErrors → String → Raised
row_error errors message = record { kind = errors.kind; message = message }

-- A ValueError, TypeError or KeyError inside the mapping is turned into this.
abbrev pub nonconforming : RowErrors → Raised
nonconforming errors = row_error errors errors.nonconforming

abbrev pub wrong_column : RowErrors → String → String → Raised
wrong_column errors key what =
    row_error errors (String.◌++◌ "column '" (String.◌++◌ key (String.◌++◌ "' is not " what)))

module _ (errors : RowErrors) where
  -- `row[key]`; a missing key is a KeyError
  abbrev pub get_column : String → Row → Call Value
  get_column key row = elim (cell key row) [
    | none ↦ raised (nonconforming errors)
    | some v ↦ returned v
  ]

  -- `_as_str`
  abbrev as_str_value : String → Value → Call String
  as_str_value key v = elim (as_text v) [
    | none ↦ raised (wrong_column errors key "text")
    | some s ↦ returned s
  ]

  unfoldable pub as_str : String → Row → Call String
  unfolding cell as_text
  as_str key row = do v ← get_column key row; as_str_value key v

  abbrev as_datetime_value : String → Value → Call Datetime
  as_datetime_value key (datetime d) = returned d
  as_datetime_value key _ = raised (wrong_column errors key "a timestamp")

  -- `_as_datetime`
  unfoldable pub as_datetime : String → Row → Call Datetime
  unfolding cell
  as_datetime key row = do v ← get_column key row; as_datetime_value key v

  abbrev as_decimal_value : String → Value → Call Number
  as_decimal_value key (decimal d) = returned d
  as_decimal_value key _ = raised (wrong_column errors key "exact numeric")

  -- `_as_decimal`
  unfoldable pub as_decimal : String → Row → Call Number
  unfolding cell
  as_decimal key row = do v ← get_column key row; as_decimal_value key v

  abbrev as_payload_value : String → Value → Call Fields
  as_payload_value key (object fs) = returned fs
  as_payload_value key _ = raised (wrong_column errors key "a JSON object")

  -- `_as_payload`
  unfoldable pub as_payload : String → Row → Call Fields
  unfolding cell
  as_payload key row = do v ← get_column key row; as_payload_value key v

  -- The contract's constructor rejects a Decimal that is not finite.
  abbrev pub as_finite : Number → Call Decimal
  as_finite (finite d) = returned d
  as_finite _ = raised (nonconforming errors)

  -- `EventType(value)`; another value is a ValueError
  unfoldable pub parse_event_type : String → Call EventType
  parse_event_type s =
      if str_eq s "trade"
      then returned EventType.trade
      else if str_eq s "ticker"
      then returned EventType.ticker
      else if str_eq s "orderbook"
      then returned EventType.orderbook
      else if str_eq s "unknown"
      then returned EventType.unknown
      else raised (nonconforming errors)

  -- `TradeSide(value)`
  unfoldable pub parse_side : String → Call TradeSide
  parse_side s =
      if str_eq s "buy"
      then returned TradeSide.buy
      else if str_eq s "sell"
      then returned TradeSide.sell
      else raised (nonconforming errors)

  -- The enums print to texts that they parse.
  pub parse_event_type-value : (t : EventType) → parse_event_type (event_type_value t) ≡ returned t
  unfolding parse_event_type event_type_value
  parse_event_type-value EventType.trade = refl
  parse_event_type-value EventType.ticker = refl
  parse_event_type-value EventType.orderbook = refl
  parse_event_type-value EventType.unknown = refl

  pub parse_side-value : (s : TradeSide) → parse_side (side_value s) ≡ returned s
  unfolding parse_side side_value
  parse_side-value TradeSide.buy = refl
  parse_side-value TradeSide.sell = refl
