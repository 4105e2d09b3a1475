-- ===== src/Warehouse/Schemas/Errors.antt =====
-- What a row that cannot be read raises: the error class of its own table.
use cryptopulse.Prelude.{String, Option, arith}
use cryptopulse.Python.Value.{
  Value, Items, nil, cons, null, boolean, integer, real, text, side, event_type, decimal, datetime,
  array, object,
}
use cryptopulse.Prelude.Int.{ℤ}
use cryptopulse.Warehouse.Schemas.Raising.{
  RaisesOnly, returned-RaisesOnly, >>=-RaisesOnly as ◌>>=◌, get_column-RaisesOnly,
  as_str-RaisesOnly, as_datetime-RaisesOnly, as_decimal-RaisesOnly, as_payload-RaisesOnly,
  as_finite-RaisesOnly, parse_event_type-RaisesOnly, parse_side-RaisesOnly,
}
use cryptopulse.Warehouse.Rows.{Row, RowErrors}
use cryptopulse.Warehouse.Schemas.Bronze.{bronze_errors, read_event, record_to_internal_event}
use cryptopulse.Warehouse.Schemas.Silver.{silver_errors, record_to_trusted_event}
use cryptopulse.Warehouse.Schemas.Quarantine.{
  quarantine_errors, member, text_of, model_validate, validate_failures, read_failures,
  record_to_quarantine_record,
}
use cryptopulse.Warehouse.Schemas.Gold.{
  gold_errors, as_int, as_bool, as_count, record_to_market_window,
}

read_event-RaisesOnly : (errors : RowErrors) (row : Row) → RaisesOnly errors (read_event errors row)
unfolding read_event
read_event-RaisesOnly errors row = do
  event_id ← as_str-RaisesOnly errors "event_id" row
  source ← as_str-RaisesOnly errors "source" row
  event_type_text ← as_str-RaisesOnly errors "event_type" row
  kind ← parse_event_type-RaisesOnly errors event_type_text
  received_at ← as_datetime-RaisesOnly errors "received_at" row
  symbol ← as_str-RaisesOnly errors "symbol" row
  raw_price ← as_decimal-RaisesOnly errors "price" row
  raw_quantity ← as_decimal-RaisesOnly errors "quantity" row
  side_text ← as_str-RaisesOnly errors "side" row
  maker_side ← parse_side-RaisesOnly errors side_text
  trade_id ← as_str-RaisesOnly errors "trade_id" row
  trade_timestamp ← as_datetime-RaisesOnly errors "trade_timestamp" row
  payload ← as_payload-RaisesOnly errors "payload" row
  price ← as_finite-RaisesOnly errors raw_price
  quantity ← as_finite-RaisesOnly errors raw_quantity
  returned-RaisesOnly

-- A row of Bronze that cannot be read raises a BronzeRowError, whatever the row holds.
pub record_to_internal_event-RaisesOnly :
    (row : Row) → RaisesOnly bronze_errors (record_to_internal_event row)
unfolding record_to_internal_event
record_to_internal_event-RaisesOnly row = read_event-RaisesOnly bronze_errors row

-- A row of Silver that cannot be read raises a SilverRowError, whatever the row holds.
pub record_to_trusted_event-RaisesOnly :
    (row : Row) → RaisesOnly silver_errors (record_to_trusted_event row)
unfolding record_to_trusted_event
record_to_trusted_event-RaisesOnly row = do
  event_id ← as_str-RaisesOnly silver_errors "event_id" row
  source ← as_str-RaisesOnly silver_errors "source" row
  event_type_text ← as_str-RaisesOnly silver_errors "event_type" row
  kind ← parse_event_type-RaisesOnly silver_errors event_type_text
  received_at ← as_datetime-RaisesOnly silver_errors "received_at" row
  validated_at ← as_datetime-RaisesOnly silver_errors "validated_at" row
  symbol ← as_str-RaisesOnly silver_errors "symbol" row
  raw_price ← as_decimal-RaisesOnly silver_errors "price" row
  raw_quantity ← as_decimal-RaisesOnly silver_errors "quantity" row
  side_text ← as_str-RaisesOnly silver_errors "side" row
  maker_side ← parse_side-RaisesOnly silver_errors side_text
  trade_id ← as_str-RaisesOnly silver_errors "trade_id" row
  trade_timestamp ← as_datetime-RaisesOnly silver_errors "trade_timestamp" row
  payload ← as_payload-RaisesOnly silver_errors "payload" row
  price ← as_finite-RaisesOnly silver_errors raw_price
  quantity ← as_finite-RaisesOnly silver_errors raw_quantity
  returned-RaisesOnly

as_int-RaisesOnly : (key : String) (row : Row) → RaisesOnly gold_errors (as_int key row)
unfolding as_int
as_int-RaisesOnly key row = do v ← get_column-RaisesOnly gold_errors key row; λ x e. ground arith

as_bool-RaisesOnly : (key : String) (row : Row) → RaisesOnly gold_errors (as_bool key row)
unfolding as_bool
as_bool-RaisesOnly key row = do v ← get_column-RaisesOnly gold_errors key row; λ x e. ground arith

as_count-RaisesOnly : (n : ℤ) → RaisesOnly gold_errors (as_count n)
as_count-RaisesOnly n x e = ground arith

-- A row of Gold that cannot be read raises a GoldRowError, whatever the row holds.
pub record_to_market_window-RaisesOnly :
    (row : Row) → RaisesOnly gold_errors (record_to_market_window row)
unfolding record_to_market_window
record_to_market_window-RaisesOnly row = do
  window_id ← as_str-RaisesOnly gold_errors "window_id" row
  symbol ← as_str-RaisesOnly gold_errors "symbol" row
  window_start ← as_datetime-RaisesOnly gold_errors "window_start" row
  window_end ← as_datetime-RaisesOnly gold_errors "window_end" row
  raw_open ← as_decimal-RaisesOnly gold_errors "open" row
  raw_high ← as_decimal-RaisesOnly gold_errors "high" row
  raw_low ← as_decimal-RaisesOnly gold_errors "low" row
  raw_close ← as_decimal-RaisesOnly gold_errors "close" row
  raw_count ← as_int-RaisesOnly "trade_count" row
  raw_volume ← as_decimal-RaisesOnly gold_errors "volume" row
  raw_buy ← as_decimal-RaisesOnly gold_errors "buy_volume" row
  raw_sell ← as_decimal-RaisesOnly gold_errors "sell_volume" row
  raw_vwap ← as_decimal-RaisesOnly gold_errors "vwap" row
  computed_at ← as_datetime-RaisesOnly gold_errors "computed_at" row
  is_final ← as_bool-RaisesOnly "is_final" row
  open_price ← as_finite-RaisesOnly gold_errors raw_open
  high ← as_finite-RaisesOnly gold_errors raw_high
  low ← as_finite-RaisesOnly gold_errors raw_low
  close ← as_finite-RaisesOnly gold_errors raw_close
  trade_count ← as_count-RaisesOnly raw_count
  volume ← as_finite-RaisesOnly gold_errors raw_volume
  buy_volume ← as_finite-RaisesOnly gold_errors raw_buy
  sell_volume ← as_finite-RaisesOnly gold_errors raw_sell
  vwap ← as_finite-RaisesOnly gold_errors raw_vwap
  returned-RaisesOnly

text_of-RaisesOnly : (o : Option Value) → RaisesOnly quarantine_errors (text_of o)
text_of-RaisesOnly o x e = ground arith

model_validate-RaisesOnly : (v : Value) → RaisesOnly quarantine_errors (model_validate v)
unfolding model_validate
model_validate-RaisesOnly (object fs) = do
  rule ← text_of-RaisesOnly (member "rule" fs)
  code ← text_of-RaisesOnly (member "code" fs)
  message ← text_of-RaisesOnly (member "message" fs)
  returned-RaisesOnly
model_validate-RaisesOnly null = λ x e. ground arith
model_validate-RaisesOnly (boolean b) = λ x e. ground arith
model_validate-RaisesOnly (real r) = λ x e. ground arith
model_validate-RaisesOnly (integer n) = λ x e. ground arith
model_validate-RaisesOnly (text s) = λ x e. ground arith
model_validate-RaisesOnly (side s) = λ x e. ground arith
model_validate-RaisesOnly (event_type t) = λ x e. ground arith
model_validate-RaisesOnly (decimal d) = λ x e. ground arith
model_validate-RaisesOnly (datetime d) = λ x e. ground arith
model_validate-RaisesOnly (array vs) = λ x e. ground arith

validate_failures-RaisesOnly : (vs : Items) → RaisesOnly quarantine_errors (validate_failures vs)
unfolding validate_failures
validate_failures-RaisesOnly nil = returned-RaisesOnly
validate_failures-RaisesOnly (cons v vs) = do
  f ← model_validate-RaisesOnly v
  fs ← validate_failures-RaisesOnly vs
  returned-RaisesOnly

read_failures-RaisesOnly : (v : Value) → RaisesOnly quarantine_errors (read_failures v)
read_failures-RaisesOnly (array vs) = validate_failures-RaisesOnly vs
read_failures-RaisesOnly null = λ x e. ground arith
read_failures-RaisesOnly (boolean b) = λ x e. ground arith
read_failures-RaisesOnly (real r) = λ x e. ground arith
read_failures-RaisesOnly (integer n) = λ x e. ground arith
read_failures-RaisesOnly (text s) = λ x e. ground arith
read_failures-RaisesOnly (side s) = λ x e. ground arith
read_failures-RaisesOnly (event_type t) = λ x e. ground arith
read_failures-RaisesOnly (decimal d) = λ x e. ground arith
read_failures-RaisesOnly (datetime d) = λ x e. ground arith
read_failures-RaisesOnly (object fs) = λ x e. ground arith

-- A row of Quarantine that cannot be read raises a QuarantineRowError, whatever the row holds.
pub record_to_quarantine_record-RaisesOnly :
    (row : Row) → RaisesOnly quarantine_errors (record_to_quarantine_record row)
unfolding record_to_quarantine_record
record_to_quarantine_record-RaisesOnly row = do
  event ← read_event-RaisesOnly quarantine_errors row
  quarantined_at ← as_datetime-RaisesOnly quarantine_errors "quarantined_at" row
  raw ← get_column-RaisesOnly quarantine_errors "failures" row
  failures ← read_failures-RaisesOnly raw
  returned-RaisesOnly

-- A row that cannot be read raises the error of its own table and no other, in each of the four
-- tables and whatever the row holds: a BronzeRowError, a SilverRowError, a QuarantineRowError or a
-- GoldRowError.
pub records-RaisesOnly :
    (row : Row)
    → RaisesOnly bronze_errors (record_to_internal_event row)
      × RaisesOnly silver_errors (record_to_trusted_event row)
      × RaisesOnly quarantine_errors (record_to_quarantine_record row)
      × RaisesOnly gold_errors (record_to_market_window row)
records-RaisesOnly row = (
  record_to_internal_event-RaisesOnly row,
  record_to_trusted_event-RaisesOnly row,
  record_to_quarantine_record-RaisesOnly row,
  record_to_market_window-RaisesOnly row,
)
