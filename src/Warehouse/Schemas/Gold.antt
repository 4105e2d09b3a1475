-- ===== src/Warehouse/Schemas/Gold.antt =====
-- warehouse/schemas/gold.py: MarketWindows and rows of gold.market_windows.
use cryptopulse.Prelude.{ℕ, String, Bool, ◌≡◌, refl, [], ◌∷◌}
use cryptopulse.Prelude.Int.{ℤ, pos, negsuc}
use cryptopulse.Python.Decimal.{finite}
use cryptopulse.Python.Value.{Value, text, decimal, datetime, integer, boolean}
use cryptopulse.Python.Call.{Call, returned, raised, ◌>>=◌}
use cryptopulse.Contracts.Gold.{MarketWindow}
use cryptopulse.Warehouse.Rows.{
  Row, RowErrors, get_column, as_str, as_datetime, as_decimal, as_finite, wrong_column,
  nonconforming,
}

abbrev pub gold_errors : RowErrors
gold_errors = record {
  kind = "GoldRowError";
  nonconforming = "gold row does not conform to the MarketWindow contract";
}

unfoldable pub market_window_to_record : MarketWindow → Row
market_window_to_record w =
    ("window_id", text w.window_id)
    ∷ ("symbol", text w.symbol)
    ∷ ("window_start", datetime w.window_start)
    ∷ ("window_end", datetime w.window_end)
    ∷ ("open", decimal (finite w.open_price))
    ∷ ("high", decimal (finite w.high))
    ∷ ("low", decimal (finite w.low))
    ∷ ("close", decimal (finite w.close))
    ∷ ("trade_count", integer (pos w.trade_count))
    ∷ ("volume", decimal (finite w.volume))
    ∷ ("buy_volume", decimal (finite w.buy_volume))
    ∷ ("sell_volume", decimal (finite w.sell_volume))
    ∷ ("vwap", decimal (finite w.vwap))
    ∷ ("computed_at", datetime w.computed_at)
    ∷ ("is_final", boolean w.is_final)
    ∷ []

abbrev as_int_value : String → Value → Call ℤ
as_int_value key (integer n) = returned n
as_int_value key _ = raised (wrong_column gold_errors key "an integer")

-- `_as_int`
unfoldable pub as_int : String → Row → Call ℤ
as_int key row = do v ← get_column gold_errors key row; as_int_value key v

abbrev as_bool_value : String → Value → Call Bool
as_bool_value key (boolean b) = returned b
as_bool_value key _ = raised (wrong_column gold_errors key "a boolean")

-- `_as_bool`
unfoldable pub as_bool : String → Row → Call Bool
as_bool key row = do v ← get_column gold_errors key row; as_bool_value key v

-- `Field(ge=0)` on `trade_count`
abbrev pub as_count : ℤ → Call ℕ
as_count (pos n) = returned n
as_count (negsuc n) = raised (nonconforming gold_errors)

unfoldable pub record_to_market_window : Row → Call MarketWindow
unfolding as_str as_datetime as_decimal as_int as_bool
record_to_market_window row = do
  window_id ← as_str gold_errors "window_id" row
  symbol ← as_str gold_errors "symbol" row
  window_start ← as_datetime gold_errors "window_start" row
  window_end ← as_datetime gold_errors "window_end" row
  raw_open ← as_decimal gold_errors "open" row
  raw_high ← as_decimal gold_errors "high" row
  raw_low ← as_decimal gold_errors "low" row
  raw_close ← as_decimal gold_errors "close" row
  raw_count ← as_int "trade_count" row
  raw_volume ← as_decimal gold_errors "volume" row
  raw_buy ← as_decimal gold_errors "buy_volume" row
  raw_sell ← as_decimal gold_errors "sell_volume" row
  raw_vwap ← as_decimal gold_errors "vwap" row
  computed_at ← as_datetime gold_errors "computed_at" row
  is_final ← as_bool "is_final" row
  open_price ← as_finite gold_errors raw_open
  high ← as_finite gold_errors raw_high
  low ← as_finite gold_errors raw_low
  close ← as_finite gold_errors raw_close
  trade_count ← as_count raw_count
  volume ← as_finite gold_errors raw_volume
  buy_volume ← as_finite gold_errors raw_buy
  sell_volume ← as_finite gold_errors raw_sell
  vwap ← as_finite gold_errors raw_vwap
  returned (record {
    window_id = window_id;
    symbol = symbol;
    window_start = window_start;
    window_end = window_end;
    open_price = open_price;
    high = high;
    low = low;
    close = close;
    trade_count = trade_count;
    volume = volume;
    buy_volume = buy_volume;
    sell_volume = sell_volume;
    vwap = vwap;
    computed_at = computed_at;
    is_final = is_final;
  })

-- A row made from a window reads back as that window.
pub window_round_trip :
    (w : MarketWindow) → record_to_market_window (market_window_to_record w) ≡ returned w
unfolding record_to_market_window market_window_to_record
window_round_trip w = refl
