-- ===== src/Aggregation.antt =====
-- processing/gold/windows.py and `window_id_for` of common/contracts/gold.py.
-- Timestamps are exact microseconds: the seconds that Python computes in floating point agree with
-- them for instants before the year 2242. The year limits of `datetime` are left out.
pub mod Bounds
pub mod Prices
use Prim.Native.String
use cryptopulse.Prelude.{
  ℕ, zero, suc, String, Bool, true, false, not, ◌&&◌, ◌||◌, str_eq, List, [], ◌∷◌, map, length,
  if◌then◌else◌, Option, none, some,
}
use cryptopulse.Prelude.Int.{ℤ, pos, pos_part, ◌+ℤ◌, ◌-ℤ◌, leb_ℤ, ltb_ℤ}
use cryptopulse.Prelude.Sort.{sort_by}
use cryptopulse.Python.Text.{str_leb}
use cryptopulse.Python.Decimal.{Decimal, of_ℕ, le_decimal, is_non_positive, add, mul, div, quantize}
use cryptopulse.Python.Datetime.{
  Datetime, instant, is_naive, from_instant, second, trunc_div, floor_mod, of_seconds,
}
use cryptopulse.Python.Isoformat.{isoformat}
use cryptopulse.Python.Value.{TradeSide}
use cryptopulse.Contracts.Events.{TrustedEvent}
use cryptopulse.Contracts.Gold.{MarketWindow}
use cryptopulse.Warehouse.World.{Result, ok, err, Error, value_error, type_error, invalid_operation}

-- `window_id_for`
unfoldable pub window_id_for : String → Datetime → String
unfolding isoformat
window_id_for symbol window_start = String.◌++◌ symbol (String.◌++◌ ":" (isoformat window_start))

-- The start of the window of a whole number of seconds since the epoch.
unfoldable pub start_epoch : ℤ → ℕ → ℤ
unfolding floor_mod ◌-ℤ◌
start_epoch epoch_seconds window_seconds =
    epoch_seconds -ℤ pos (floor_mod epoch_seconds window_seconds)

-- `window_start_for`
unfoldable pub window_start_for : Datetime → ℤ → Result Datetime
unfolding start_epoch trunc_div of_seconds
window_start_for trade_timestamp window_seconds =
    if leb_ℤ window_seconds (pos 0)
    then err (value_error "window_seconds must be > 0")
    else if is_naive trade_timestamp
    then err (value_error "trade_timestamp must be timezone-aware")
    else ok (
        from_instant (
          of_seconds
            (start_epoch (trunc_div (instant trade_timestamp) second) (pos_part window_seconds))))

abbrev and_end : ℤ → Result Datetime → Result (Datetime × Datetime)
and_end window_seconds (err e) = err e
and_end window_seconds (ok start) =
    ok (start, from_instant (instant start +ℤ of_seconds window_seconds))

-- `window_bounds_for`
unfoldable pub window_bounds_for : Datetime → ℤ → Result (Datetime × Datetime)
unfolding window_start_for
window_bounds_for trade_timestamp window_seconds =
    and_end window_seconds (window_start_for trade_timestamp window_seconds)

abbrev differ : Bool → Bool → Bool
differ true b = not b
differ false b = b

-- `is_final_for`: the difference of a naive and an aware datetime raises.
unfoldable pub is_final_for : Datetime → Datetime → ℤ → Result Bool
unfolding of_seconds ◌-ℤ◌
is_final_for window_end now allowed_lateness_seconds =
    if differ (is_naive now) (is_naive window_end)
    then err (type_error "can't subtract offset-naive and offset-aware datetimes")
    else ok (leb_ℤ (of_seconds allowed_lateness_seconds) (instant now -ℤ instant window_end))

-- The order of the sort: (trade_timestamp, event_id).
unfoldable pub event_le : TrustedEvent → TrustedEvent → Bool
unfolding str_leb
event_le a b =
    ltb_ℤ (instant a.trade_timestamp) (instant b.trade_timestamp)
    || (leb_ℤ (instant a.trade_timestamp) (instant b.trade_timestamp)
        && str_leb a.event_id b.event_id)

abbrev has_naive : List TrustedEvent → Bool
has_naive [] = false
has_naive (e ∷ es) = is_naive e.trade_timestamp || has_naive es

abbrev has_aware : List TrustedEvent → Bool
has_aware [] = false
has_aware (e ∷ es) = not (is_naive e.trade_timestamp) || has_aware es

-- `max` and `min` of `best` and the rest: the first of equals is kept.
unfoldable pub max_from : Decimal → List Decimal → Decimal
max_from best [] = best
max_from best (p ∷ ps) = max_from (if le_decimal p best then best else p) ps

unfoldable pub min_from : Decimal → List Decimal → Decimal
min_from best [] = best
min_from best (p ∷ ps) = min_from (if le_decimal best p then best else p) ps

-- `prices[-1]` of `first` and the rest.
abbrev pub last_from : Decimal → List Decimal → Decimal
last_from first [] = first
last_from first (p ∷ ps) = last_from p ps

pub record Totals : Type 0 where
  pub total_quantity : Decimal
  pub buy_quantity : Decimal
  pub sell_quantity : Decimal
  pub notional : Decimal

abbrev pub no_totals : Totals
no_totals = record {
  total_quantity = of_ℕ 0;
  buy_quantity = of_ℕ 0;
  sell_quantity = of_ℕ 0;
  notional = of_ℕ 0;
}

abbrev is_buy : TradeSide → Bool
is_buy TradeSide.buy = true
is_buy TradeSide.sell = false

-- One round of the loop, and the loop.
unfoldable pub count_event : TrustedEvent → Totals → Totals
count_event e t = record {
  total_quantity = add t.total_quantity e.quantity;
  buy_quantity = if is_buy e.side then add t.buy_quantity e.quantity else t.buy_quantity;
  sell_quantity = if is_buy e.side then t.sell_quantity else add t.sell_quantity e.quantity;
  notional = add t.notional (mul e.price e.quantity);
}

unfoldable pub totals_from : Totals → List TrustedEvent → Totals
totals_from t [] = t
totals_from t (e ∷ es) = totals_from (count_event e t) es

abbrev pub price_of : TrustedEvent → Decimal
price_of e = e.price

-- The test of the total quantity, and the VWAP, without which there is no window.
abbrev pub completed : Bool → Option Decimal → (Decimal → MarketWindow) → Result MarketWindow
completed true vwap window = err (value_error "total quantity must be positive to compute VWAP")
completed false none window = err invalid_operation
completed false (some vwap) window = ok (window vwap)

module _ (symbol : String) (window_start window_end computed_at : Datetime) (is_final : Bool)
    (vwap_scale : ℕ) where
  abbrev pub window_of : TrustedEvent → List TrustedEvent → Totals → Decimal → MarketWindow
  window_of first rest totals vwap =
      let prices = map price_of rest in
      record {
        window_id = window_id_for symbol window_start;
        symbol = symbol;
        window_start = window_start;
        window_end = window_end;
        open_price = first.price;
        high = max_from first.price prices;
        low = min_from first.price prices;
        close = last_from first.price prices;
        trade_count = suc (length rest);
        volume = totals.total_quantity;
        buy_volume = totals.buy_quantity;
        sell_volume = totals.sell_quantity;
        vwap = vwap;
        computed_at = computed_at;
        is_final = is_final;
      }

  -- The aggregate of events in order.
  unfoldable pub aggregate_ordered : List TrustedEvent → Result MarketWindow
  unfolding totals_from count_event
  aggregate_ordered [] = err (value_error "cannot aggregate an empty window")
  aggregate_ordered (first ∷ rest) =
      let totals = totals_from no_totals (first ∷ rest) in
      completed (is_non_positive totals.total_quantity)
        (quantize (div totals.notional totals.total_quantity) vwap_scale)
        (window_of first rest totals)

  -- `aggregate_window`: naive and aware timestamps cannot be compared.
  unfoldable pub aggregate_window : List TrustedEvent → Result MarketWindow
  unfolding aggregate_ordered
  aggregate_window events =
      if has_naive events && has_aware events
      then err (type_error "can't compare offset-naive and offset-aware datetimes")
      else aggregate_ordered (sort_by event_le events)
