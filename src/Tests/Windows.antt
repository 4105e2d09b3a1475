-- ===== src/Tests/Windows.antt =====
-- The theorems on windows at concrete inputs.
use cryptopulse.Prelude.{
  ℕ, ◌≡◌, ◌↔◌, refl, ◌+◌, ◌*◌, ◌/◌, ◌≤◌, ◌<◌, Bool, true, false, List, [], ◌∷◌, length, All, arith,
  Option, none, some,
}
use cryptopulse.Prelude.Int.{ℤ, pos, negsuc, ◌+ℤ◌, ◌≤ℤ◌}
use cryptopulse.Python.Datetime.{Datetime, instant, from_instant, of_seconds, second}
use cryptopulse.Contracts.Events.{TrustedEvent}
use cryptopulse.Contracts.Gold.{MarketWindow}
use cryptopulse.Warehouse.World.{World, ok, fetch, execute, now}
use cryptopulse.Warehouse.Silver
use cryptopulse.Warehouse.Gold
use cryptopulse.Warehouse.Rows.{parse_event_type, parse_side}
use cryptopulse.Warehouse.Table.{map_rows, row_le}
use cryptopulse.Warehouse.Schemas.Silver.{trusted_event_to_record, record_to_trusted_event}
use cryptopulse.Python.Text.{str_leb}
use cryptopulse.GoldService.{GoldSettings, recompute_window, window_end_of, read_limit}
use cryptopulse.GoldService.Written.{IsWritten, recompute_window-IsWritten}
use cryptopulse.Aggregation.{window_start_for, is_final_for, aggregate_window}
use cryptopulse.Aggregation.Bounds.{
  window_start_for-contains, window_start_for-after, is_final_for_iff,
}
use cryptopulse.Aggregation.Prices.{IsWithin, aggregate_window-bounds}
use cryptopulse.Tests.Data.{
  trusted, trade_time, no_window, value_of, calm, calm-KeepsText, empty_world,
}

abbrev later : TrustedEvent
later = record trusted {
  event_id = "e3";
  price = record { negative = false; coefficient = 1013; exponent = negsuc 0 };
}

abbrev events : List TrustedEvent
events = later ∷ trusted ∷ []

abbrev window : MarketWindow
unfolding aggregate_window trusted
window = value_of no_window (
    aggregate_window "BTC-USD" trade_time (from_instant (pos 1700000060000000)) trade_time false 8
      events)

aggregated :
    aggregate_window "BTC-USD" trade_time
      (from_instant (pos 1700000060000000))
      trade_time
      false
      8
      events
    ≡ ok window
unfolding aggregate_window trusted window cryptopulse.Aggregation.event_le
    cryptopulse.Prelude.Int.◌-ℤ◌ cryptopulse.Python.Decimal.is_non_positive
    cryptopulse.Python.Decimal.add cryptopulse.Python.Decimal.quantize
    cryptopulse.Python.Decimal.div cryptopulse.Python.Decimal.mul
aggregated = refl

aggregate_window-bounds_example :
    (window.trade_count ≡ length events) × All (IsWithin window) events
aggregate_window-bounds_example =
    aggregate_window-bounds "BTC-USD" trade_time (from_instant (pos 1700000060000000)) trade_time
      false 8 events window aggregated

window_start_for-contains_example :
    (start : ℕ) × (window_start_for trade_time (pos 60) ≡ ok (from_instant (pos start)))
    × (start ≡ 60 * (1700000005000000 / second / 60) * second)
    × (start ≤ 1700000005000000)
    × (1700000005000000 < start + 60 * second)
unfolding cryptopulse.Prelude.Int.◌-ℤ◌
window_start_for-contains_example =
    window_start_for-contains trade_time 60 1700000005000000 refl refl (omega arith)

window_start_for-after_example :
    window_start_for (from_instant (negsuc 499999)) (pos 60) ≡ ok (from_instant (pos 0))
unfolding cryptopulse.Prelude.Int.◌-ℤ◌
window_start_for-after_example =
    window_start_for-after (from_instant (negsuc 499999)) 60 499999 refl refl (omega arith)
      (omega arith)

is_final_for_iff_example :
    (is_final_for trade_time (from_instant (pos 1700000125000000)) (pos 120) ≡ ok true)
    ↔ (instant trade_time +ℤ of_seconds (pos 120) ≤ℤ pos 1700000125000000)
unfolding cryptopulse.Prelude.Int.◌-ℤ◌ ◌+ℤ◌
is_final_for_iff_example =
    is_final_for_iff trade_time (from_instant (pos 1700000125000000)) (pos 120) refl refl

abbrev minute : Datetime
minute = from_instant (pos 1699999980000000)

abbrev settings : GoldSettings
settings = record {
  window_seconds = pos 60;
  allowed_lateness_seconds = pos 120;
  vwap_scale = 8;
  batch_size = pos 1000;
}

abbrev one_trusted : World
one_trusted = record empty_world { silver = trusted_event_to_record trusted ∷ [] }

abbrev as_window : Option MarketWindow → MarketWindow
as_window none = no_window
as_window (some v) = v

unfoldable minute_window : MarketWindow
unfolding recompute_window
minute_window =
    as_window (value_of none (recompute_window calm settings "BTC-USD" minute one_trusted).0)

recomputed :
    (recompute_window calm settings "BTC-USD" minute one_trusted).0 ≡ ok (some minute_window)
unfolding recompute_window trusted minute_window Silver.read_window fetch Gold.upsert execute now
    is_final_for aggregate_window trusted_event_to_record record_to_trusted_event parse_event_type
    parse_side map_rows row_le str_leb ◌+ℤ◌ cryptopulse.Python.Decimal.is_non_positive
    cryptopulse.Python.Decimal.add cryptopulse.Python.Decimal.quantize
    cryptopulse.Python.Decimal.div cryptopulse.Python.Decimal.mul
recomputed = refl

recompute_window-IsWritten_example :
    (es : List TrustedEvent) × ((Silver.read_window calm "BTC-USD" minute
        (window_end_of calm settings minute)
        read_limit
        one_trusted).0
      ≡ ok es)
    × IsWritten calm settings "BTC-USD" minute es minute_window
        (Silver.read_window calm "BTC-USD" minute
          (window_end_of calm settings minute)
          read_limit
          one_trusted).1
        (recompute_window calm settings "BTC-USD" minute one_trusted).1
recompute_window-IsWritten_example =
    recompute_window-IsWritten calm settings "BTC-USD" minute minute_window one_trusted
      calm-KeepsText recomputed
