-- ===== src/Tests/Tables.antt =====
-- The theorems on rows and tables at concrete inputs.
use cryptopulse.Prelude.{All, ◌≡◌, refl, str_eq, [], ◌∷◌, some, if◌then◌else◌}
use cryptopulse.Python.Call.{returned}
use cryptopulse.Validation.Rules.{failure}
use cryptopulse.Warehouse.Rows.{Row}
use cryptopulse.Warehouse.Schemas.Bronze.{internal_event_to_record, record_to_internal_event}
use cryptopulse.Warehouse.Schemas.Silver.{trusted_event_to_record, record_to_trusted_event}
use cryptopulse.Warehouse.Schemas.Quarantine.{
  QuarantineRecord, quarantine_record_to_record, record_to_quarantine_record,
}
use cryptopulse.Warehouse.Schemas.Gold.{market_window_to_record, record_to_market_window}
use cryptopulse.Warehouse.Schemas.RoundTrips.{rows_round_trip}
use cryptopulse.Warehouse.Schemas.Errors.{records-RaisesOnly}
use cryptopulse.Warehouse.Schemas.Raising.{RaisesOnly}
use cryptopulse.Warehouse.Schemas.Bronze.{bronze_errors}
use cryptopulse.Warehouse.Schemas.Silver.{silver_errors}
use cryptopulse.Warehouse.Schemas.Quarantine.{quarantine_errors}
use cryptopulse.Warehouse.Schemas.Gold.{gold_errors}
use cryptopulse.Warehouse.Table.{text_cell, upsert, find_key}
use cryptopulse.Prelude.Int.{pos}
use cryptopulse.Warehouse.Gold.{latest_rows}
use cryptopulse.Warehouse.World.{World}
use cryptopulse.Python.Datetime.{from_instant}
use cryptopulse.Python.Text.Order.{str_leb_total, str_leb_trans, str_leb_antisym}
use cryptopulse.Warehouse.Gold.Newest.{IsCollation, IsNewest, latest_rows-AreNewest}
use cryptopulse.Warehouse.Table.Keys.{IsKeyed, find_key-upsert, upsert-upsert}
use cryptopulse.Tests.Data.{
  good, bad, trusted, trade_time, of_price, no_price, calm, empty_world, no_window,
}

abbrev good_row : Row
unfolding internal_event_to_record
good_row = internal_event_to_record good

abbrev bad_row : Row
unfolding internal_event_to_record
bad_row = internal_event_to_record bad

-- Another row under the identity of `good_row`.
abbrev changed_row : Row
unfolding internal_event_to_record
changed_row = internal_event_to_record (of_price "e2" no_price)

abbrev rejected : QuarantineRecord
rejected = record {
  event = bad;
  quarantined_at = trade_time;
  failures = failure "price_validity" "non_positive" "price must be positive, got 0" ∷ [];
}

rows_round_trip_example :
    (record_to_internal_event (internal_event_to_record good) ≡ returned good)
    × (record_to_trusted_event (trusted_event_to_record trusted) ≡ returned trusted)
    × (record_to_quarantine_record (quarantine_record_to_record rejected) ≡ returned rejected)
    × (record_to_market_window (market_window_to_record no_window) ≡ returned no_window)
rows_round_trip_example = rows_round_trip good trusted rejected no_window

same_identity : text_cell "event_id" changed_row ≡ text_cell "event_id" good_row
unfolding text_cell good_row changed_row
same_identity = refl

find_key-upsert_example :
    find_key "event_id" "e2" (upsert "event_id" changed_row (good_row ∷ bad_row ∷ [])) ≡ (
      if str_eq (text_cell "event_id" changed_row) "e2"
      then some changed_row
      else find_key "event_id" "e2" (good_row ∷ bad_row ∷ []))
find_key-upsert_example = find_key-upsert "event_id" "e2" changed_row (good_row ∷ bad_row ∷ [])

upsert-upsert_example :
    upsert "event_id" good_row (upsert "event_id" changed_row (bad_row ∷ []))
    ≡ upsert "event_id" good_row (bad_row ∷ [])
upsert-upsert_example = upsert-upsert "event_id" changed_row good_row (bad_row ∷ []) same_identity

-- A row of Bronze cannot be read as one of Quarantine or Gold.
records-RaisesOnly_example :
    RaisesOnly bronze_errors (record_to_internal_event good_row)
    × RaisesOnly silver_errors (record_to_trusted_event good_row)
    × RaisesOnly quarantine_errors (record_to_quarantine_record good_row)
    × RaisesOnly gold_errors (record_to_market_window good_row)
records-RaisesOnly_example = records-RaisesOnly good_row

calm-IsCollation : IsCollation calm.collate
calm-IsCollation = (str_leb_total, str_leb_trans, str_leb_antisym)

-- Two windows of one symbol and one of another.
abbrev market : World
unfolding market_window_to_record
market =
    let early : Row = market_window_to_record no_window in
    let late : Row =
      market_window_to_record
        (record no_window { window_start = from_instant (pos 1700000100000000) }) in
    let other : Row = market_window_to_record (record no_window { symbol = "ETH-USD" }) in
    record empty_world { gold = early ∷ other ∷ late ∷ [] }

latest_rows-AreNewest_example :
    IsKeyed "symbol" (latest_rows calm (pos 5) market)
    × All (IsNewest market.gold) (latest_rows calm (pos 5) market)
latest_rows-AreNewest_example = latest_rows-AreNewest calm calm-IsCollation (pos 5) market
