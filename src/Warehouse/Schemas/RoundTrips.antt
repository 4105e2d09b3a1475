-- ===== src/Warehouse/Schemas/RoundTrips.antt =====
-- Writing a row and reading it back, in all four layers.
use cryptopulse.Prelude.{◌≡◌}
use cryptopulse.Python.Call.{returned}
use cryptopulse.Contracts.Events.{InternalEvent, TrustedEvent}
use cryptopulse.Contracts.Gold.{MarketWindow}
use cryptopulse.Warehouse.Schemas.Bronze.{
  internal_event_to_record, record_to_internal_event, event_round_trip,
}
use cryptopulse.Warehouse.Schemas.Silver.{
  trusted_event_to_record, record_to_trusted_event, trusted_round_trip,
}
use cryptopulse.Warehouse.Schemas.Quarantine.{
  QuarantineRecord, quarantine_record_to_record, record_to_quarantine_record, quarantine_round_trip,
}
use cryptopulse.Warehouse.Schemas.Gold.{
  market_window_to_record, record_to_market_window, window_round_trip,
}

-- In each of the four layers, a row that was made from an event, a trusted event, a quarantine
-- record or a market window reads back as just that, every field and every failure in its order.
pub rows_round_trip :
    (e : InternalEvent) (t : TrustedEvent) (q : QuarantineRecord) (w : MarketWindow)
    → (record_to_internal_event (internal_event_to_record e) ≡ returned e)
      × (record_to_trusted_event (trusted_event_to_record t) ≡ returned t)
      × (record_to_quarantine_record (quarantine_record_to_record q) ≡ returned q)
      × (record_to_market_window (market_window_to_record w) ≡ returned w)
rows_round_trip e t q w =
    (event_round_trip e, trusted_round_trip t, quarantine_round_trip q, window_round_trip w)
