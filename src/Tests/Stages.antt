-- ===== src/Tests/Stages.antt =====
-- The theorems on the three stages and the pipeline at concrete inputs.
use cryptopulse.Prelude.{
  arith, ℕ, ◌≤◌, ◌≡◌, refl, String, Bool, true, false, List, [], ◌∷◌, ◌++◌, map, take, length,
  select, All, Option, none, some, ◌+◌, str_eq, if◌then◌else◌,
}
use Prim.Native.Nat.{min}
use cryptopulse.Prelude.Int.{ℤ, pos, pos_part, ◌-ℤ◌}
use cryptopulse.Python.Call.{returned}
use cryptopulse.Contracts.Events.{InternalEvent}
use cryptopulse.Validation.Rules.{Rule, default_rules, validate_price}
use cryptopulse.Warehouse.World.{World, ok, fetch, now, execute}
use cryptopulse.Warehouse.Rows.{parse_event_type, parse_side}
use cryptopulse.Warehouse.Schemas.Bronze.{internal_event_to_record, record_to_internal_event}
use cryptopulse.Warehouse.Silver
use cryptopulse.Warehouse.Quarantine
use cryptopulse.Validation.Engine.{validate}
use cryptopulse.Python.Text.{str_leb}
use cryptopulse.Python.Decimal.{is_non_positive}
use cryptopulse.Contracts.Events.{attributes}
use cryptopulse.Warehouse.Table.{has_key, find_key, map_rows, row_le}
use cryptopulse.Warehouse.Bronze
use cryptopulse.Ingestion.{Message, offsets, stream_events, ingest}
use cryptopulse.Ingestion.Stored.{rows_of}
use cryptopulse.Ingestion.Delivery.{IsHeld, ingest-at_least_once, ingest-count}
use cryptopulse.Ingestion.Progress.{IsWilling, ingest_returns}
use cryptopulse.Ingestion.Frame.{WritesBronze, ingest-WritesBronze}
use cryptopulse.Trust.{TrustRoutingResult, nothing_routed, process_batch}
use cryptopulse.Trust.Frame.{OnlyAdds, process_batch-OnlyAdds}
use cryptopulse.Trust.Safety.{IsTrustedLayer, process_batch-IsTrustedLayer}
use cryptopulse.Trust.Routing.{accepts, rejects, process_batch-ok}
use cryptopulse.Trust.Passes.{decoded}
use cryptopulse.Trust.Starvation.{passes, passes-silver, passes_starve}
use cryptopulse.GoldService
use cryptopulse.GoldService.{GoldSettings}
use cryptopulse.GoldService.Frame.{WritesGold, process_batch-WritesGold}
use cryptopulse.Pipeline.{run_once}
use cryptopulse.Pipeline.Layers.{AreSound, run_once-AreSound}
use cryptopulse.Tests.Data.{calm, calm-KeepsText, good, bad, empty_world, two_events, value_of}

-- A codec that reads two texts.
abbrev pub read_text : String → Option InternalEvent
read_text s = if str_eq s "good" then some good else if str_eq s "bad" then some bad else none

abbrev message : ℕ → String → Message String
message offset value = record {
  value = some value;
  topic = "market-events";
  partition = 0;
  offset = offset;
}

abbrev pub messages : List (Message String)
messages = message 0 "bad" ∷ message 1 "?" ∷ message 2 "good" ∷ []

abbrev pub gold_settings : GoldSettings
gold_settings = record {
  window_seconds = pos 60;
  allowed_lateness_seconds = pos 120;
  vwap_scale = 8;
  batch_size = pos 1000;
}

ingest-at_least_once_example :
    (n : ℕ) × ((ingest calm read_text true messages (pos 2) empty_world).1.commits
      ≡ [] ++ map offsets (take n (stream_events read_text messages)))
    × All
        (IsHeld (ingest calm read_text true messages (pos 2) empty_world).1)
        (take n (stream_events read_text messages))
    × ((k : ℕ) × (n ≤ k)
        × ((id : String)
            → find_key "event_id" id
                (ingest calm read_text true messages (pos 2) empty_world).1.bronze
              ≡ find_key "event_id" id
                  (empty_world.bronze ++ rows_of calm (take k (stream_events read_text messages)))))
ingest-at_least_once_example =
    ingest-at_least_once calm read_text true messages (pos 2) empty_world calm-KeepsText

two_ingested : (ingest calm read_text true messages (pos 2) empty_world).0 ≡ ok 2
unfolding ingest Bronze.append cryptopulse.Warehouse.World.execute
two_ingested = refl

ingest-count_example :
    (2 ≡ min 2 (length (stream_events read_text messages)))
    × ((ingest calm read_text true messages (pos 2) empty_world).1.commits
        ≡ [] ++ map offsets (take 2 (stream_events read_text messages)))
ingest-count_example =
    ingest-count calm read_text true messages (pos 2) 2 empty_world calm-KeepsText two_ingested

ingest-WritesBronze_example :
    WritesBronze empty_world (ingest calm read_text true messages (pos 2) empty_world).1
ingest-WritesBronze_example = ingest-WritesBronze calm read_text true messages (pos 2) empty_world

process_batch-IsTrustedLayer_example :
    IsTrustedLayer calm (process_batch calm default_rules (pos 10) two_events).1.silver
process_batch-IsTrustedLayer_example =
    process_batch-IsTrustedLayer calm (pos 10) two_events (tt, tt)

process_batch-OnlyAdds_example :
    OnlyAdds two_events (process_batch calm default_rules (pos 10) two_events).1
process_batch-OnlyAdds_example = process_batch-OnlyAdds calm default_rules (pos 10) two_events

-- One of the platform's rules.
abbrev price_only : List Rule
price_only = record { name = "price_validity"; validate = validate_price } ∷ []

abbrev routed : TrustRoutingResult
unfolding process_batch
routed = value_of nothing_routed (process_batch calm price_only (pos 10) two_events).0

both_routed : (process_batch calm price_only (pos 10) two_events).0 ≡ ok routed
unfolding process_batch Bronze.replay fetch map_rows row_le internal_event_to_record ◌-ℤ◌ str_leb
    record_to_internal_event parse_event_type parse_side validate validate_price attributes
    is_non_positive now Quarantine.append_record execute Silver.append routed
    Quarantine.has_same_key
both_routed = refl

process_batch-ok_example :
    (events : List InternalEvent) × ((Bronze.replay calm (pos 0) (pos 10) two_events).0 ≡ ok events)
    × (routed.validated ≡ select (accepts calm price_only) events)
    × (routed.quarantined ≡ select (rejects calm price_only) events)
    × (length (process_batch calm price_only (pos 10) two_events).1.quarantine
        ≡ 0 + length (select (rejects calm price_only) events))
process_batch-ok_example = process_batch-ok calm price_only (pos 10) routed two_events both_routed

passes-silver_example :
    (passes calm price_only 3 (pos 10) (process_batch calm price_only (pos 10) two_events).1).silver
    ≡ (process_batch calm price_only (pos 10) two_events).1.silver
passes-silver_example =
    passes-silver calm price_only 3 (pos 10) routed two_events calm-KeepsText both_routed

first_page : decoded calm (pos 1) two_events ≡ returned (bad ∷ [])
unfolding cryptopulse.Warehouse.Table.map_rows Bronze.replay_rows cryptopulse.Warehouse.Table.row_le
    cryptopulse.Warehouse.Schemas.Bronze.internal_event_to_record cryptopulse.Prelude.Int.◌-ℤ◌
    cryptopulse.Python.Text.str_leb cryptopulse.Warehouse.Schemas.Bronze.record_to_internal_event
    cryptopulse.Warehouse.Rows.parse_event_type cryptopulse.Warehouse.Rows.parse_side
first_page = refl

passes_starve_example :
    has_key "event_id" "e2" (passes calm default_rules 100 (pos 1) two_events).silver ≡ false
unfolding has_key
passes_starve_example =
    passes_starve calm default_rules 100 (pos 1) "e2" two_events (bad ∷ []) calm-KeepsText
      first_page (refl, tt) refl

process_batch-WritesGold_example :
    WritesGold two_events (GoldService.process_batch calm gold_settings (pos 0) none two_events).1
process_batch-WritesGold_example =
    process_batch-WritesGold calm gold_settings (pos 0) none two_events

run_once-AreSound_example :
    AreSound calm
      (run_once calm read_text default_rules gold_settings (pos 2) true messages empty_world).1
run_once-AreSound_example =
    run_once-AreSound calm read_text gold_settings (pos 2) true messages empty_world
      (record { bronze = tt; silver = (tt, tt); gold = tt })

calm-IsWilling : IsWilling calm
calm-IsWilling n = refl

ingest_returns_example :
    (w' : World) × ((later : List (Message String))
      → ingest calm read_text true (messages ++ later) (pos 2) empty_world ≡ (ok 2, w'))
ingest_returns_example =
    ingest_returns calm read_text messages 2 empty_world calm-IsWilling (omega arith)
      (unfold stream_events in omega arith)
