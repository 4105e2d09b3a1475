-- ===== src/Tests/Data.antt =====
-- The inputs of the tests.
use cryptopulse.Prelude.{◌+◌, refl, String, false, [], ◌∷◌}
use cryptopulse.Prelude.Int.{pos}
use cryptopulse.Python.Text.{str_leb}
use cryptopulse.Python.Decimal.{Decimal}
use cryptopulse.Python.Datetime.{Datetime, from_instant}
use cryptopulse.Python.Value.{EventType, TradeSide, end}
use cryptopulse.Contracts.Events.{InternalEvent, TrustedEvent}
use cryptopulse.Contracts.Gold.{MarketWindow}
use cryptopulse.Validation.Engine.{trusted_event_from}
use cryptopulse.Warehouse.Schemas.Bronze.{internal_event_to_record}
use cryptopulse.Warehouse.World.{Environment, World, Result, ok, err}
use cryptopulse.Trust.Routing.{KeepsText}

-- A server that refuses nothing and gives back what it stored.
abbrev pub calm : Environment
calm = record {
  refuses = λ n. false;
  clock = λ n. pos (1700000000000000 + n);
  column = λ v. v;
  collate = str_leb;
}

pub calm-KeepsText : KeepsText calm
calm-KeepsText s = refl

abbrev pub trade_time : Datetime
trade_time = from_instant (pos 1700000005000000)

abbrev pub of_price : String → Decimal → InternalEvent
of_price event_id price = record {
  event_id = event_id;
  source = "coinbase";
  event_type = EventType.trade;
  received_at = trade_time;
  symbol = "BTC-USD";
  price = price;
  quantity = record { negative = false; coefficient = 5; exponent = pos 0 };
  side = TradeSide.buy;
  trade_id = "7";
  trade_timestamp = trade_time;
  payload = end;
}

abbrev pub price_of_100 : Decimal
price_of_100 = record { negative = false; coefficient = 100; exponent = pos 0 }

abbrev pub no_price : Decimal
no_price = record { negative = false; coefficient = 0; exponent = pos 0 }

abbrev pub good : InternalEvent
good = of_price "e2" price_of_100

abbrev pub bad : InternalEvent
bad = of_price "e1" no_price

unfoldable pub trusted : TrustedEvent
unfolding trusted_event_from
trusted = trusted_event_from trade_time good

abbrev pub empty_world : World
empty_world = record {
  bronze = [];
  silver = [];
  quarantine = [];
  gold = [];
  commits = [];
  ticks = 0;
}

-- A rejected event comes before a good one.
abbrev pub two_events : World
two_events = record empty_world {
  bronze = internal_event_to_record bad ∷ internal_event_to_record good ∷ [];
}

abbrev pub value_of {ℓ} : {A : Type ℓ} → A → Result A → A
value_of default (ok a) = a
value_of default (err e) = default

abbrev pub no_window : MarketWindow
no_window = record {
  window_id = "BTC-USD:";
  symbol = "BTC-USD";
  window_start = trade_time;
  window_end = trade_time;
  open_price = no_price;
  high = no_price;
  low = no_price;
  close = no_price;
  trade_count = 0;
  volume = no_price;
  buy_volume = no_price;
  sell_volume = no_price;
  vwap = no_price;
  computed_at = trade_time;
  is_final = false;
}
