-- ===== src/Tests/Publications.antt =====
-- The theorems on preparation and on the producer's pipeline at concrete inputs.
use mathlib.Core.Path.{subst}
use Prim.Native.Char.{Char, code}
use cryptopulse.Prelude.{
  ℕ, suc, ◌-◌, ◌*◌, ◌≡◌, ◌↔◌, ◌∙◌, ap, sym, refl, String, Bool, true, false, ◌&&◌, leb, ◌==◌,
  str_eq, List, [], ◌∷◌, ◌++◌, take, map, All, length, Option, none, some, if◌then◌else◌,
}
use cryptopulse.Prelude.Int.{ℤ, pos, negsuc, ◌-ℤ◌}
use cryptopulse.Python.Decimal.{Decimal}
use cryptopulse.Python.Decimal.Parse.{parse_decimal}
use cryptopulse.Python.Datetime.{Datetime, from_instant, instant, offset}
use cryptopulse.Python.Value.{Value, Fields, text, integer, object, field, end, buy, trade}
use cryptopulse.Contracts.Events.{InternalEvent, attributes}
use cryptopulse.Validation.Rules.{default_rules}
use cryptopulse.Validation.Outcomes.{Trusts}
use cryptopulse.Ingestion.{Message, ConsumedEvent, stream_events}
use cryptopulse.Warehouse.World.{Result, ok, err, preparation_error, validation_error, os_error}
use cryptopulse.Producer.Raising.{Raises}
use cryptopulse.Producer.Preparation.{
  Runtime, require, to_side, str, non_empty, to_utc_datetime, with_offset, is_representable,
  to_decimal, field_decimal, to_event_type, to_datetime_from_epoch_ms,
}
use cryptopulse.Producer.Settings.{get, get_or, is_hashable, is_match_type}
use cryptopulse.Python.Text.{is_space}
use cryptopulse.Producer.Preparation.Dev
use cryptopulse.Producer.Preparation.Match.{prepare, is_match}
use cryptopulse.Producer.Preparation.Match.Correspondence.{Corresponds, prepare-Corresponds}
use cryptopulse.Producer.Preparation.Match.Trusted.{IsAcceptable, prepare-validate}
use cryptopulse.Producer.Preparation.Match.Errors.{
  IsPreparationError, IsFiniteField, IsTimely, prepare-Raises,
}
use cryptopulse.Producer.DevSource
use cryptopulse.Producer.DevSource.{DevConnector, dev_raw_events}
use cryptopulse.Producer.Coinbase.{disconnected}
use cryptopulse.Producer.Pipeline.{
  KafkaPublisher, Session, Delivery, acknowledged, rejected, run, forward_all, forward, publish,
  dev, dev_preparer,
}
use cryptopulse.Producer.Pipeline.Publishing.{messages}
use cryptopulse.Producer.Pipeline.Runs.{events, GivesBack, run-take, run-stream_events}

abbrev ascii : Char → Option ℕ
ascii c = if leb 48 (code c) && leb (code c) 57 then some (code c - 48) else none

abbrev noon : Datetime
noon = record { wall = pos 1787739000000000; tzinfo = offset (pos 0) }

abbrev milliseconds : ℤ → Result Datetime
milliseconds (pos n) = ok (from_instant (pos (n * 1000)))
milliseconds (negsuc n) = err os_error

abbrev runtime : Runtime
runtime = record {
  digit = ascii;
  shown = λ v. "[]";
  fromisoformat = λ s. if str_eq s "2026-08-26T10:10:00.000000+00:00" then some noon else none;
  from_milliseconds = milliseconds;
  now = noon;
}

abbrev raw_match : String → Fields
raw_match price = field "type" (text "match") (
    field "trade_id" (integer (pos 10)) (
      field "product_id" (text "BTC-USD") (
        field "price" (text price) (
          field "size" (text "0.001")
            (field "side" (text "buy") (field "time" (text "2026-08-26T10:10:00.000000Z") end))))))

abbrev decimal_of : ℕ → ℤ → Decimal
decimal_of c e = record { negative = false; coefficient = c; exponent = e }

abbrev matched : InternalEvent
matched = record {
  event_id = "coinbase:10";
  source = "coinbase";
  event_type = trade;
  received_at = noon;
  symbol = "BTC-USD";
  price = decimal_of 10000 (negsuc 1);
  quantity = decimal_of 1 (negsuc 2);
  side = buy;
  trade_id = "10";
  trade_timestamp = noon;
  payload = raw_match "100.00";
}

prepared_match : prepare runtime (object (raw_match "100.00")) ≡ ok matched
unfolding prepare is_match is_hashable get_or is_match_type require to_side str non_empty
    to_utc_datetime with_offset is_representable ◌-ℤ◌ to_decimal parse_decimal is_space
    field_decimal
prepared_match = refl

-- A price that is no number makes the constructor's error, which is not a PreparationError.
prepared_nan : prepare runtime (object (raw_match "NaN")) ≡ err (validation_error "InternalEvent")
unfolding prepare is_match is_hashable get_or is_match_type require to_side str non_empty
    to_utc_datetime with_offset is_representable ◌-ℤ◌ to_decimal parse_decimal is_space
    field_decimal
prepared_nan = refl

prepared_text :
    prepare runtime (object (raw_match "1,5"))
    ≡ err (preparation_error "field 'price' is not convertible to Decimal")
unfolding prepare is_match is_hashable get_or is_match_type require to_side str non_empty
    to_utc_datetime with_offset is_representable ◌-ℤ◌ to_decimal parse_decimal is_space
    field_decimal
prepared_text = refl

prepare-Corresponds_example : Corresponds runtime (raw_match "100.00") matched
prepare-Corresponds_example =
    prepare-Corresponds runtime (raw_match "100.00") matched prepared_match

prepare-validate_example : Trusts default_rules (attributes matched) ↔ IsAcceptable matched
prepare-validate_example =
    prepare-validate runtime (raw_match "100.00") matched (pos 0) prepared_match refl

some-injective : {A : Type 0} {a b : A} → some a ≡ some b → a ≡ b
some-injective h = cc

raw_hashable : is_hashable (get "type" (raw_match "100.00")) ≡ true
unfolding is_hashable get_or
raw_hashable = refl

finite_price : IsFiniteField runtime (raw_match "100.00") "price"
unfolding str get_or parse_decimal is_space ◌-ℤ◌
finite_price n h = (decimal_of 10000 (negsuc 1), cc)

finite_size : IsFiniteField runtime (raw_match "100.00") "size"
unfolding str get_or parse_decimal is_space ◌-ℤ◌
finite_size n h = (decimal_of 1 (negsuc 2), cc)

timely : IsTimely runtime (raw_match "100.00") "time"
unfolding get_or is_representable ◌-ℤ◌ with_offset str
timely s d is h =
    let read : runtime.fromisoformat (with_offset s) ≡ some noon =
      subst (λ (v : Value). runtime.fromisoformat (with_offset (str runtime v)) ≡ some noon) is
        refl in
    subst (λ (x : Datetime). is_representable (instant x) ≡ true) (some-injective (sym read ∙ h))
      refl

prepare-Raises_example : Raises IsPreparationError (prepare runtime (object (raw_match "100.00")))
prepare-Raises_example =
    prepare-Raises runtime (raw_match "100.00") raw_hashable finite_price finite_size timely

-- The development source through the producer, with events as their own bytes. The consumer's codec
-- reads the events of that source only.
abbrev encode : InternalEvent → Option InternalEvent
encode e = some e

abbrev decode : InternalEvent → Option InternalEvent
decode e = if str_eq e.source "dev" then some e else none

abbrev source : DevConnector
source = record {
  events = dev_raw_events;
  interval = 0;
  state = disconnected;
  stop_requested = false;
  suspensions = 0;
  yielded = [];
}

abbrev client : KafkaPublisher InternalEvent
client = record { started = true; topic = []; sends = 0 }

abbrev calm_broker : ℕ → Delivery
calm_broker i = acknowledged

abbrev never : ℕ → Bool
never i = false

abbrev source_connected : DevConnector
unfolding DevSource.connect
source_connected = DevSource.connect source

abbrev session : Session DevConnector
unfolding dev DevSource.stream
session = record {
  yielded = (DevSource.stream never source_connected).1.yielded;
  ending = ok tt;
  connector = (DevSource.stream never source_connected).1;
}

identities :
    map (λ (e : InternalEvent). e.event_id) (events encode (dev_preparer runtime) dev_raw_events)
    ≡ "dev:trade-001:1787739000000" ∷ "dev:trade-002:1787739001000" ∷ "dev:trade-001:1787739002000"
      ∷ "dev:trade-003:1787739003000" ∷ []
unfolding dev_preparer Dev.prepare dev_raw_events get_or require to_side str non_empty to_event_type
    to_datetime_from_epoch_ms ◌-ℤ◌ to_decimal parse_decimal is_space field_decimal
identities = refl

connected_source : (dev never).connect source ≡ (ok tt, source_connected)
unfolding dev source_connected DevSource.connect
connected_source = refl

streamed_source : (dev never).stream source_connected ≡ some session
unfolding dev session source_connected DevSource.stream DevSource.connect
streamed_source = refl

-- The broker refuses the second message.
abbrev second_rejected : ℕ → Delivery
second_rejected i = if i == 1 then rejected else acknowledged

run-take_example :
    (r : Result ℕ) × (p' : KafkaPublisher InternalEvent) × (k : ℕ) × (run encode second_rejected
        (dev_preparer runtime)
        (dev never)
        source
        client
      ≡ some (r, p', (dev never).disconnect session.connector))
    × (p'.topic
        ≡ client.topic
          ++ take k (messages encode second_rejected (dev_preparer runtime) session.yielded))
run-take_example =
    run-take encode second_rejected (dev_preparer runtime) (dev never) source source_connected
      session client connected_source streamed_source

abbrev published : KafkaPublisher InternalEvent
unfolding session source_connected DevSource.stream DevSource.connect
published = record {
  started = true;
  topic = events encode (dev_preparer runtime) dev_raw_events;
  sends = 4;
}

run-dev :
    run encode calm_broker (dev_preparer runtime) (dev never) source client
    ≡ some (ok 4, published, (dev never).disconnect session.connector)
unfolding run dev forward_all forward publish published session source_connected DevSource.stream
    DevSource.connect DevSource.stream_events DevSource.yield_payload DevSource.suspend
    DevSource.pause dev_raw_events dev_preparer Dev.prepare get_or require to_side str non_empty
    to_event_type to_datetime_from_epoch_ms ◌-ℤ◌ to_decimal parse_decimal is_space field_decimal
run-dev = refl

-- The topic's messages, as the broker delivers them.
abbrev delivered : ℕ → List InternalEvent → List (Message InternalEvent)
delivered n [] = []
delivered n (e ∷ es) =
    record { value = some e; topic = "market-events"; partition = 0; offset = n }
    ∷ delivered (suc n) es

delivered-value :
    (n : ℕ) (es : List InternalEvent)
    → map (λ (x : Message InternalEvent). x.value) (delivered n es) ≡ map some es
delivered-value n [] = refl
delivered-value n (e ∷ es) =
    ap (λ (l : List (Option InternalEvent)). some e ∷ l) (delivered-value (suc n) es)

from_dev :
    (r : Result InternalEvent) (e b : InternalEvent) (first : InternalEvent)
    → r ≡ ok first
    → str_eq first.source "dev" ≡ true
    → r ≡ ok e
    → encode e ≡ some b
    → decode b ≡ some e
from_dev r e b first made dev_source h k =
    let same : first ≡ e = cc in let known : str_eq b.source "dev" ≡ true = cc in rw known (sym k)

codec-GivesBack : All (GivesBack (dev_preparer runtime) encode decode) session.yielded
unfolding dev_preparer Dev.prepare dev_raw_events session source_connected DevSource.stream
    DevSource.connect DevSource.stream_events DevSource.yield_payload DevSource.suspend
    DevSource.pause get_or require to_side str non_empty to_event_type to_datetime_from_epoch_ms
    ◌-ℤ◌ to_decimal parse_decimal is_space field_decimal
codec-GivesBack = (
  λ e b. from_dev _ e b _ refl refl,
  (
    λ e b. from_dev _ e b _ refl refl,
    (λ e b. from_dev _ e b _ refl refl, (λ e b. from_dev _ e b _ refl refl, tt)),
  ),
)

run-stream_events_example :
    (map (λ (x : ConsumedEvent). x.event) (stream_events decode (delivered 0 published.topic))
      ≡ events encode (dev_preparer runtime) session.yielded)
    × (4 ≡ length (events encode (dev_preparer runtime) session.yielded))
run-stream_events_example =
    run-stream_events encode calm_broker (dev_preparer runtime) (dev never) source source_connected
      session client decode (delivered 0 published.topic) 4 published
      ((dev never).disconnect session.connector) codec-GivesBack connected_source streamed_source
      refl run-dev (delivered-value 0 published.topic)
