-- ===== src/Tests/Connectors.antt =====
-- The theorems on the connectors at concrete inputs.
use cryptopulse.Prelude.{
  ℕ, ◌≤◌, ◌≡◌, refl, String, Bool, true, false, ◌==◌, str_eq, List, [], ◌∷◌, ◌++◌, take, Option,
  none, some, if◌then◌else◌, arith,
}
use cryptopulse.Prelude.Int.{pos}
use cryptopulse.Python.Value.{Value, Fields, text, integer, array, nil, object, field, end}
use cryptopulse.Warehouse.World.{Result, ok, err, os_error, type_error}
use cryptopulse.Producer.Settings.{ExchangeSettings, get_or}
use cryptopulse.Producer.Coinbase.{
  Happening, attempted, slept_for, emitted, Connector, connected, disconnected, Surroundings,
  Attempt, refused, accepted, new, connect, stream, read, act, fail, lost, suspend, open_connection,
}
use cryptopulse.Producer.Coinbase.Order.{IsOrderly}
use cryptopulse.Producer.Coinbase.Steps.{Steps}
use cryptopulse.Producer.Coinbase.Fatal.{RaisesFatal}
use cryptopulse.Producer.Coinbase.Counts.{frames_of}
use cryptopulse.Producer.Coinbase.Sessions.{IsSound, starting, stream-IsSound, stream-Steps}
use cryptopulse.Producer.Coinbase.Ending.{stream_ends, stream_stops}
use cryptopulse.Producer.Coinbase.Backoff.{idle, ended, doubling, stream-delays_from}
use cryptopulse.Producer.Coinbase.Yields.{trades, IsHandled, read-yielded}
use cryptopulse.Producer.DevSource.{DevConnector, dev_raw_events}
use cryptopulse.Producer.DevSource

abbrev settings : ExchangeSettings
settings = record { max_reconnect_attempts = 3; reconnect_delay = 10; max_reconnect_delay = 25 }

abbrev match_message : Fields
match_message = field "type" (text "match") (field "trade_id" (integer (pos 10)) end)

-- A frame of each kind.
abbrev parse : String → Option Value
parse s =
    if str_eq s "match"
    then some (object match_message)
    else if str_eq s "heartbeat"
    then some (object (field "type" (text "heartbeat") end))
    else if str_eq s "list"
    then some (object (field "type" (array nil) end))
    else if str_eq s "error"
    then some (object (field "type" (text "error") (field "message" (text "rejected") end)))
    else none

-- The first connection has some frames, the later ones none.
abbrev network_of : List String → ℕ → Attempt
network_of frames i = if i == 0 then accepted frames else accepted []

abbrev world_of : List String → (ℕ → Bool) → Surroundings
world_of frames stops = record {
  settings = settings;
  network = network_of frames;
  stops = stops;
  json = parse;
  str = λ v. "";
}

abbrev never : ℕ → Bool
never i = false

abbrev busy : Surroundings
busy = world_of ("heartbeat" ∷ "match" ∷ "nonsense" ∷ "match" ∷ []) never

abbrev connector_of : Surroundings → Connector
unfolding connect new
connector_of world = (connect world new).1

abbrev tried : Result (Unit {0}) × Connector
tried = (
  ok tt,
  record {
    state = connected;
    stop_requested = false;
    context = true;
    ws = some [];
    attempts = 4;
    suspensions = 24;
    slept = 10 ∷ 20 ∷ 25 ∷ [];
    yielded = match_message ∷ match_message ∷ [];
    log =
        attempted
        ∷ slept_for 25
        ∷ attempted
        ∷ slept_for 20
        ∷ attempted
        ∷ slept_for 10
        ∷ emitted match_message
        ∷ emitted match_message
        ∷ attempted
        ∷ [];
  },
)

-- Both trades are yielded; then the connections are lost, and the attempts are used up.
busy_run : stream busy 5 (connector_of busy) ≡ some tried
unfolding stream new connect connector_of get_or
busy_run = refl

connected_busy : connect busy new ≡ (ok tt, connector_of busy)
unfolding connect new connector_of suspend open_connection
connected_busy = refl

stream-IsSound_example : IsSound busy tried.1 × RaisesFatal tried.0
stream-IsSound_example = stream-IsSound busy 5 (connector_of busy) tried connected_busy busy_run

stream-Steps_example : Steps busy (starting busy) tried.1 × IsOrderly tried.1.log
stream-Steps_example = stream-Steps busy 5 (connector_of busy) tried connected_busy busy_run

busy_falls_silent : (i : ℕ) → 1 ≤ i → frames_of (busy.network i) ≡ []
busy_falls_silent i h = ground arith

stream_ends_example :
    (r : Result (Unit {0}) × Connector) × (stream busy 7 (connector_of busy) ≡ some r)
stream_ends_example =
    stream_ends busy 1 7 (connector_of busy) connected_busy busy_falls_silent (omega arith)

-- A stop while the second frame is awaited.
abbrev stopped_world : Surroundings
stopped_world = world_of ("match" ∷ "match" ∷ "match" ∷ []) (λ i. i == 4)

stopped_connected : connect stopped_world new ≡ (ok tt, connector_of stopped_world)
unfolding connect new connector_of suspend open_connection
stopped_connected = refl

stream_stops_example :
    (r : Result (Unit {0}) × Connector) × (stream stopped_world 6 (connector_of stopped_world)
      ≡ some r)
stream_stops_example =
    stream_stops stopped_world 4 6 (connector_of stopped_world) stopped_connected refl (omega arith)

-- Every connection is lost at once.
abbrev silent_world : Surroundings
silent_world = record busy { network = λ i. accepted [] }

silent_connected : connect silent_world new ≡ (ok tt, idle silent_world 1 2 [] [] (attempted ∷ []))
unfolding connect new suspend open_connection
silent_connected = refl

stream-delays_from_example :
    (waits : ℕ) × (log : List Happening) × (stream silent_world 4
        (idle silent_world 1 2 [] [] (attempted ∷ []))
      ≡ ended silent_world (idle silent_world 4 waits (doubling silent_world 10 3) [] log))
stream-delays_from_example =
    stream-delays_from silent_world (λ i. refl) (λ i. refl)
      (idle silent_world 1 2 [] [] (attempted ∷ [])) silent_connected

silent_delays : doubling silent_world 10 3 ≡ 10 ∷ 20 ∷ 25 ∷ []
silent_delays = refl

-- A connection that cannot be opened again ends the stream with the error, at the first attempt of
-- three.
abbrev refusing_world : Surroundings
refusing_world = record busy { network = λ i. if i == 0 then accepted [] else refused }

refusing_run :
    (r : Connector) × (stream refusing_world 5 (connector_of refusing_world)
      ≡ some (err os_error, r))
    × (r.slept ≡ 10 ∷ [])
unfolding stream new connect connector_of get_or
refusing_run = (_, refl, refl)

-- A stop while the new connection is awaited: the connector is connected afterwards.
abbrev raced_world : Surroundings
raced_world = record silent_world { stops = λ i. i == 6 }

raced_run :
    (r : Connector) × (stream raced_world 5 (connector_of raced_world) ≡ some (ok tt, r))
    × (r.state ≡ connected)
    × (r.stop_requested ≡ true)
unfolding stream new connect connector_of get_or
raced_run = (_, refl, refl, refl)

-- A type that is a list.
unhashable_type : act busy "list" ≡ fail (type_error "unhashable type")
unfolding act get_or
unhashable_type = refl

busy_unstopped : (connector_of busy).stop_requested ≡ false
unfolding connect new connector_of suspend open_connection
busy_unstopped = refl

IsHandled-heartbeat : IsHandled busy "heartbeat"
unfolding act get_or
IsHandled-heartbeat e h = cc

IsHandled-match : IsHandled busy "match"
unfolding act get_or
IsHandled-match e h = cc

read-yielded_example :
    ((read busy ("match" ∷ "heartbeat" ∷ "match" ∷ []) 2 (connector_of busy)).0 ≡ lost)
    × ((read busy ("match" ∷ "heartbeat" ∷ "match" ∷ []) 2 (connector_of busy)).2.yielded
        ≡ (connector_of busy).yielded ++ trades busy ("match" ∷ "heartbeat" ∷ "match" ∷ []))
read-yielded_example =
    read-yielded busy (λ i. refl) ("match" ∷ "heartbeat" ∷ "match" ∷ []) 2 (connector_of busy)
      busy_unstopped (IsHandled-match, (IsHandled-heartbeat, (IsHandled-match, tt)))

-- The script of the development source, stopped while its second payload is taken.
abbrev source : DevConnector
source = record {
  events = dev_raw_events;
  interval = 0;
  state = disconnected;
  stop_requested = false;
  suspensions = 0;
  yielded = [];
}

stopped_source :
    (DevSource.stream (λ i. i == 1) (DevSource.connect source)).1.yielded ≡ take 2 dev_raw_events
unfolding DevSource.stream DevSource.connect dev_raw_events DevSource.stream_events
    DevSource.yield_payload DevSource.suspend DevSource.pause
stopped_source = refl
