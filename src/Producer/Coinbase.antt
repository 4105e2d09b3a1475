-- ===== src/Producer/Coinbase.antt =====
-- producer/connectors/coinbase.py: the connector's lifecycle and its stream, with the retry loop.
-- The network is a parameter: what the server does at each attempt to connect, and the frames that
-- it sends until that connection is lost, in order. `json.loads` and `str` are parameters. Another
-- task can call `disconnect` whenever the connector awaits something; `stops` says at which
-- suspensions it does. A suspension stands for one `await` on the network, on `sleep`, or on the
-- consumer of a yielded payload; `disconnect` itself is one step. A lost connection ends its
-- frames, with an exception or without one: the code treats these alike. Delays are whole numbers;
-- the overflow of a float delay after a thousand attempts is left out.
pub mod Order
pub mod Steps
pub mod Counts
pub mod Fatal
pub mod Rounds
pub mod Sessions
pub mod Ending
pub mod Backoff
pub mod Yields
use Prim.Native.Nat.{min}
use cryptopulse.Prelude.{
  ℕ, zero, suc, ◌+◌, ◌-◌, ◌*◌, ◌^◌, String, Bool, true, false, not, ◌||◌, ltb, str_eq, List, [],
  ◌∷◌, ◌++◌, Option, none, some, if◌then◌else◌,
}
use cryptopulse.Python.Value.{Value, Fields, text, object}
use cryptopulse.Warehouse.World.{
  Error, Result, ok, err, runtime_error, exchange_error, os_error, type_error,
}
use cryptopulse.Producer.Settings.{ExchangeSettings, get, is_true, is_hashable, is_match_type}

-- producer/connectors/base.py
pub data ConnectionState : Type 0 where
  disconnected connecting connected reconnecting : ConnectionState

unfoldable pub is_connected : ConnectionState → Bool
is_connected connected = true
is_connected _ = false

-- What an attempt to connect meets: the socket cannot be opened, the subscription cannot be sent,
-- or both succeed and the frames arrive.
pub data Attempt : Type 0 where
  refused : Attempt
  unsubscribed : List String → Attempt
  accepted : List String → Attempt

-- What happens to a connector that others can see: it begins to open a connection, it sleeps, it
-- yields a payload, or it is told to stop.
pub data Happening : Type 0 where
  attempted : Happening
  slept_for : ℕ → Happening
  emitted : Fields → Happening
  told_to_stop : Happening

-- The fields of the object; then what it did: the attempts made, the suspensions, the delays that
-- it slept, and the payloads that it yielded, both in order; and all that happened, the newest
-- first.
pub record Connector : Type 0 where
  pub state : ConnectionState
  pub stop_requested : Bool
  pub context : Bool
  pub ws : Option (List String)
  pub attempts : ℕ
  pub suspensions : ℕ
  pub slept : List ℕ
  pub yielded : List Fields
  pub log : List Happening

-- `__init__`
unfoldable pub new : Connector
new = record {
  state = disconnected;
  stop_requested = false;
  context = false;
  ws = none;
  attempts = 0;
  suspensions = 0;
  slept = [];
  yielded = [];
  log = [];
}

-- What surrounds the connector.
pub record Surroundings : Type 0 where
  pub settings : ExchangeSettings
  pub network : ℕ → Attempt
  pub stops : ℕ → Bool
  pub json : String → Option Value
  pub str : Value → String

-- `disconnect`
unfoldable pub disconnect : Connector → Connector
disconnect c = record c {
  state = disconnected;
  stop_requested = true;
  context = false;
  ws = none;
  log = told_to_stop ∷ c.log;
}

-- How the reading of one connection's frames ended: the connection was lost, a stop was seen, or it
-- raised.
pub data Read : Type 0 where
  lost : Read
  stopped : Read
  raised : Error → Read

-- What the loop's body does with a frame.
pub data Action : Type 0 where
  skip : Action
  emit : Fields → Action
  fail : Error → Action

module _ (world : Surroundings) where
  -- An `await`.
  unfoldable pub suspend : Connector → Connector
  unfolding disconnect
  suspend c =
      let later = record c { suspensions = suc c.suspensions } in
      if world.stops c.suspensions then disconnect later else later

  -- `_close`: without a context there is nothing to await.
  unfoldable pub close : Connector → Connector
  close c =
      if c.context
      then suspend (record c { context = false; ws = none })
      else record c { context = false; ws = none }

  abbrev opened : List String → Connector → Connector
  opened frames c = suspend (record c { ws = some frames })

  abbrev entered : Attempt → Connector → Result (Unit {0}) × Connector
  entered refused c = (err os_error, c)
  entered (unsubscribed frames) c = (err os_error, opened frames c)
  entered (accepted frames) c = (ok tt, opened frames c)

  -- `_open`
  unfoldable pub open_connection : Connector → Result (Unit {0}) × Connector
  open_connection c =
      entered (world.network c.attempts)
        (suspend (record c { context = true; attempts = suc c.attempts; log = attempted ∷ c.log }))

  abbrev now_connected : Result (Unit {0}) × Connector → Result (Unit {0}) × Connector
  now_connected (ok u, c) = (ok u, record c { state = connected })
  now_connected (err e, c) = (err e, c)

  -- `connect`
  unfoldable pub connect : Connector → Result (Unit {0}) × Connector
  unfolding is_connected
  connect c =
      if is_connected c.state
      then (ok tt, c)
      else now_connected (open_connection (record c { state = connecting; stop_requested = false }))

  -- `reconnect`
  unfoldable pub reconnect : Connector → Result (Unit {0}) × Connector
  reconnect c = now_connected (open_connection (close (record c { state = reconnecting })))

  -- `_wait_before_reconnect`
  unfoldable pub delay : ℕ → ℕ
  delay attempt =
      min (world.settings.reconnect_delay * 2 ^ (attempt - 1)) world.settings.max_reconnect_delay

  unfoldable pub wait_before_reconnect : ℕ → Connector → Connector
  unfolding delay
  wait_before_reconnect attempt c =
      suspend (record c {
        slept = c.slept ++ delay attempt ∷ [];
        log = slept_for (delay attempt) ∷ c.log;
      })

  abbrev as_dict : Option Value → Option Fields
  as_dict (some (object fields)) = some fields
  as_dict _ = none

  -- `_decode`
  unfoldable pub decode : String → Option Fields
  decode message = as_dict (world.json message)

  abbrev is_error : Value → Bool
  is_error (text s) = str_eq s "error"
  is_error _ = false

  abbrev or_else : Value → Value → Value
  or_else a b = if is_true a then a else b

  -- The body of `async for`, after the check for a stop. The TypeError's text is left short.
  abbrev act_on_payload : Option Fields → Action
  act_on_payload none = skip
  act_on_payload (some payload) =
      let message_type = get "type" payload in
      if is_error message_type
      then fail (
          exchange_error (
            world.str
              (or_else (get "message" payload) (or_else (get "reason" payload) (object payload)))))
      else if not (is_hashable message_type)
      then fail (type_error "unhashable type")
      else if is_match_type message_type
      then emit payload
      else skip

  unfoldable pub act : String → Action
  unfolding decode is_true is_hashable is_match_type
  act message = act_on_payload (decode message)

  -- `yield payload`
  unfoldable pub yield_payload : Fields → Connector → Connector
  yield_payload payload c =
      suspend (record c { yielded = c.yielded ++ payload ∷ []; log = emitted payload ∷ c.log })

  -- `async for message in ws`, with the count of consecutive failures.
  unfoldable pub read : List String → ℕ → Connector → Read × ℕ × Connector
  read [] failures c = (lost, failures, suspend c)
  read (message ∷ rest) failures c =
      let c' = suspend c in
      if c'.stop_requested then (stopped, 0, c') else elim (act message) [
        | skip ↦ read rest 0 c'
        | emit payload ↦ read rest 0 (yield_payload payload c')
        | fail e ↦ (raised e, 0, c')
      ]

  -- The rest of the loop continues in `loop`.
  abbrev pub Loop : Type 0
  Loop = ℕ → Connector → Option (Result (Unit {0}) × Connector)

  abbrev reconnected :
      Loop → ℕ → Result (Unit {0}) × Connector → Option (Result (Unit {0}) × Connector)
  reconnected loop failures (ok u, c) = loop failures c
  reconnected loop failures (err e, c) = some (err e, c)

  abbrev woken : Loop → ℕ → Connector → Option (Result (Unit {0}) × Connector)
  woken loop failures c =
      if c.stop_requested then some (ok tt, c) else reconnected loop failures (reconnect c)

  -- `except (ConnectionClosed, OSError, ConnectionError)`
  abbrev recover : Loop → ℕ → Connector → Option (Result (Unit {0}) × Connector)
  recover loop failures c =
      if c.stop_requested || not (is_connected c.state)
      then some (ok tt, c)
      else if ltb world.settings.max_reconnect_attempts (failures + 1)
      then some (ok tt, c)
      else woken loop (failures + 1) (wait_before_reconnect (failures + 1) c)

  abbrev after : Loop → Read × ℕ × Connector → Option (Result (Unit {0}) × Connector)
  after loop (lost, failures, c) = recover loop failures c
  after loop (stopped, failures, c) = some (ok tt, c)
  after loop (raised e, failures, c) = some (err e, c)

  abbrev not_connected : Error
  not_connected = runtime_error "connector is not connected; call connect() first"

  abbrev iterate : Loop → Option (List String) → Loop
  iterate loop none failures c = some (err not_connected, c)
  iterate loop (some frames) failures c = after loop (read frames failures c)

  -- The while loop, with the number of connections that it may read; `none` means that these did
  -- not suffice.
  unfoldable pub stream_loop : ℕ → Loop
  unfolding is_connected
  stream_loop zero failures c = none
  stream_loop (suc fuel) failures c =
      if c.stop_requested || not (is_connected c.state)
      then some (ok tt, c)
      else iterate (stream_loop fuel) c.ws failures c

  -- `stream`
  unfoldable pub stream : ℕ → Connector → Option (Result (Unit {0}) × Connector)
  unfolding stream_loop read act yield_payload wait_before_reconnect reconnect open_connection close
      suspend
  stream fuel c = if is_connected c.state then stream_loop fuel 0 c else some (err not_connected, c)
