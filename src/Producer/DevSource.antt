-- ===== src/Producer/DevSource.antt =====
-- producer/connectors/dev.py: the finite source for development. Another task can call `disconnect`
-- whenever the stream awaits the consumer of a payload, or its sleep between two payloads; `stops`
-- says at which suspensions it does. Logging is left out.
pub mod Order
use cryptopulse.Prelude.{
  ℕ, zero, suc, ◌+◌, ◌≤◌, ◌<◌, ◌≡◌, refl, sym, ap, ◌∙◌, inl, inr, String, Bool, true, false, not,
  ◌||◌, ltb, List, [], ◌∷◌, ◌++◌, take, length, Option, none, some, if◌then◌else◌, arith,
  Bool-cases,
}
use cryptopulse.Prelude.Int.{pos}
use cryptopulse.Python.Value.{Fields, text, integer, field, end}
use cryptopulse.Warehouse.World.{Error, Result, ok, err, runtime_error}
use cryptopulse.Producer.Coinbase.{
  ConnectionState, disconnected, connecting, connected, reconnecting, is_connected,
}

-- `interval` is `interval_seconds`, in a unit of time; then what the object did.
pub record DevConnector : Type 0 where
  pub events : List Fields
  pub interval : ℕ
  pub state : ConnectionState
  pub stop_requested : Bool
  pub suspensions : ℕ
  pub yielded : List Fields

-- `connect`
unfoldable pub connect : DevConnector → DevConnector
unfolding is_connected
connect c =
    if is_connected c.state then c else record c { state = connected; stop_requested = false }

-- `disconnect`
unfoldable pub disconnect : DevConnector → DevConnector
disconnect c = record c { state = disconnected; stop_requested = true }

-- `reconnect`
unfoldable pub reconnect : DevConnector → DevConnector
unfolding connect
reconnect c = connect (record c { state = reconnecting; stop_requested = false })

module _ (stops : ℕ → Bool) where
  unfoldable pub suspend : DevConnector → DevConnector
  unfolding disconnect
  suspend c =
      let later = record c { suspensions = suc c.suspensions } in
      if stops c.suspensions then disconnect later else later

  unfoldable pub pause : DevConnector → DevConnector
  pause c = if ltb 0 c.interval then suspend c else c

  unfoldable pub yield_payload : Fields → DevConnector → DevConnector
  yield_payload raw c = suspend (record c { yielded = c.yielded ++ raw ∷ [] })

  -- `for raw in self._events`
  unfoldable pub stream_events : List Fields → DevConnector → DevConnector
  unfolding is_connected
  stream_events [] c = c
  stream_events (raw ∷ rest) c = elim (c.stop_requested || not (is_connected c.state)) [
    | true ↦ c
    | false ↦ stream_events rest (yield_payload raw (pause c))
  ]

  -- `stream`
  unfoldable pub stream : DevConnector → Result (Unit {0}) × DevConnector
  unfolding is_connected
  stream c =
      if is_connected c.state
      then (ok tt, stream_events c.events c)
      else (err (runtime_error "connector is not connected; call connect() first"), c)

abbrev raw_event : String → String → String → String → String → ℕ → Fields
raw_event symbol price quantity side trade_id trade_time_ms = field "type" (text "trade") (
    field "symbol" (text symbol) (
      field "price" (text price) (
        field "quantity" (text quantity) (
          field "side" (text side) (
            field "trade_id" (text trade_id) (
              field "trade_time_ms" (integer (pos trade_time_ms))
                (field "venue" (text "dev-exchange") end)))))))

-- `DEV_RAW_EVENTS`
unfoldable pub dev_raw_events : List Fields
dev_raw_events =
    raw_event "BTC-USD" "64001.12345678901234567890" "0.000123456789012345678901234567890" "buy"
      "trade-001" 1787739000000
    ∷ raw_event "BTC-USD" "64100.50" "1.25" "sell" "trade-002" 1787739001000
    ∷ raw_event "BTC-USD" "64002.00" "0.5" "buy" "trade-001" 1787739002000
    ∷ raw_event "ETH-USD" "3141.59265358979323846" "10.0" "sell" "trade-003" 1787739003000
    ∷ []
