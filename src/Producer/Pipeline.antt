-- ===== src/Producer/Pipeline.antt =====
-- producer/pipeline.py, messaging/publisher.py, producer/factory.py and run_producer of
-- producer/main.py: from an exchange's payloads to the broker. The codec and the broker are
-- parameters. A source's stream is the list of what it yields, and how it ends: the pipeline gives
-- the source nothing back until it disconnects it. What the broker's client tries again by itself
-- is one delivery, which stores a message once at most. Logging is left out.
pub mod Publishing
pub mod Runs
use cryptopulse.Prelude.{
  ℕ, suc, ◌+◌, ◌≡◌, String, Bool, true, false, List, [], ◌∷◌, ◌++◌, Option, none, some, str_eq,
  if◌then◌else◌,
}
use cryptopulse.Python.Value.{Value, Fields, object}
use cryptopulse.Contracts.Events.{InternalEvent}
use cryptopulse.Warehouse.World.{
  Error, Result, ok, err, publish_error, preparation_error, serialization_error,
}
use cryptopulse.Producer.Coinbase
use cryptopulse.Producer.Coinbase.{Connector, Surroundings}
use cryptopulse.Producer.DevSource
use cryptopulse.Producer.DevSource.{DevConnector}
use cryptopulse.Producer.Preparation.{Runtime}
use cryptopulse.Producer.Preparation.Match
use cryptopulse.Producer.Preparation.Dev

-- What came of a stream: the payloads that it yielded, in order, and how it ended.
pub record Session (C : Type 0) : Type 0 where
  pub yielded : List Fields
  pub ending : Result (Unit {0})
  pub connector : C

-- `ExchangeConnector`; a stream that never ends is `none`.
pub record ExchangeConnector (C : Type 0) : Type 0 where
  pub connect : C → Result (Unit {0}) × C
  pub stream : C → Option (Session C)
  pub disconnect : C → C

-- `EventPreparer`
pub record EventPreparer : Type 0 where
  pub can_prepare : Value → Result Bool
  pub prepare : Value → Result InternalEvent

-- What the broker does with a message that is sent: the producer gets its answer, or an exception,
-- and then the message may have been stored all the same.
pub data Delivery : Type 0 where
  acknowledged rejected unacknowledged : Delivery

-- The producer's client, and the topic's messages; `sends` counts what was sent.
pub record KafkaPublisher (Bytes : Type 0) : Type 0 where
  pub started : Bool
  pub topic : List Bytes
  pub sends : ℕ

module _ {Bytes : Type 0} (encode : InternalEvent → Option Bytes) (broker : ℕ → Delivery) where
  abbrev opened :
      Result (Unit {0}) → KafkaPublisher Bytes → Result (Unit {0}) × KafkaPublisher Bytes
  opened (ok u) p = (ok tt, record p { started = true })
  opened (err e) p = (err e, p)

  -- `start`; what the client's own start does is a parameter.
  unfoldable pub start :
      Result (Unit {0}) → KafkaPublisher Bytes → Result (Unit {0}) × KafkaPublisher Bytes
  start client p = if p.started then (ok tt, p) else opened client p

  abbrev answered :
      Delivery → Bytes → KafkaPublisher Bytes → Result (Unit {0}) × KafkaPublisher Bytes
  answered acknowledged bytes p =
      (ok tt, record p { topic = p.topic ++ bytes ∷ []; sends = suc p.sends })
  answered rejected bytes p =
      (err (publish_error "failed to publish InternalEvent"), record p { sends = suc p.sends })
  answered unacknowledged bytes p = (
    err (publish_error "failed to publish InternalEvent"),
    record p { topic = p.topic ++ bytes ∷ []; sends = suc p.sends },
  )

  abbrev sent : Option Bytes → KafkaPublisher Bytes → Result (Unit {0}) × KafkaPublisher Bytes
  sent none p = (err (serialization_error "failed to encode InternalEvent"), p)
  sent (some bytes) p = answered (broker p.sends) bytes p

  -- `publish`
  unfoldable pub publish :
      InternalEvent → KafkaPublisher Bytes → Result (Unit {0}) × KafkaPublisher Bytes
  publish event p =
      if p.started
      then sent (encode event) p
      else (err (publish_error "publisher has not been started"), p)

  -- `close`
  unfoldable pub close : KafkaPublisher Bytes → KafkaPublisher Bytes
  close p = record p { started = false }

  module _ (preparer : EventPreparer) where
    abbrev counted : Result (Unit {0}) × KafkaPublisher Bytes → Result Bool × KafkaPublisher Bytes
    counted (ok u, p) = (ok true, p)
    counted (err e, p) = (err e, p)

    -- `except PreparationError`; any other exception leaves the loop.
    abbrev prepared :
        Result InternalEvent → KafkaPublisher Bytes → Result Bool × KafkaPublisher Bytes
    prepared (ok event) p = counted (publish event p)
    prepared (err (preparation_error s)) p = (ok false, p)
    prepared (err e) p = (err e, p)

    abbrev recognised :
        Result Bool → Fields → KafkaPublisher Bytes → Result Bool × KafkaPublisher Bytes
    recognised (ok true) raw p = prepared (preparer.prepare (object raw)) p
    recognised (ok false) raw p = (ok false, p)
    recognised (err e) raw p = (err e, p)

    -- The body of the loop: whether the payload was published.
    unfoldable pub forward : Fields → KafkaPublisher Bytes → Result Bool × KafkaPublisher Bytes
    forward raw p = recognised (preparer.can_prepare (object raw)) raw p

    abbrev finished : Result (Unit {0}) → ℕ → Result ℕ
    finished (ok u) published = ok published
    finished (err e) published = err e

    abbrev tally : Bool → ℕ → ℕ
    tally b published = if b then suc published else published

    -- The rest of the loop, unless its body raised.
    abbrev going_on :
        (ℕ → KafkaPublisher Bytes → Result ℕ × KafkaPublisher Bytes)
        → ℕ
        → Result Bool × KafkaPublisher Bytes
        → Result ℕ × KafkaPublisher Bytes
    going_on rest published (ok b, p) = rest (tally b published) p
    going_on rest published (err e, p) = (err e, p)

    -- `async for raw_event in self._connector.stream()`, with the count of published events.
    unfoldable pub forward_all :
        List Fields → Result (Unit {0}) → ℕ → KafkaPublisher Bytes → Result ℕ × KafkaPublisher Bytes
    forward_all [] ending published p = (finished ending published, p)
    forward_all (raw ∷ rest) ending published p =
        going_on (forward_all rest ending) published (forward raw p)

    module _ {C : Type 0} (source : ExchangeConnector C) where
      abbrev disconnected :
          Option (Session C) → KafkaPublisher Bytes → Option (Result ℕ × KafkaPublisher Bytes × C)
      disconnected none p = none
      disconnected (some s) p =
          let (r, p') = forward_all s.yielded s.ending 0 p in
          some (r, p', source.disconnect s.connector)

      abbrev connected :
          Result (Unit {0}) × C
          → KafkaPublisher Bytes
          → Option (Result ℕ × KafkaPublisher Bytes × C)
      connected (ok u, c) p = disconnected (source.stream c) p
      connected (err e, c) p = some (err e, p, c)

      -- `IngestionPipeline.run`; `none` if the source's stream never ends.
      unfoldable pub run : C → KafkaPublisher Bytes → Option (Result ℕ × KafkaPublisher Bytes × C)
      run c p = connected (source.connect c) p

      abbrev closed :
          Option (Result ℕ × KafkaPublisher Bytes × C)
          → Option (Result ℕ × KafkaPublisher Bytes × C)
      closed none = none
      closed (some (r, p, c)) = some (r, close p, c)

      abbrev started :
          Result (Unit {0}) × KafkaPublisher Bytes
          → C
          → Option (Result ℕ × KafkaPublisher Bytes × C)
      started (ok u, p) c = closed (run c p)
      started (err e, p) c = some (err e, p, c)

      -- `run_producer`, after the connector and the preparer were chosen.
      unfoldable pub run_producer :
          Result (Unit {0})
          → C
          → KafkaPublisher Bytes
          → Option (Result ℕ × KafkaPublisher Bytes × C)
      run_producer client c p = started (start client p) c

-- The connector of coinbase.py, for sessions that read no more connections than the fuel.
abbrev coinbase_session : Option (Result (Unit {0}) × Connector) → Option (Session Connector)
coinbase_session none = none
coinbase_session (some (r, c)) = some (record { yielded = c.yielded; ending = r; connector = c })

unfoldable pub coinbase : Surroundings → ℕ → ExchangeConnector Connector
coinbase world fuel = record {
  connect = Coinbase.connect world;
  stream = λ c. coinbase_session (Coinbase.stream world fuel c);
  disconnect = Coinbase.disconnect;
}

unfoldable pub dev : (ℕ → Bool) → ExchangeConnector DevConnector
dev stops = record {
  connect = λ c. (ok tt, DevSource.connect c);
  stream = λ c.
      (let (r, c') = DevSource.stream stops c in
        some (record { yielded = c'.yielded; ending = r; connector = c' }));
  disconnect = DevSource.disconnect;
}

unfoldable pub coinbase_preparer : Runtime → EventPreparer
coinbase_preparer runtime = record {
  can_prepare = Match.can_prepare;
  prepare = Match.prepare runtime;
}

unfoldable pub dev_preparer : Runtime → EventPreparer
dev_preparer runtime = record { can_prepare = λ v. ok true; prepare = Dev.prepare runtime }
