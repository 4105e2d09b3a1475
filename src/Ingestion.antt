-- ===== src/Ingestion.antt =====
-- messaging/consumer.py and processing/bronze_ingestion.py: from the broker's messages to Bronze.
-- The codec is the library's JSON parser, a parameter: `none` is a SerializationError. The list of
-- messages is what the broker delivers until the consumer is stopped: the stream does not end by
-- itself, and an ingestion whose limit is not reached waits for more. If the stream raises, then the
-- ingestion has done what it does with the messages before. Logging is left out.
pub mod Stored
pub mod Delivery
pub mod Frame
pub mod Progress
use cryptopulse.Prelude.{
  ℕ, suc, ◌+◌, String, Bool, true, false, not, List, [], ◌∷◌, ◌++◌, Option, none, some,
  if◌then◌else◌,
}
use cryptopulse.Prelude.Int.{ℤ, pos, ltb_ℤ, leb_ℤ}
use cryptopulse.Contracts.Events.{InternalEvent}
use cryptopulse.Warehouse.World.{
  Environment, World, Position, ok, err, value_error, consume_error, Action, pure, check, tick,
  ◌>>=◌, ◌>>◌,
}
use cryptopulse.Warehouse.Bronze

-- `ConsumerRecord`; the value is None where it is not bytes.
pub record Message {ℓ} (Bytes : Type ℓ) : Type ℓ where
  pub value : Option Bytes
  pub topic : String
  pub partition : ℕ
  pub offset : ℕ

pub record ConsumedEvent : Type 0 where
  pub event : InternalEvent
  pub topic : String
  pub partition : ℕ
  pub offset : ℕ

-- `ConsumedEvent._offsets`
unfoldable pub offsets : ConsumedEvent → Position
offsets c = record { topic = c.topic; partition = c.partition; next_offset = c.offset + 1 }

module _ {ℓ} {Bytes : Type ℓ} (decode : Bytes → Option InternalEvent) where
  -- `KafkaConsumer._decode_message`
  unfoldable pub decode_message : Message Bytes → Option InternalEvent
  decode_message m = elim m.value [ none ↦ none | some bytes ↦ decode bytes ]

  abbrev pub yielded :
      Message Bytes → Option InternalEvent → List ConsumedEvent → List ConsumedEvent
  yielded m none rest = rest
  yielded m (some event) rest =
      record { event = event; topic = m.topic; partition = m.partition; offset = m.offset } ∷ rest

  -- What `KafkaConsumer.stream_events` yields.
  unfoldable pub stream_events : List (Message Bytes) → List ConsumedEvent
  unfolding decode_message
  stream_events [] = []
  stream_events (m ∷ ms) = yielded m (decode_message m) (stream_events ms)

abbrev committed : Position → World → World
committed p w = record w { commits = w.commits ++ p ∷ [] }

-- The broker's answer to a commit.
unfoldable pub commit : Environment → Position → Action (Unit {0})
commit env p w =
    if env.refuses w.ticks
    then (err (consume_error "failed to commit Kafka offsets"), tick w)
    else (ok tt, committed p (tick w))

module _ (env : Environment) where
  -- `KafkaConsumer.acknowledge`
  unfoldable pub acknowledge : Bool → ConsumedEvent → Action (Unit {0})
  unfolding commit offsets
  acknowledge started c = do
    check (not started) (consume_error "consumer has not been started")
    commit env (offsets c)

  -- The loop of `ingest`, which has persisted `persisted` events so far.
  unfoldable pub ingest_loop : ℤ → List ConsumedEvent → ℕ → Action ℕ
  unfolding acknowledge
  ingest_loop max_events [] persisted = pure persisted
  ingest_loop max_events (c ∷ cs) persisted = do
    Bronze.append env c.event
    acknowledge true c
    if leb_ℤ max_events (pos (persisted + 1))
        then pure (persisted + 1)
        else ingest_loop max_events cs (persisted + 1)

  -- `BronzeIngestionService.ingest`, with a consumer that is started or not.
  unfoldable pub ingest {ℓ} :
      {Bytes : Type ℓ} → (Bytes → Option InternalEvent) → Bool → List (Message Bytes) → ℤ → Action ℕ
  unfolding ingest_loop stream_events
  ingest decode started messages max_events = do
    check (ltb_ℤ max_events (pos 1)) (value_error "max_events must be >= 1")
    check (not started) (consume_error "consumer has not been started")
    ingest_loop max_events (stream_events decode messages) 0
