-- ===== src/Producer/Pipeline/Runs.antt =====
-- What a run of the producer leaves with the broker, and what a consumer then reads.
use mathlib.Core.List.{append_assoc}
use cryptopulse.Prelude.{
  ℕ, ◌+◌, ◌≡◌, refl, sym, ap, ◌∙◌, inl, inr, Bool, true, false, List, [], ◌∷◌, ◌++◌, take, length,
  All, length-append, map, Option, none, some, arith, Option-cases,
}
use cryptopulse.Python.Value.{Fields, object}
use cryptopulse.Contracts.Events.{InternalEvent}
use cryptopulse.Ingestion.{Message, ConsumedEvent, decode_message, yielded, stream_events}
use cryptopulse.Warehouse.World.{Result, ok, err}
use cryptopulse.Producer.Pipeline.{
  EventPreparer, ExchangeConnector, Session, KafkaPublisher, Delivery, forward_all, run,
}
use cryptopulse.Producer.Pipeline.Publishing.{
  messages, message_of, message_if, forward_all-take, forward_all-messages,
}

-- The events of the payloads that are recognised, can be prepared and can be encoded, in order.
module _ {Bytes : Type 0} (encode : InternalEvent → Option Bytes) (preparer : EventPreparer) where
  abbrev event_if : InternalEvent → Option Bytes → List InternalEvent
  event_if event none = []
  event_if event (some b) = event ∷ []

  abbrev event_of : Result InternalEvent → List InternalEvent
  event_of (ok event) = event_if event (encode event)
  event_of (err e) = []

  abbrev event_recognised : Result Bool → Fields → List InternalEvent
  event_recognised (ok true) raw = event_of (preparer.prepare (object raw))
  event_recognised _ raw = []

  abbrev pub events : List Fields → List InternalEvent
  events [] = []
  events (raw ∷ rest) = event_recognised (preparer.can_prepare (object raw)) raw ++ events rest

-- The consumer's codec gives back the event that was prepared from the payload, if the producer's
-- encoded it.
abbrev pub GivesBack :
    {Bytes : Type 0}
    → EventPreparer
    → (InternalEvent → Option Bytes)
    → (Bytes → Option InternalEvent)
    → Fields
    → Type 0
GivesBack {Bytes} preparer encode decode raw =
    (e : InternalEvent) (b : Bytes)
    → preparer.prepare (object raw) ≡ ok e
    → encode e ≡ some b
    → decode b ≡ some e

module _ {Bytes : Type 0} (encode : InternalEvent → Option Bytes) (broker : ℕ → Delivery)
    (preparer : EventPreparer) where
  length-message_of :
      (r : Result InternalEvent)
      → length (message_of encode broker preparer r) ≡ length (event_of encode preparer r)
  length-message_of (ok event) = elim (Option-cases (encode event)) [
    | inl wrong ↦ rw wrong refl
    | inr (b, h) ↦ rw h refl
  ]
  length-message_of (err e) = refl

  length-message_if :
      (r : Result Bool) (raw : Fields)
      → length (message_if encode broker preparer r raw)
        ≡ length (event_recognised encode preparer r raw)
  length-message_if (ok true) raw = length-message_of (preparer.prepare (object raw))
  length-message_if (ok false) raw = refl
  length-message_if (err e) raw = refl

  length-messages :
      (payloads : List Fields)
      → length (messages encode broker preparer payloads) ≡ length (events encode preparer payloads)
  length-messages [] = refl
  length-messages (raw ∷ rest) =
      let known = preparer.can_prepare (object raw) in
      omega (
        arith,
        length-message_if known raw,
        length-messages rest,
        length-append (message_if encode broker preparer known raw)
            (messages encode broker preparer rest),
        length-append (event_recognised encode preparer known raw) (events encode preparer rest),
      )

module _ {Bytes : Type 0} (encode : InternalEvent → Option Bytes)
    (decode : Bytes → Option InternalEvent) (broker : ℕ → Delivery) (preparer : EventPreparer) where
  abbrev at_most_one : Option InternalEvent → List InternalEvent
  at_most_one none = []
  at_most_one (some e) = e ∷ []

  abbrev decoded : List Bytes → List InternalEvent
  decoded [] = []
  decoded (b ∷ bs) = at_most_one (decode b) ++ decoded bs

  decoded-append : (xs ys : List Bytes) → decoded (xs ++ ys) ≡ decoded xs ++ decoded ys
  decoded-append [] ys = refl
  decoded-append (x ∷ xs) ys =
      ap (λ (l : List InternalEvent). at_most_one (decode x) ++ l) (decoded-append xs ys)
      ∙ sym (append_assoc (at_most_one (decode x)) (decoded xs) (decoded ys))

  message_of-events :
      (r : Result InternalEvent)
      → ((e : InternalEvent) (b : Bytes) → r ≡ ok e → encode e ≡ some b → decode b ≡ some e)
      → decoded (message_of encode broker preparer r) ≡ event_of encode preparer r
  message_of-events (ok event) codec = elim (Option-cases (encode event)) [
    | inl wrong ↦ rw wrong refl
    | inr (b, h) ↦ rw h (rw (codec event b refl h) refl)
  ]
  message_of-events (err e) codec = refl

  message_if-events :
      (r : Result Bool) (raw : Fields)
      → GivesBack preparer encode decode raw
      → decoded (message_if encode broker preparer r raw) ≡ event_recognised encode preparer r raw
  message_if-events (ok true) raw codec = message_of-events (preparer.prepare (object raw)) codec
  message_if-events (ok false) raw codec = refl
  message_if-events (err e) raw codec = refl

  messages-events :
      (payloads : List Fields)
      → All (GivesBack preparer encode decode) payloads
      → decoded (messages encode broker preparer payloads) ≡ events encode preparer payloads
  messages-events [] codec = refl
  messages-events (raw ∷ rest) codec =
      decoded-append (message_if encode broker preparer (preparer.can_prepare (object raw)) raw)
        (messages encode broker preparer rest)
      ∙ (ap (λ (l : List InternalEvent). l ++ decoded (messages encode broker preparer rest))
            (message_if-events (preparer.can_prepare (object raw)) raw codec.0)
          ∙ ap
              (λ (l : List InternalEvent).
                event_recognised encode preparer (preparer.can_prepare (object raw)) raw ++ l)
              (messages-events rest codec.1))

  -- What a consumer yields from messages that carry these bytes.
  yielded-at_most_one :
      (m : Message Bytes) (o : Option InternalEvent) (rest : List ConsumedEvent)
      → map (λ (x : ConsumedEvent). x.event) (yielded decode m o rest)
        ≡ at_most_one o ++ map (λ (x : ConsumedEvent). x.event) rest
  yielded-at_most_one m none rest = refl
  yielded-at_most_one m (some e) rest = refl

  decode_message-decode :
      (m : Message Bytes) (b : Bytes) → m.value ≡ some b → decode_message decode m ≡ decode b
  unfolding decode_message
  decode_message-decode m b h = rw h refl

  stream_events-decoded :
      (bs : List Bytes) (ms : List (Message Bytes))
      → map (λ (m : Message Bytes). m.value) ms ≡ map some bs
      → map (λ (x : ConsumedEvent). x.event) (stream_events decode ms) ≡ decoded bs
  unfolding stream_events
  stream_events-decoded [] [] h = refl
  stream_events-decoded [] (m ∷ ms) h = absurd (cc)
  stream_events-decoded (b ∷ bs) [] h = absurd (cc)
  stream_events-decoded (b ∷ bs) (m ∷ ms) h =
      let value : m.value ≡ some b = cc in
      let rest : map (λ (x : Message Bytes). x.value) ms ≡ map some bs = cc in
      yielded-at_most_one m (decode_message decode m) (stream_events decode ms)
      ∙ (ap
            (λ (o : Option InternalEvent).
              at_most_one o ++ map (λ (x : ConsumedEvent). x.event) (stream_events decode ms))
            (decode_message-decode m b value)
          ∙ ap (λ (l : List InternalEvent). at_most_one (decode b) ++ l)
              (stream_events-decoded bs ms rest))

module _ {Bytes C : Type 0} (encode : InternalEvent → Option Bytes) (broker : ℕ → Delivery)
    (preparer : EventPreparer) (source : ExchangeConnector C) (c c1 : C) (session : Session C)
    (p : KafkaPublisher Bytes) where
  run-forward_all :
      source.connect c ≡ (ok tt, c1)
      → source.stream c1 ≡ some session
      → run encode broker preparer source c p
        ≡ some (
          (forward_all encode broker preparer session.yielded session.ending 0 p).0,
          (forward_all encode broker preparer session.yielded session.ending 0 p).1,
          source.disconnect session.connector,
        )
  unfolding run
  run-forward_all made streamed = rw made (rw streamed refl)

  -- If the source connects and its stream ends, then the run ends, whatever the broker and the
  -- payloads do: the source is disconnected, and the topic has a number of the first messages of
  -- the payloads that can be published more, in order, and nothing else.
  pub run-take :
      source.connect c ≡ (ok tt, c1)
      → source.stream c1 ≡ some session
      → (r : Result ℕ) × (p' : KafkaPublisher Bytes) × (k : ℕ) × (run encode broker preparer source
            c p
          ≡ some (r, p', source.disconnect session.connector))
        × (p'.topic ≡ p.topic ++ take k (messages encode broker preparer session.yielded))
  run-take made streamed =
      let out = forward_all encode broker preparer session.yielded session.ending 0 p in
      let (k, topic) = forward_all-take encode broker preparer session.yielded session.ending 0 p in
      (out.0, out.1, k, run-forward_all made streamed, topic)

  some-injective : {A : Type 0} {a b : A} → some a ≡ some b → a ≡ b
  some-injective h = cc

  same_count : (m a b : ℕ) → m ≡ 0 + a → a ≡ b → m ≡ b
  same_count m a b p q = omega arith

  -- From end to end: if a run to an empty topic returns a count, and a consumer is given the
  -- topic's bytes, in order, then the consumer yields the events of exactly those payloads that
  -- could be prepared and encoded, in order, and they are as many as the count; provided that the
  -- codec gives back those events that were prepared from these payloads.
  pub run-stream_events :
      (decode : Bytes → Option InternalEvent) (ms : List (Message Bytes)) (m : ℕ)
      (p' : KafkaPublisher Bytes) (c' : C)
      → All (GivesBack preparer encode decode) session.yielded
      → source.connect c ≡ (ok tt, c1)
      → source.stream c1 ≡ some session
      → p.topic ≡ []
      → run encode broker preparer source c p ≡ some (ok m, p', c')
      → map (λ (x : Message Bytes). x.value) ms ≡ map some p'.topic
      → (map (λ (x : ConsumedEvent). x.event) (stream_events decode ms)
          ≡ events encode preparer session.yielded)
        × (m ≡ length (events encode preparer session.yielded))
  run-stream_events decode ms m p' c' codec made streamed empty ran carried =
      let out = forward_all encode broker preparer session.yielded session.ending 0 p in
      let same : (out.0, out.1, source.disconnect session.connector) ≡ (ok m, p', c') =
        some-injective (sym (run-forward_all made streamed) ∙ ran) in
      let (topic, count) =
        forward_all-messages encode broker preparer session.yielded session.ending 0 m p
          (ap (λ (x : Result ℕ × KafkaPublisher Bytes × C). x.0) same) in
      let all : p'.topic ≡ messages encode broker preparer session.yielded =
        ap (λ (x : Result ℕ × KafkaPublisher Bytes × C). x.1.topic) (sym same)
        ∙ (topic
            ∙ ap (λ (l : List Bytes). l ++ messages encode broker preparer session.yielded)
                empty) in
      (
        stream_events-decoded encode decode broker preparer
              (messages encode broker preparer session.yielded) ms
              (carried ∙ ap (λ (l : List Bytes). map some l) all)
            ∙ messages-events encode decode broker preparer session.yielded codec,
        same_count m (length (messages encode broker preparer session.yielded)) _ count
            (length-messages encode broker preparer session.yielded),
      )
