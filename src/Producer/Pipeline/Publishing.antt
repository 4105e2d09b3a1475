-- ===== src/Producer/Pipeline/Publishing.antt =====
-- What a run publishes: the events of the payloads that can be prepared, in order.
use mathlib.Core.Path.{subst}
use mathlib.Core.List.{append_assoc, append-nil}
use cryptopulse.Prelude.{
  ℕ, zero, suc, ◌+◌, ◌≡◌, refl, sym, ap, ◌∙◌, ◌⊎◌, inl, inr, Bool, true, false, List, [], ◌∷◌, ◌++◌,
  take, length, length-append, Option, none, some, arith, Bool-cases,
}
use cryptopulse.Python.Value.{Fields, object}
use cryptopulse.Contracts.Events.{InternalEvent}
use cryptopulse.Warehouse.World.{Error, Result, ok, err, preparation_error}
use cryptopulse.Producer.Pipeline.{
  EventPreparer, KafkaPublisher, Delivery, acknowledged, rejected, unacknowledged, publish, forward,
  forward_all, answered, sent, prepared, recognised, counted, tally, finished, going_on,
}

module _ {Bytes : Type 0} (encode : InternalEvent → Option Bytes) (broker : ℕ → Delivery)
    (preparer : EventPreparer) where
  -- The message of a payload: none, if the payload is not recognised, or cannot be prepared, or its
  -- event cannot be encoded.
  abbrev pub bytes_of : Option Bytes → List Bytes
  bytes_of none = []
  bytes_of (some b) = b ∷ []

  abbrev pub message_of : Result InternalEvent → List Bytes
  message_of (ok event) = bytes_of (encode event)
  message_of (err e) = []

  abbrev pub message_if : Result Bool → Fields → List Bytes
  message_if (ok true) raw = message_of (preparer.prepare (object raw))
  message_if _ raw = []

  abbrev pub messages : List Fields → List Bytes
  messages [] = []
  messages (raw ∷ rest) = message_if (preparer.can_prepare (object raw)) raw ++ messages rest

  -- What one payload adds to the topic.
  abbrev Adds : List Bytes → KafkaPublisher Bytes → Result Bool → KafkaPublisher Bytes → Type 0
  Adds bs p (ok b) p' = (p'.topic ≡ p.topic ++ bs) × (tally encode broker preparer b 0 ≡ length bs)
  Adds bs p (err e) p' = (k : ℕ) × (p'.topic ≡ p.topic ++ take k bs)

  answered-Adds :
      (d : Delivery) (b : Bytes) (p : KafkaPublisher Bytes)
      → Adds
          (b ∷ [])
          p
          (counted encode broker preparer (answered encode broker d b p)).0
          (counted encode broker preparer (answered encode broker d b p)).1
  answered-Adds acknowledged b p = (refl, refl)
  answered-Adds rejected b p = (0, sym (append-nil p.topic))
  answered-Adds unacknowledged b p = (1, refl)

  sent-Adds :
      (o : Option Bytes) (p : KafkaPublisher Bytes)
      → Adds
          (bytes_of o)
          p
          (counted encode broker preparer (sent encode broker o p)).0
          (counted encode broker preparer (sent encode broker o p)).1
  sent-Adds none p = (0, sym (append-nil p.topic))
  sent-Adds (some b) p = answered-Adds (broker p.sends) b p

  publish-Adds :
      (event : InternalEvent) (p : KafkaPublisher Bytes)
      → Adds
          (bytes_of (encode event))
          p
          (counted encode broker preparer (publish encode broker event p)).0
          (counted encode broker preparer (publish encode broker event p)).1
  unfolding publish
  publish-Adds event p = elim (Bool-cases p.started) [
    | inl on ↦ simp on (sent-Adds (encode event) p)
    | inr off ↦ simp off (0, sym (append-nil p.topic))
  ]

  prepared-Adds :
      (r : Result InternalEvent) (p : KafkaPublisher Bytes)
      → Adds
          (message_of r)
          p
          (prepared encode broker preparer r p).0
          (prepared encode broker preparer r p).1
  prepared-Adds (ok event) p = publish-Adds event p
  prepared-Adds (err (preparation_error s)) p = (sym (append-nil p.topic), refl)
  prepared-Adds (err _) p = (0, sym (append-nil p.topic))

  recognised-Adds :
      (r : Result Bool) (raw : Fields) (p : KafkaPublisher Bytes)
      → Adds
          (message_if r raw)
          p
          (recognised encode broker preparer r raw p).0
          (recognised encode broker preparer r raw p).1
  recognised-Adds (ok true) raw p = prepared-Adds (preparer.prepare (object raw)) p
  recognised-Adds (ok false) raw p = (sym (append-nil p.topic), refl)
  recognised-Adds (err e) raw p = (0, sym (append-nil p.topic))

  abbrev pub message : Fields → List Bytes
  message raw = message_if (preparer.can_prepare (object raw)) raw

  forward-Adds :
      (raw : Fields) (p : KafkaPublisher Bytes)
      → Adds
          (message raw)
          p
          (forward encode broker preparer raw p).0
          (forward encode broker preparer raw p).1
  unfolding forward
  forward-Adds raw p = recognised-Adds (preparer.can_prepare (object raw)) raw p

  forward_all-ok :
      (raw : Fields) (rest : List Fields) (ending : Result (Unit {0})) (n : ℕ)
      (p : KafkaPublisher Bytes) (b : Bool)
      → (forward encode broker preparer raw p).0 ≡ ok b
      → forward_all encode broker preparer (raw ∷ rest) ending n p
        ≡ forward_all encode broker preparer rest ending
            (tally encode broker preparer b n)
            (forward encode broker preparer raw p).1
  unfolding forward_all
  forward_all-ok raw rest ending n p b h =
      ap
        (λ (r : Result Bool).
          going_on encode broker preparer (forward_all encode broker preparer rest ending) n
            (r, (forward encode broker preparer raw p).1))
        h

  forward_all-err :
      (raw : Fields) (rest : List Fields) (ending : Result (Unit {0})) (n : ℕ)
      (p : KafkaPublisher Bytes) (e : Error)
      → (forward encode broker preparer raw p).0 ≡ err e
      → forward_all encode broker preparer (raw ∷ rest) ending n p
        ≡ (err e, (forward encode broker preparer raw p).1)
  unfolding forward_all
  forward_all-err raw rest ending n p e h =
      ap
        (λ (r : Result Bool).
          going_on encode broker preparer (forward_all encode broker preparer rest ending) n
            (r, (forward encode broker preparer raw p).1))
        h

  Result-cases : {A : Type 0} (r : Result A) → ((a : A) × (r ≡ ok a)) ⊎ ((e : Error) × (r ≡ err e))
  Result-cases (ok a) = inl (a, refl)
  Result-cases (err e) = inr (e, refl)

  take-append_left :
      {A : Type 0} (k : ℕ) (xs ys : List A) → (j : ℕ) × (take j (xs ++ ys) ≡ take k xs)
  take-append_left zero xs ys = (0, refl)
  take-append_left (suc k) [] ys = (0, refl)
  take-append_left (suc k) (x ∷ xs) ys =
      let (j, e) = take-append_left k xs ys in (suc j, ap (λ (l : List _). x ∷ l) e)

  take-append_right :
      {A : Type 0} (xs ys : List A) (k : ℕ) → (j : ℕ) × (take j (xs ++ ys) ≡ xs ++ take k ys)
  take-append_right [] ys k = (k, refl)
  take-append_right (x ∷ xs) ys k =
      let (j, e) = take-append_right xs ys k in (suc j, ap (λ (l : List _). x ∷ l) e)

  -- A run of the loop adds a number of the first messages to the topic, in order, and nothing else.
  pub forward_all-take :
      (payloads : List Fields) (ending : Result (Unit {0})) (n : ℕ) (p : KafkaPublisher Bytes)
      → (k : ℕ) × ((forward_all encode broker preparer payloads ending n p).1.topic
          ≡ p.topic ++ take k (messages payloads))
  unfolding forward_all
  forward_all-take [] ending n p = (0, sym (append-nil p.topic))
  forward_all-take (raw ∷ rest) ending n p =
      let q = (forward encode broker preparer raw p).1 in
      elim (Result-cases (forward encode broker preparer raw p).0) [
        | inl (b, h) ↦
            let (added, _) : Adds (message raw) p (ok b) q =
              subst (λ (r : Result Bool). Adds (message raw) p r q) h (forward-Adds raw p) in
            let (k, e) = forward_all-take rest ending (tally encode broker preparer b n) q in
            let (j, e') = take-append_right (message raw) (messages rest) k in
            (
              j,
              rw (forward_all-ok raw rest ending n p b h) (
                  e
                  ∙ (ap (λ (l : List Bytes). l ++ take k (messages rest)) added
                      ∙ (append_assoc p.topic (message raw) (take k (messages rest))
                          ∙ ap (λ (l : List Bytes). p.topic ++ l) (sym e')))),
            )
        | inr (x, h) ↦
            let (k, added) : Adds (message raw) p (err x) q =
              subst (λ (r : Result Bool). Adds (message raw) p r q) h (forward-Adds raw p) in
            let (j, e') = take-append_left k (message raw) (messages rest) in
            (
              j,
              rw (forward_all-err raw rest ending n p x h)
                  (added ∙ ap (λ (l : List Bytes). p.topic ++ l) (sym e')),
            )
      ]

  finished-ok :
      (ending : Result (Unit {0})) (n m : ℕ)
      → finished encode broker preparer ending n ≡ ok m
      → m ≡ n + 0
  finished-ok (ok u) n m h = ground arith
  finished-ok (err e) n m h = absurd (ground arith)

  tally_add :
      (b : Bool) (n : ℕ) → tally encode broker preparer b n ≡ n + tally encode broker preparer b 0
  tally_add true n = omega arith
  tally_add false n = omega arith

  -- If the loop returns a count, then it added all messages, and the count is theirs.
  pub forward_all-messages :
      (payloads : List Fields) (ending : Result (Unit {0})) (n m : ℕ) (p : KafkaPublisher Bytes)
      → (forward_all encode broker preparer payloads ending n p).0 ≡ ok m
      → ((forward_all encode broker preparer payloads ending n p).1.topic
          ≡ p.topic ++ messages payloads)
        × (m ≡ n + length (messages payloads))
  unfolding forward_all
  forward_all-messages [] ending n m p h = (sym (append-nil p.topic), finished-ok ending n m h)
  forward_all-messages (raw ∷ rest) ending n m p h =
      let q = (forward encode broker preparer raw p).1 in
      elim (Result-cases (forward encode broker preparer raw p).0) [
        | inl (b, e) ↦
            let (added, one) : Adds (message raw) p (ok b) q =
              subst (λ (r : Result Bool). Adds (message raw) p r q) e (forward-Adds raw p) in
            let step = forward_all-ok raw rest ending n p b e in
            let (topic, count) =
              forward_all-messages rest ending (tally encode broker preparer b n) m q (cc) in
            (
              rw step (
                  topic
                  ∙ (ap (λ (l : List Bytes). l ++ messages rest) added
                      ∙ append_assoc p.topic (message raw) (messages rest))),
              omega (arith, count, one, tally_add b n, length-append (message raw) (messages rest)),
            )
        | inr (x, e) ↦ absurd (ground (arith, forward_all-err raw rest ending n p x e))
      ]
