-- ===== src/Producer/Coinbase/Steps.antt =====
-- The connector as a transition system: the steps that a streaming session can take, and that it
-- takes no others.
use cryptopulse.Prelude.{
  ℕ, suc, ◌≤◌, ◌≡◌, refl, ◌⊎◌, inl, inr, String, true, false, List, [], ◌∷◌, ◌++◌, none, some,
  arith, Bool-cases,
}
use cryptopulse.Python.Value.{Fields}
use cryptopulse.Warehouse.World.{Error}
use cryptopulse.Producer.Settings.{get, is_match_type}
use cryptopulse.Producer.Coinbase.{
  Connector, Surroundings, is_connected, reconnecting, connected, Attempt, refused, unsubscribed,
  accepted, stopped, raised, Action, skip, emit, fail, suspend, close, disconnect, open_connection,
  reconnect, delay, act, yield_payload, read, entered, now_connected, attempted, slept_for, emitted,
}
use cryptopulse.Producer.Coinbase.Order.{HasJustSlept, close-HasJustSlept}

-- A payload of a trade message.
abbrev pub IsMatch : Fields → Type 0
IsMatch payload = is_match_type (get "type" payload) ≡ true

module _ (world : Surroundings) where
  pub data Step (c : Connector) : Connector → Type 0 where
    awaits : Step c (suspend world c)
    yields :
        (payload : Fields)
        → c.stop_requested ≡ false
        → IsMatch payload
        → Step c (record c { yielded = c.yielded ++ payload ∷ []; log = emitted payload ∷ c.log })
    sleeps :
        (k : ℕ)
        → c.stop_requested ≡ false
        → 1 ≤ k
        → k ≤ world.settings.max_reconnect_attempts
        → Step c (record c {
          slept = c.slept ++ delay world k ∷ [];
          log = slept_for (delay world k) ∷ c.log;
        })
    reconnects : c.stop_requested ≡ false → Step c (record c { state = reconnecting })
    drops : is_connected c.state ≡ false → Step c (record c { context = false; ws = none })
    attempts :
        HasJustSlept c.log
        → Step c (record c { context = true; attempts = suc c.attempts; log = attempted ∷ c.log })
    holds : (frames : List String) → Step c (record c { ws = some frames })
    connects :
        (c.stop_requested ≡ true) ⊎ ((frames : List String) × (c.ws ≡ some frames))
        → Step c (record c { state = connected })

  infixr 20 ◌▸◌
  pub data Steps : Connector → Connector → Type 0 where
    stay : {c : Connector} → Steps c c
    ◌▸◌ : {c d e : Connector} → Step c d → Steps d e → Steps c e

  pub Steps-trans : {c d e : Connector} → Steps c d → Steps d e → Steps c e
  Steps-trans stay t = t
  Steps-trans (s ▸ r) t = s ▸ Steps-trans r t

  pub act-IsMatch :
      (message : String) {payload : Fields} → act world message ≡ emit payload → IsMatch payload
  unfolding act
  act-IsMatch message h = ground arith

  module _ (message : String) (rest : List String) (failures : ℕ) (c : Connector) where
    pub read-stopped :
        (suspend world c).stop_requested ≡ true
        → read world (message ∷ rest) failures c ≡ (stopped, 0, suspend world c)
    unfolding read
    read-stopped stop = simp stop

    module _ (go : (suspend world c).stop_requested ≡ false) where
      pub read_skip :
          act world message ≡ skip
          → read world (message ∷ rest) failures c ≡ read world rest 0 (suspend world c)
      unfolding read
      read_skip h = simp (go, h)

      pub read_emit :
          (payload : Fields)
          → act world message ≡ emit payload
          → read world (message ∷ rest) failures c
            ≡ read world rest 0 (yield_payload world payload (suspend world c))
      unfolding read
      read_emit payload h = simp (go, h)

      pub read_fail :
          (e : Error)
          → act world message ≡ fail e
          → read world (message ∷ rest) failures c ≡ (raised e, 0, suspend world c)
      unfolding read
      read_fail e h = simp (go, h)

  pub Action-cases :
      (a : Action)
      → (a ≡ skip) ⊎ (((payload : Fields) × (a ≡ emit payload)) ⊎ ((e : Error) × (a ≡ fail e)))
  Action-cases skip = inl refl
  Action-cases (emit payload) = inr (inl (payload, refl))
  Action-cases (fail e) = inr (inr (e, refl))

  -- What reading a connection's frames does is a number of steps.
  pub read-Steps :
      (frames : List String) (failures : ℕ) (c : Connector)
      → Steps c (read world frames failures c).2
  unfolding read yield_payload
  read-Steps [] failures c = awaits ▸ stay
  read-Steps (message ∷ rest) failures c = elim (Bool-cases (suspend world c).stop_requested) [
    | inl stop ↦ rw (read-stopped message rest failures c stop) (awaits ▸ stay)
    | inr go ↦ elim (Action-cases (act world message)) [
      | inl h ↦ rw (read_skip message rest failures c go h) (awaits ▸ read-Steps rest 0 _)
      | inr (inl (payload, h)) ↦
          rw (read_emit message rest failures c go payload h)
            (awaits ▸ yields payload go (act-IsMatch message h) ▸ awaits ▸ read-Steps rest 0 _)
      | inr (inr (e, h)) ↦ rw (read_fail message rest failures c go e h) (awaits ▸ stay)
    ]
  ]

  pub close-Steps : (c : Connector) → is_connected c.state ≡ false → Steps c (close world c)
  unfolding close
  close-Steps c h = elim (Bool-cases c.context) [
    | inl held ↦ rw held (drops h ▸ awaits ▸ stay)
    | inr free ↦ rw free (drops h ▸ stay)
  ]

  -- After a connection was made, it is held, or the connector was stopped.
  suspend_held :
      (c : Connector) (frames : List String)
      → c.ws ≡ some frames
      → ((suspend world c).stop_requested ≡ true)
        ⊎ ((fs : List String) × ((suspend world c).ws ≡ some fs))
  unfolding suspend disconnect
  suspend_held c frames h = elim (Bool-cases (world.stops c.suspensions)) [
    | inl stop ↦ inl (rw stop refl)
    | inr go ↦ inr (frames, rw go h)
  ]

  entered_connects :
      (a : Attempt) (c : Connector) → Steps c (now_connected world (entered world a c)).1
  entered_connects refused c = stay
  entered_connects (unsubscribed frames) c = holds frames ▸ awaits ▸ stay
  entered_connects (accepted frames) c =
      holds frames
      ▸ awaits
      ▸ connects (suspend_held (record c { ws = some frames }) frames refl)
      ▸ stay

  pub opens-Steps :
      (c : Connector)
      → HasJustSlept c.log
      → Steps c (now_connected world (open_connection world c)).1
  unfolding open_connection
  opens-Steps c slept = attempts slept ▸ awaits ▸ entered_connects _ _

  pub reconnect-Steps :
      (c : Connector)
      → c.stop_requested ≡ false
      → HasJustSlept c.log
      → Steps c (reconnect world c).1
  unfolding reconnect is_connected
  reconnect-Steps c go slept =
      reconnects go
      ▸ Steps-trans (close-Steps (record c { state = reconnecting }) refl)
          (opens-Steps _ (close-HasJustSlept world (record c { state = reconnecting }) slept))
