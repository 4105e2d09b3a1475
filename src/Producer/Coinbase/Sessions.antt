-- ===== src/Producer/Coinbase/Sessions.antt =====
-- What holds of every session of the connector's stream, however the network and the other tasks
-- behave.
use Prim.Native.Nat.{min}
use mathlib.Core.Path.{subst}
use cryptopulse.Prelude.{
  ℕ, zero, suc, ◌-◌, ◌*◌, ◌^◌, ◌≤◌, ◌≡◌, refl, sym, ap, ◌∙◌, ◌⊎◌, inl, inr, String, Bool, true,
  false, not, ◌||◌, List, Option, none, some, arith, Bool-cases, Option-cases, All, All-append,
}
use cryptopulse.Warehouse.World.{Result, ok, err}
use cryptopulse.Producer.Coinbase.Order.{IsUnstopped, IsOrderly}
use cryptopulse.Producer.Coinbase.{
  Happening, slept_for, Connector, new, connect, connecting, Surroundings, is_connected, disconnect,
  suspend, delay, stream_loop, stream, iterate, now_connected,
}
use cryptopulse.Producer.Coinbase.Steps.{
  Steps, Step, IsMatch, stay, ◌▸◌, awaits, yields, sleeps, reconnects, drops, attempts, holds,
  connects, Steps-trans, opens-Steps,
}
use cryptopulse.Producer.Coinbase.Rounds.{round}
use cryptopulse.Producer.Coinbase.Fatal.{RaisesFatal}

module _ (world : Surroundings) where
  abbrev pub over : Connector → Bool
  over c = c.stop_requested || not (is_connected c.state)

  pub stream_loop-over :
      (fuel failures : ℕ) (c : Connector)
      → over c ≡ true
      → stream_loop world (suc fuel) failures c ≡ some (ok tt, c)
  unfolding stream_loop
  stream_loop-over fuel failures c h = rw h refl

  pub stream_loop_on :
      (fuel failures : ℕ) (c : Connector) (ws : Option (List String))
      → over c ≡ false
      → c.ws ≡ ws
      → stream_loop world (suc fuel) failures c
        ≡ iterate world (stream_loop world fuel) ws failures c
  unfolding stream_loop
  stream_loop_on fuel failures c ws h e =
      rw h
        (ap (λ (o : Option (List String)). iterate world (stream_loop world fuel) o failures c) e)

  some-injective : {A : Type 0} {a b : A} → some a ≡ some b → a ≡ b
  some-injective h = cc

  pub not_over :
      (c : Connector) → over c ≡ false → (is_connected c.state ≡ true) × (c.stop_requested ≡ false)
  not_over c h = ground arith

  -- A session takes only the steps of the transition system.
  stream_loop-Steps :
      (fuel failures : ℕ) (c : Connector) (r : Result (Unit {0}) × Connector)
      → stream_loop world fuel failures c ≡ some r
      → Steps world c r.1
  unfolding stream_loop
  stream_loop-Steps zero failures c r h = absurd (ground arith)
  stream_loop-Steps (suc fuel) failures c r h = elim (Bool-cases (over c)) [
    | inl done ↦
        subst (λ (x : Result (Unit {0}) × Connector). Steps world c x.1)
          (some-injective (sym (stream_loop-over fuel failures c done) ∙ h)) stay
    | inr go ↦ elim (Option-cases c.ws) [
      | inl closed ↦
          subst (λ (x : Result (Unit {0}) × Connector). Steps world c x.1)
            (some-injective (sym (stream_loop_on fuel failures c none go closed) ∙ h)) stay
      | inr (frames, e) ↦
          let run : iterate world (stream_loop world fuel) (some frames) failures c ≡ some r =
            sym (stream_loop_on fuel failures c (some frames) go e) ∙ h in
          elim (round world frames failures c) [
            | inl (x, is, s, _) ↦
                subst (λ (x : Result (Unit {0}) × Connector). Steps world c x.1)
                  (some-injective (sym (is (stream_loop world fuel)) ∙ run)) s
            | inr (k, d, is, s, _, _, _, _, _) ↦
                Steps-trans world s
                  (stream_loop-Steps fuel k d r (sym (is (stream_loop world fuel)) ∙ run))
          ]
    ]
  ]

  -- Every payload is a trade, and every delay lies between the first one and the cap.
  abbrev pub InBounds : ℕ → Type 0
  InBounds d =
      (min world.settings.reconnect_delay world.settings.max_reconnect_delay ≤ d)
      × (d ≤ world.settings.max_reconnect_delay)

  abbrev pub IsPatient : Happening → Type 0
  IsPatient (slept_for d) = InBounds d
  IsPatient _ = Unit

  pub record IsSound (c : Connector) : Type 0 where
    pub trades : All IsMatch c.yielded
    pub delays : All InBounds c.slept
    pub waits : All IsPatient c.log
    pub order : IsOrderly c.log
    pub unstopped : c.stop_requested ≡ false → IsUnstopped c.log

  -- A connector in the state connected has a connection, or was asked to stop.
  abbrev pub IsReady : Connector → Type 0
  IsReady c =
      is_connected c.state ≡ true
      → (c.stop_requested ≡ true) ⊎ ((frames : List String) × (c.ws ≡ some frames))

  one-le-two_pow : (n : ℕ) → 1 ≤ 2 ^ n
  one-le-two_pow zero = omega arith
  one-le-two_pow (suc n) = omega (arith, one-le-two_pow n)

  le-double : (b p : ℕ) → 1 ≤ p → b ≤ b * p
  le-double b p h = grind arith

  delay-InBounds : (k : ℕ) → InBounds (delay world k)
  unfolding delay
  delay-InBounds k =
      omega (arith, le-double world.settings.reconnect_delay (2 ^ (k - 1)) (one-le-two_pow (k - 1)))

  suspend-IsSound : {c : Connector} → IsSound c → IsSound (suspend world c)
  unfolding suspend disconnect
  suspend-IsSound {c} h = elim (Bool-cases (world.stops c.suspensions)) [
    | inl stop ↦ rw stop (record {
      trades = h.trades;
      delays = h.delays;
      waits = (tt, h.waits);
      order = h.order;
      unstopped = λ go. absurd (ground arith);
    })
    | inr go ↦ rw go (record {
      trades = h.trades;
      delays = h.delays;
      waits = h.waits;
      order = h.order;
      unstopped = h.unstopped;
    })
  ]

  Step-IsSound : {c d : Connector} → Step world c d → IsSound c → IsSound d
  Step-IsSound awaits h = suspend-IsSound h
  Step-IsSound (yields payload go is) h = record {
    trades = All-append IsMatch _ _ h.trades (is, tt);
    delays = h.delays;
    waits = (tt, h.waits);
    order = (h.unstopped go, h.order);
    unstopped = h.unstopped;
  }
  Step-IsSound (sleeps k go low high) h = record {
    trades = h.trades;
    delays = All-append InBounds _ _ h.delays (delay-InBounds k, tt);
    waits = (delay-InBounds k, h.waits);
    order = (h.unstopped go, h.order);
    unstopped = h.unstopped;
  }
  Step-IsSound (reconnects go) h = record {
    trades = h.trades;
    delays = h.delays;
    waits = h.waits;
    order = h.order;
    unstopped = h.unstopped;
  }
  Step-IsSound (drops is) h = record {
    trades = h.trades;
    delays = h.delays;
    waits = h.waits;
    order = h.order;
    unstopped = h.unstopped;
  }
  Step-IsSound (attempts slept) h = record {
    trades = h.trades;
    delays = h.delays;
    waits = (tt, h.waits);
    order = (slept, h.order);
    unstopped = h.unstopped;
  }
  Step-IsSound (holds frames) h = record {
    trades = h.trades;
    delays = h.delays;
    waits = h.waits;
    order = h.order;
    unstopped = h.unstopped;
  }
  Step-IsSound (connects held) h = record {
    trades = h.trades;
    delays = h.delays;
    waits = h.waits;
    order = h.order;
    unstopped = h.unstopped;
  }

  pub Steps-IsSound : {c d : Connector} → Steps world c d → IsSound c → IsSound d
  Steps-IsSound stay h = h
  Steps-IsSound (s ▸ r) h = Steps-IsSound r (Step-IsSound s h)

  suspend-IsReady : (c : Connector) → IsReady c → IsReady (suspend world c)
  unfolding suspend disconnect
  suspend-IsReady c h = elim (Bool-cases (world.stops c.suspensions)) [
    | inl stop ↦ rw stop (λ on. inl refl)
    | inr go ↦ rw go h
  ]

  Step-IsReady : {c d : Connector} → Step world c d → IsReady c → IsReady d
  unfolding is_connected
  Step-IsReady {c} awaits h = suspend-IsReady c h
  Step-IsReady (yields payload go is) h = h
  Step-IsReady (sleeps k go low high) h = h
  Step-IsReady (reconnects go) h = λ on. absurd (ground arith)
  Step-IsReady (drops is) h = λ on. absurd (cc)
  Step-IsReady (attempts slept) h = h
  Step-IsReady (holds frames) h = λ on. inr (frames, refl)
  Step-IsReady (connects held) h = λ on. held

  pub Steps-IsReady : {c d : Connector} → Steps world c d → IsReady c → IsReady d
  Steps-IsReady stay h = h
  Steps-IsReady (s ▸ r) h = Steps-IsReady r (Step-IsReady s h)

  stream_loop-RaisesFatal :
      (fuel failures : ℕ) (c : Connector) (r : Result (Unit {0}) × Connector)
      → IsReady c
      → stream_loop world fuel failures c ≡ some r
      → RaisesFatal r.0
  unfolding stream_loop
  stream_loop-RaisesFatal zero failures c r ready h = absurd (ground arith)
  stream_loop-RaisesFatal (suc fuel) failures c r ready h = elim (Bool-cases (over c)) [
    | inl done ↦
        subst (λ (x : Result (Unit {0}) × Connector). RaisesFatal x.0)
          (some-injective (sym (stream_loop-over fuel failures c done) ∙ h)) tt
    | inr go ↦
        let (on, unstopped) = not_over c go in
        elim (ready on) [
          | inl stop ↦ absurd (cc)
          | inr (frames, e) ↦
              let run : iterate world (stream_loop world fuel) (some frames) failures c ≡ some r =
                sym (stream_loop_on fuel failures c (some frames) go e) ∙ h in
              elim (round world frames failures c) [
                | inl (x, is, s, fatal) ↦
                    subst (λ (x : Result (Unit {0}) × Connector). RaisesFatal x.0)
                      (some-injective (sym (is (stream_loop world fuel)) ∙ run)) fatal
                | inr (k, d, is, s, _, _, _, _, _) ↦
                    stream_loop-RaisesFatal fuel k d r (Steps-IsReady s ready)
                      (sym (is (stream_loop world fuel)) ∙ run)
              ]
        ]
  ]

  abbrev pub starting : Connector
  starting = record new { state = connecting }

  -- A connector that connected is sound and ready.
  connect-new : (c : Connector) → connect world new ≡ (ok tt, c) → IsSound c × IsReady c
  unfolding connect new is_connected
  connect-new c h =
      let s = opens-Steps world starting tt in
      subst (λ (x : Result (Unit {0}) × Connector). IsSound x.1 × IsReady x.1) h
        (
          Steps-IsSound s
              (record { trades = tt; delays = tt; waits = tt; order = tt; unstopped = λ go. tt }),
          Steps-IsReady s (λ on. absurd (ground arith)),
        )

  now_connected-connected :
      (x : Result (Unit {0}) × Connector) (c : Connector)
      → now_connected world x ≡ (ok tt, c)
      → is_connected c.state ≡ true
  unfolding is_connected
  now_connected-connected (ok u, d) c h = ground arith
  now_connected-connected (err e, d) c h = absurd (ground arith)

  pub connect-connected :
      (c : Connector) → connect world new ≡ (ok tt, c) → is_connected c.state ≡ true
  unfolding connect new is_connected
  connect-connected c h = now_connected-connected _ c h

  -- After a connect that returned, a stream that ends has yielded trade messages only; it has slept
  -- before each attempt to connect but the first, for this attempt alone, and each time between the
  -- first delay, or the cap if that is less, and the cap; it has begun no sleep and yielded nothing
  -- after a request to stop; and if it raises, then the error that the exchange reported, the TypeError of a message whose type
  -- cannot be hashed, or the failure to open a new connection, never the RuntimeError of a
  -- connector that is not connected.
  pub stream-IsSound :
      (fuel : ℕ) (c : Connector) (r : Result (Unit {0}) × Connector)
      → connect world new ≡ (ok tt, c)
      → stream world fuel c ≡ some r
      → IsSound r.1 × RaisesFatal r.0
  unfolding stream
  stream-IsSound fuel c r made h =
      let (sound, ready) = connect-new c made in
      let run : stream_loop world fuel 0 c ≡ some r = rw (connect-connected c made) at h in
      (
        Steps-IsSound (stream_loop-Steps fuel 0 c r run) sound,
        stream_loop-RaisesFatal fuel 0 c r ready run,
      )

  connect-Steps : (c : Connector) → connect world new ≡ (ok tt, c) → Steps world starting c
  unfolding connect new is_connected
  connect-Steps c h =
      subst (λ (x : Result (Unit {0}) × Connector). Steps world starting x.1) h
        (opens-Steps world starting tt)

  -- The code refines the transition system: whatever the network and the other tasks do, a session
  -- from the connect to the end of the stream changes the connector by its steps alone. In
  -- particular, by the log of what happened, it yields nothing and begins no sleep after a request to
  -- stop, and every attempt to connect but the first comes after a sleep of its own.
  pub stream-Steps :
      (fuel : ℕ) (c : Connector) (r : Result (Unit {0}) × Connector)
      → connect world new ≡ (ok tt, c)
      → stream world fuel c ≡ some r
      → Steps world starting r.1 × IsOrderly r.1.log
  unfolding stream new
  stream-Steps fuel c r made h =
      let run : stream_loop world fuel 0 c ≡ some r = rw (connect-connected c made) at h in
      let steps = Steps-trans world (connect-Steps c made) (stream_loop-Steps fuel 0 c r run) in
      let first : IsSound starting = record {
        trades = tt;
        delays = tt;
        waits = tt;
        order = tt;
        unstopped = λ go. tt;
      } in
      (steps, (Steps-IsSound steps first).order)
