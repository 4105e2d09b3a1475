-- ===== src/Producer/Coinbase/Ending.antt =====
-- When a session ends: a network that falls silent, and a stop, end it after a bounded number of
-- connections.
use mathlib.Core.Path.{subst}
use native.Mathlib.Decide.{dec_lt}
use cryptopulse.Prelude.{
  ℕ, zero, suc, ◌+◌, ◌≤◌, ◌<◌, ◌≡◌, refl, ap, ◌∙◌, ◌⊎◌, inl, inr, String, Bool, true, false, List,
  [], none, some, arith, Bool-cases, Option-cases,
}
use cryptopulse.Warehouse.World.{Result, ok, err}
use cryptopulse.Producer.Coinbase.{
  Connector, new, connect, Surroundings, is_connected, disconnect, suspend, stream_loop, stream,
  not_connected, Attempt, refused, unsubscribed, accepted, entered, now_connected, open_connection,
}
use cryptopulse.Producer.Coinbase.Steps.{
  Steps, Step, stay, ◌▸◌, awaits, yields, sleeps, reconnects, drops, attempts, holds, connects,
  opens-Steps,
}
use cryptopulse.Producer.Coinbase.Rounds.{round}
use cryptopulse.Producer.Coinbase.Counts.{Holds, frames_of, suspend_counts}
use cryptopulse.Producer.Coinbase.Sessions.{
  over, not_over, stream_loop-over, stream_loop_on, connect-connected, starting,
}

suspended :
    (p n : ℕ) (stops : ℕ → Bool) (b : Bool)
    → stops p ≡ true
    → stops n ≡ false
    → (b ≡ true) ⊎ (n ≤ p)
    → (b ≡ true) ⊎ (suc n ≤ p)
suspended p n stops b will go (inl stop) = inl stop
suspended p n stops b will go (inr before) = elim (dec_lt n p) [
  | yes more ↦ inr more
  | no last ↦ absurd (let same : n ≡ p = omega arith in cc (ap stops same))
]

still_before :
    (p : ℕ) (c : Connector)
    → c.stop_requested ≡ false
    → (c.stop_requested ≡ true) ⊎ (c.suspensions ≤ p)
    → c.suspensions ≤ p
still_before p c go (inl stop) = absurd (cc)
still_before p c go (inr before) = before

module _ (world : Surroundings) where
  -- The loop returned.
  abbrev pub Returns : ℕ → ℕ → Connector → Type 0
  Returns fuel failures c =
      (r : Result (Unit {0}) × Connector) × (stream_loop world fuel failures c ≡ some r)

  -- A round, read as a call of the loop: it returns, or the loop goes on from the next connection,
  -- where what the round says of it holds.
  module _ (fuel failures : ℕ) (c : Connector) where
    Returns-over : over world c ≡ true → Returns (suc fuel) failures c
    Returns-over h = ((ok tt, c), stream_loop-over world fuel failures c h)

    Returns-round :
        ((frames : List String)
          → c.ws ≡ some frames
          → (n : ℕ) (d : Connector) → (frames ≡ [] → n ≡ suc failures)
          → n ≤ world.settings.max_reconnect_attempts
          → Steps world c d
          → d.attempts ≡ suc c.attempts
          → c.suspensions < d.suspensions
          → Holds (frames_of (world.network c.attempts)) d
          → Returns fuel n d)
        → over world c ≡ false
        → Returns (suc fuel) failures c
    Returns-round next go = elim (Option-cases c.ws) [
      | inl closed ↦
          ((err (not_connected world), c), stream_loop_on world fuel failures c none go closed)
      | inr (frames, e) ↦ elim (round world frames failures c) [
        | inl (r, is, _, _) ↦ (
          r,
          stream_loop_on world fuel failures c (some frames) go e ∙ is (stream_loop world fuel),
        )
        | inr (k, d, is, s, bound, first, attempt, later, held) ↦
            let (r, returned) = next frames e k d first bound s attempt later held in
            (
              r,
              stream_loop_on world fuel failures c (some frames) go e
                  ∙ (is (stream_loop world fuel) ∙ returned),
            )
      ]
    ]

  -- Every connection from the `n`-th on is lost before a frame arrives, if it can be made at all.
  abbrev pub FallsSilent : ℕ → Type 0
  FallsSilent n = (i : ℕ) → n ≤ i → frames_of (world.network i) ≡ []

  abbrev limit : ℕ
  limit = world.settings.max_reconnect_attempts

  held_frames :
      (c : Connector) (frames : List String) → Holds [] c → c.ws ≡ some frames → frames ≡ []
  held_frames c frames (inl nothing) e = absurd (cc)
  held_frames c frames (inr held) e = cc

  silent_ends :
      (n fuel failures : ℕ) (c : Connector)
      → FallsSilent n
      → n ≤ c.attempts
      → Holds [] c
      → failures ≤ limit
      → limit + 1 < fuel + failures
      → Returns fuel failures c
  silent_ends n zero failures c silent past held bound enough = absurd (omega arith)
  silent_ends n (suc fuel) failures c silent past held bound enough =
      elim (Bool-cases (over world c)) [
        | inl done ↦ Returns-over fuel failures c done
        | inr go ↦
            Returns-round fuel failures c
              (λ frames e k d first bound' s attempt later next.
                silent_ends n fuel k d silent (omega (arith, attempt))
                  (subst (λ (fs : List String). Holds fs d) (silent c.attempts past) next) bound'
                  (omega (arith, first (held_frames c frames held e))))
              go
      ]

  FallsSilent-ends :
      (n fuel failures : ℕ) (c : Connector)
      → FallsSilent n
      → c.attempts ≤ n
      → n + limit + 2 < fuel + c.attempts
      → Returns fuel failures c
  FallsSilent-ends n zero failures c silent before enough = absurd (omega arith)
  FallsSilent-ends n (suc fuel) failures c silent before enough = elim (Bool-cases (over world c)) [
    | inl done ↦ Returns-over fuel failures c done
    | inr go ↦
        Returns-round fuel failures c
          (λ frames e k d first bound' s attempt later next. elim (dec_lt c.attempts n) [
            | yes more ↦
                FallsSilent-ends n fuel k d silent (omega (arith, attempt)) (omega (arith, attempt))
            | no last ↦
                silent_ends n fuel k d silent (omega (arith, attempt))
                  (subst (λ (fs : List String). Holds fs d) (silent c.attempts (omega arith)) next)
                  bound' (omega (arith, attempt))
          ])
          go
  ]

  -- Stopped, or not past the suspension at which it will be.
  abbrev Pending : ℕ → Connector → Type 0
  Pending p c = (c.stop_requested ≡ true) ⊎ (c.suspensions ≤ p)

  suspend-Pending :
      (p : ℕ) (c : Connector) → world.stops p ≡ true → Pending p c → Pending p (suspend world c)
  unfolding suspend disconnect
  suspend-Pending p c will h = elim (Bool-cases (world.stops c.suspensions)) [
    | inl stop ↦ inl (rw stop refl)
    | inr go ↦ rw go (suspended p c.suspensions world.stops c.stop_requested will go h)
  ]

  Step-Pending :
      (p : ℕ) {c d : Connector} → world.stops p ≡ true → Step world c d → Pending p c → Pending p d
  Step-Pending p {c} will awaits h = suspend-Pending p c will h
  Step-Pending p will (yields payload go is) h = h
  Step-Pending p will (sleeps k go low high) h = h
  Step-Pending p will (reconnects go) h = h
  Step-Pending p will (drops is) h = h
  Step-Pending p will (attempts slept) h = h
  Step-Pending p will (holds frames) h = h
  Step-Pending p will (connects held) h = h

  Steps-Pending :
      (p : ℕ) {c d : Connector} → world.stops p ≡ true → Steps world c d → Pending p c → Pending p d
  Steps-Pending p will stay h = h
  Steps-Pending p will (s ▸ r) h = Steps-Pending p will r (Step-Pending p will s h)

  stop_ends :
      (p fuel failures : ℕ) (c : Connector)
      → world.stops p ≡ true
      → Pending p c
      → p + 1 < fuel + c.suspensions
      → 0 < fuel
      → Returns fuel failures c
  stop_ends p zero failures c will h enough some_fuel = absurd (omega arith)
  stop_ends p (suc fuel) failures c will h enough some_fuel = elim (Bool-cases (over world c)) [
    | inl done ↦ Returns-over fuel failures c done
    | inr go ↦
        let before : c.suspensions ≤ p = still_before p c (not_over world c go).1 h in
        Returns-round fuel failures c
          (λ frames e k d first bound' s attempt later next.
            stop_ends p fuel k d will (Steps-Pending p will s h) (omega arith) (omega arith))
          go
  ]

  entered-attempts :
      (a : Attempt) (c : Connector)
      → (now_connected world (entered world a c)).1.attempts ≡ c.attempts
  entered-attempts refused c = refl
  entered-attempts (unsubscribed frames) c = (suspend_counts world _).0
  entered-attempts (accepted frames) c = (suspend_counts world _).0

  connect-attempts : (c : Connector) → connect world new ≡ (ok tt, c) → c.attempts ≡ 1
  unfolding connect new open_connection is_connected
  connect-attempts c h =
      subst (λ (x : Result (Unit {0}) × Connector). x.1.attempts ≡ 1) h
        (entered-attempts _ _ ∙ (suspend_counts world _).0)

  connect-Pending :
      (p : ℕ) (c : Connector) → world.stops p ≡ true → connect world new ≡ (ok tt, c) → Pending p c
  unfolding connect new is_connected
  connect-Pending p c will h =
      subst (λ (x : Result (Unit {0}) × Connector). Pending p x.1) h
        (Steps-Pending p will (opens-Steps world (starting world) tt) (inr (omega arith)))

  stream-Returns :
      (fuel : ℕ) (c : Connector)
      → connect world new ≡ (ok tt, c)
      → Returns fuel 0 c
      → (r : Result (Unit {0}) × Connector) × (stream world fuel c ≡ some r)
  unfolding stream
  stream-Returns fuel c made (r, e) = (r, rw (connect-connected world c made) e)

  -- If the network falls silent with the `n`-th connection, so that every connection from it on is
  -- lost before a frame arrives, then the stream of a connector that connected ends: it reads at
  -- most `n` connections, the attempts that the settings allow, and three.
  pub stream_ends :
      (n fuel : ℕ) (c : Connector)
      → connect world new ≡ (ok tt, c)
      → FallsSilent n
      → n + world.settings.max_reconnect_attempts + 2 < fuel
      → (r : Result (Unit {0}) × Connector) × (stream world fuel c ≡ some r)
  stream_ends n fuel c made silent enough = stream-Returns fuel c made (
      FallsSilent-ends (suc n) fuel 0 c (λ i h. silent i (omega arith))
        (omega (arith, connect-attempts c made)) (omega (arith, connect-attempts c made)))

  -- If another task calls `disconnect` at the suspension `p`, then the stream of a connector that
  -- connected ends, whatever the network does: it reads at most `p` connections and two.
  pub stream_stops :
      (p fuel : ℕ) (c : Connector)
      → connect world new ≡ (ok tt, c)
      → world.stops p ≡ true
      → p + 1 < fuel
      → (r : Result (Unit {0}) × Connector) × (stream world fuel c ≡ some r)
  stream_stops p fuel c made will enough =
      stream-Returns fuel c made
        (stop_ends p fuel 0 c will (connect-Pending p c will made) (omega arith) (omega arith))
