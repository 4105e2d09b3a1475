-- ===== src/Producer/Coinbase/Counts.antt =====
-- What the connector's steps count: the attempts to connect, and the suspensions.
use mathlib.Core.Path.{subst}
use cryptopulse.Prelude.{
  ℕ, suc, ◌≤◌, ◌<◌, ◌≡◌, refl, ◌⊎◌, inl, inr, String, true, false, List, [], ◌∷◌, ◌++◌, none, some,
  arith, Bool-cases,
}
use cryptopulse.Producer.Coinbase.{
  emitted, attempted, Connector, Surroundings, Attempt, refused, unsubscribed, accepted, suspend,
  close, disconnect, open_connection, reconnect, act, yield_payload, read, entered, now_connected,
  reconnecting,
}
use cryptopulse.Producer.Coinbase.Steps.{
  Action-cases, read-stopped, read_skip, read_emit, read_fail,
}

-- The frames that an attempt leads to.
abbrev pub frames_of : Attempt → List String
frames_of refused = []
frames_of (unsubscribed frames) = frames
frames_of (accepted frames) = frames

-- What a connector holds: nothing, or the frames of its last attempt.
abbrev pub Holds : List String → Connector → Type 0
Holds frames c = (c.ws ≡ none) ⊎ (c.ws ≡ some frames)

module _ (world : Surroundings) where
  pub suspend_counts :
      (c : Connector)
      → ((suspend world c).attempts ≡ c.attempts)
        × ((suspend world c).suspensions ≡ suc c.suspensions)
  unfolding suspend disconnect
  suspend_counts c = elim (Bool-cases (world.stops c.suspensions)) [
    | inl stop ↦ rw stop (refl, refl)
    | inr go ↦ rw go (refl, refl)
  ]

  pub read_counts :
      (frames : List String) (failures : ℕ) (c : Connector)
      → ((read world frames failures c).2.attempts ≡ c.attempts)
        × (c.suspensions < (read world frames failures c).2.suspensions)
  unfolding read yield_payload
  read_counts [] failures c = omega (arith, suspend_counts c)
  read_counts (message ∷ rest) failures c =
      let d = suspend world c in
      let now = suspend_counts c in
      elim (Bool-cases d.stop_requested) [
        | inl stop ↦ rw (read-stopped world message rest failures c stop) (omega (arith, now))
        | inr go ↦ elim (Action-cases world (act world message)) [
          | inl h ↦
              rw (read_skip world message rest failures c go h)
                (omega (arith, now, read_counts rest 0 d))
          | inr (inl (payload, h)) ↦
              let e = record d {
                yielded = d.yielded ++ payload ∷ [];
                log = emitted payload ∷ d.log;
              } in
              rw (read_emit world message rest failures c go payload h)
                (omega (arith, now, suspend_counts e, read_counts rest 0 (suspend world e)))
          | inr (inr (e, h)) ↦
              rw (read_fail world message rest failures c go e h) (omega (arith, now))
        ]
      ]

  suspend-Holds :
      (frames : List String) (c : Connector) → Holds frames c → Holds frames (suspend world c)
  unfolding suspend disconnect
  suspend-Holds frames c h = elim (Bool-cases (world.stops c.suspensions)) [
    | inl stop ↦ inl (rw stop refl)
    | inr go ↦ rw go h
  ]

  closed_ws : (c : Connector) → c.ws ≡ none → (suspend world c).ws ≡ none
  unfolding suspend disconnect
  closed_ws c h = elim (Bool-cases (world.stops c.suspensions)) [
    | inl stop ↦ rw stop refl
    | inr go ↦ rw go h
  ]

  abbrev Counts : Attempt → Connector → Connector → Type 0
  Counts a c d = (d.attempts ≡ c.attempts) × (c.suspensions ≤ d.suspensions) × Holds (frames_of a) d

  entered-Counts :
      (a : Attempt) (c : Connector)
      → c.ws ≡ none
      → Counts a c (now_connected world (entered world a c)).1
  entered-Counts refused c h = (refl, omega arith, inl h)
  entered-Counts (unsubscribed frames) c h =
      let d = record c { ws = some frames } in
      (
        omega (arith, suspend_counts d),
        omega (arith, suspend_counts d),
        suspend-Holds frames d (inr refl),
      )
  entered-Counts (accepted frames) c h =
      let d = record c { ws = some frames } in
      (
        omega (arith, suspend_counts d),
        omega (arith, suspend_counts d),
        suspend-Holds frames d (inr refl),
      )

  close_counts :
      (c : Connector)
      → ((close world c).attempts ≡ c.attempts)
        × (c.suspensions ≤ (close world c).suspensions)
        × ((close world c).ws ≡ none)
  unfolding close
  close_counts c = elim (Bool-cases c.context) [
    | inl held ↦
        let d = record c { context = false; ws = none } in
        rw held (omega (arith, suspend_counts d), omega (arith, suspend_counts d), closed_ws d refl)
    | inr free ↦ rw free (refl, omega arith, refl)
  ]

  pub reconnect_counts :
      (c : Connector)
      → ((reconnect world c).1.attempts ≡ suc c.attempts)
        × (c.suspensions ≤ (reconnect world c).1.suspensions)
        × Holds (frames_of (world.network c.attempts)) (reconnect world c).1
  unfolding reconnect open_connection
  reconnect_counts c =
      let d = close world (record c { state = reconnecting }) in
      let closed = close_counts (record c { state = reconnecting }) in
      let e = record d { context = true; attempts = suc d.attempts; log = attempted ∷ d.log } in
      let counted = suspend_counts e in
      let last =
        entered-Counts (world.network d.attempts) (suspend world e) (closed_ws e closed.2) in
      (
        omega (arith, closed, counted, last.0),
        omega (arith, closed, counted, last.1),
        subst (λ (n : ℕ). Holds (frames_of (world.network n)) (reconnect world c).1) closed.0
            last.2,
      )
