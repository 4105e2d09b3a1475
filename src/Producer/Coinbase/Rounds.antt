-- ===== src/Producer/Coinbase/Rounds.antt =====
-- One round of the retry loop: it ends the stream, or the loop goes on with a new connection.
use mathlib.Core.Path.{subst}
use cryptopulse.Prelude.{
  ℕ, suc, ◌+◌, ◌≤◌, ◌<◌, ◌≡◌, refl, ap, ◌∙◌, ◌⊎◌, inl, inr, String, false, not, ◌||◌, ltb, List, [],
  ◌∷◌, ◌++◌, Option, some, arith, Bool-cases,
}
use cryptopulse.Warehouse.World.{Result, ok, err}
use cryptopulse.Producer.Coinbase.Order.{HasJustSlept, suspend-HasJustSlept}
use cryptopulse.Producer.Coinbase.{
  slept_for, Connector, Surroundings, is_connected, Read, lost, stopped, raised, suspend, reconnect,
  delay, wait_before_reconnect, read, Loop, after, iterate, reconnected, woken,
}
use cryptopulse.Producer.Coinbase.Steps.{
  Steps, stay, ◌▸◌, sleeps, awaits, Steps-trans, read-Steps, reconnect-Steps,
}
use cryptopulse.Producer.Coinbase.Fatal.{
  RaisesFatal, ReadsFatal, read-ReadsFatal, reconnect-RaisesFatal,
}
use cryptopulse.Producer.Coinbase.Counts.{
  frames_of, suspend_counts, read_counts, Holds, reconnect_counts,
}

module _ (world : Surroundings) where
  module _ (c : Connector) where
    -- The body returns, whatever the loop would do.
    abbrev pub Ends : (Loop world → Option (Result (Unit {0}) × Connector)) → Type 0
    Ends body =
        (r : Result (Unit {0}) × Connector) × ((loop : Loop world) → body loop ≡ some r)
        × Steps world c r.1
        × RaisesFatal r.0

    -- The body goes on with the loop, over a new connection and after one more suspension at least.
    abbrev pub Continues :
        List String → ℕ → (Loop world → Option (Result (Unit {0}) × Connector)) → Type 0
    Continues frames failures body =
        (k : ℕ) × (d : Connector) × ((loop : Loop world) → body loop ≡ loop k d)
        × Steps world c d
        × (k ≤ world.settings.max_reconnect_attempts)
        × (frames ≡ [] → k ≡ suc failures)
        × (d.attempts ≡ suc c.attempts)
        × (c.suspensions < d.suspensions)
        × Holds (frames_of (world.network c.attempts)) d

  -- One round of the loop.
  module _ (frames : List String) (failures : ℕ) (c : Connector) where
    reconnected_round :
        (k : ℕ) (d : Connector) (r : Result (Unit {0}) × Connector)
        → Steps world c r.1
        → RaisesFatal r.0
        → k ≤ world.settings.max_reconnect_attempts
        → (frames ≡ [] → k ≡ suc failures)
        → r.1.attempts ≡ suc c.attempts
        → c.suspensions < r.1.suspensions
        → Holds (frames_of (world.network c.attempts)) r.1
        → Ends c (λ loop. reconnected world loop k r)
          ⊎ Continues c frames failures (λ loop. reconnected world loop k r)
    reconnected_round k d (ok u, e) s fatal bound first attempt later held =
        inr (k, e, λ loop. refl, s, bound, first, attempt, later, held)
    reconnected_round k d (err x, e) s fatal bound first attempt later held =
        inl ((err x, e), λ loop. refl, s, fatal)

    abbrev Body : Type 0
    Body = Loop world → Option (Result (Unit {0}) × Connector)

    along :
        (body body' : Body)
        → ((loop : Loop world) → body loop ≡ body' loop)
        → Ends c body' ⊎ Continues c frames failures body'
        → Ends c body ⊎ Continues c frames failures body
    along body body' same (inl (r, is, s, fatal)) = inl (r, λ loop. same loop ∙ is loop, s, fatal)
    along body body' same (inr (k, d, is, s, facts, first, attempt, later, held)) =
        inr (k, d, λ loop. same loop ∙ is loop, s, facts, first, attempt, later, held)

    -- The connector slept, and looks for a stop before it reconnects.
    woken_round :
        (k : ℕ) (d w : Connector)
        → Steps world c w
        → k ≤ world.settings.max_reconnect_attempts
        → (frames ≡ [] → k ≡ suc failures)
        → w.attempts ≡ c.attempts
        → c.suspensions < w.suspensions
        → HasJustSlept w.log
        → Ends c (λ loop. woken world loop k w)
          ⊎ Continues c frames failures (λ loop. woken world loop k w)
    woken_round k d w s bound first attempt later slept = elim (Bool-cases w.stop_requested) [
      | inl stop ↦ inl ((ok tt, w), λ loop. simp stop, s, tt)
      | inr go ↦
          let counted = reconnect_counts world w in
          along (λ loop. woken world loop k w)
            (λ loop. reconnected world loop k (reconnect world w)) (λ loop. simp go)
            (reconnected_round k w (reconnect world w)
              (Steps-trans world s (reconnect-Steps world w go slept))
              (reconnect-RaisesFatal world w) bound first (counted.0 ∙ ap suc attempt)
              (omega (arith, counted.1))
              (subst (λ (n : ℕ). Holds (frames_of (world.network n)) (reconnect world w).1) attempt
                counted.2))
    ]

    not_stopped :
        (d : Connector)
        → d.stop_requested || not (is_connected d.state) ≡ false
        → d.stop_requested ≡ false
    not_stopped d h = ground arith

    -- What the loop does after it read a connection's frames.
    after_round :
        (rd : Read) (k : ℕ) (d : Connector)
        → Steps world c d
        → ReadsFatal rd
        → (frames ≡ [] → k ≡ failures)
        → d.attempts ≡ c.attempts
        → c.suspensions < d.suspensions
        → Ends c (λ loop. after world loop (rd, k, d))
          ⊎ Continues c frames failures (λ loop. after world loop (rd, k, d))
    unfolding wait_before_reconnect
    after_round stopped k d s fatal first attempt later = inl ((ok tt, d), λ loop. refl, s, tt)
    after_round (raised x) k d s fatal first attempt later =
        inl ((err x, d), λ loop. refl, s, fatal)
    after_round lost k d s fatal first attempt later =
        elim (Bool-cases (d.stop_requested || not (is_connected d.state))) [
          | inl over ↦ inl ((ok tt, d), λ loop. rw over refl, s, tt)
          | inr go ↦ elim (Bool-cases (ltb world.settings.max_reconnect_attempts (k + 1))) [
            | inl over ↦ inl ((ok tt, d), λ loop. rw go (rw over refl), s, tt)
            | inr again ↦
                let slept = record d {
                  slept = d.slept ++ delay world (k + 1) ∷ [];
                  log = slept_for (delay world (k + 1)) ∷ d.log;
                } in
                let counted = suspend_counts world slept in
                let bound : k + 1 ≤ world.settings.max_reconnect_attempts = ground arith in
                along (λ loop. after world loop (lost, k, d))
                  (λ loop. woken world loop (k + 1) (wait_before_reconnect world (k + 1) d))
                  (λ loop. rw go (rw again refl))
                  (woken_round (k + 1) d (suspend world slept)
                    (Steps-trans world s
                      (sleeps (k + 1) (not_stopped d go) (omega arith) bound ▸ awaits ▸ stay))
                    bound (λ e. omega (arith, first e)) (counted.0 ∙ attempt)
                    (omega (arith, counted.1)) (suspend-HasJustSlept world slept tt))
          ]
        ]

    -- A round from a connection ends the stream, or goes on with the next connection.
    pub round :
        Ends c (λ loop. iterate world loop (some frames) failures c)
        ⊎ Continues c frames failures (λ loop. iterate world loop (some frames) failures c)
    unfolding read
    round =
        let counted = read_counts world frames failures c in
        after_round (read world frames failures c).0 (read world frames failures c).1
          (read world frames failures c).2 (read-Steps world frames failures c)
          (read-ReadsFatal world frames failures c) (λ e. rw e refl) counted.0 counted.1
