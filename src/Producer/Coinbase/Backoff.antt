-- ===== src/Producer/Coinbase/Backoff.antt =====
-- The delays between the attempts, where every connection is lost at once and nothing stops the
-- stream.
use Prim.Native.Nat.{min}
use mathlib.Core.Path.{subst}
use cryptopulse.Prelude.{
  ℕ, zero, suc, ◌+◌, ◌-◌, ◌*◌, ◌^◌, ◌≡◌, refl, ap, sym, ◌∙◌, true, false, ltb, List, [], ◌∷◌, ◌++◌,
  Option, some, arith,
}
use mathlib.Core.List.{append_assoc, append-nil}
use cryptopulse.Python.Value.{Fields}
use cryptopulse.Warehouse.World.{Result, ok}
use cryptopulse.Producer.Coinbase.{
  Happening, attempted, slept_for, Connector, new, connect, connected, Surroundings, is_connected,
  accepted, delay, stream_loop, stream, wait_before_reconnect, reconnect, open_connection, close,
  suspend, read,
}

module _ (world : Surroundings) where
  -- The delays before the attempts `k + 1` to `k + n`.
  abbrev pub delays_from : ℕ → ℕ → List ℕ
  delays_from k zero = []
  delays_from k (suc n) = delay world (k + 1) ∷ delays_from (k + 1) n

  -- Delays that begin with `d` and double, `n` of them, each cut at the cap.
  abbrev pub doubling : ℕ → ℕ → List ℕ
  doubling d zero = []
  doubling d (suc n) = min d world.settings.max_reconnect_delay ∷ doubling (d + d) n

  two_pow-suc : (k : ℕ) → 2 ^ (k + 1) ≡ 2 ^ k + 2 ^ k
  two_pow-suc k =
      let next : k + 1 ≡ suc k = omega arith in
      let twice : 2 ^ suc k ≡ 2 ^ k + 2 ^ k = omega arith in ap (λ (j : ℕ). 2 ^ j) next ∙ twice

  delays_from-doubling :
      (n k : ℕ) → delays_from k n ≡ doubling (world.settings.reconnect_delay * 2 ^ k) n
  unfolding delay
  delays_from-doubling zero k = refl
  delays_from-doubling (suc n) k =
      let base = world.settings.reconnect_delay in
      let cap = world.settings.max_reconnect_delay in
      let same : k + 1 - 1 ≡ k = omega arith in
      let twice : base * 2 ^ (k + 1) ≡ base * 2 ^ k + base * 2 ^ k =
        omega (arith, ap (λ (x : ℕ). base * x) (two_pow-suc k)) in
      ap (λ (j : ℕ). min (base * 2 ^ j) cap ∷ delays_from (k + 1) n) same
      ∙ ap (λ (l : List ℕ). min (base * 2 ^ k) cap ∷ l)
          (delays_from-doubling n (k + 1) ∙ ap (λ (d : ℕ). doubling d n) twice)

  -- A connector that is connected, and has no frame to read.
  abbrev pub idle : ℕ → ℕ → List ℕ → List Fields → List Happening → Connector
  idle made waits slept yielded log = record {
    state = connected;
    stop_requested = false;
    context = true;
    ws = some [];
    attempts = made;
    suspensions = waits;
    slept = slept;
    yielded = yielded;
    log = log;
  }

  abbrev pub ended : Connector → Option (Result (Unit {0}) × Connector)
  ended c = some (ok tt, c)

  module _ (calm : (i : ℕ) → world.stops i ≡ false)
      (silent : (i : ℕ) → world.network i ≡ accepted []) (yielded : List Fields) where
    suspend_calm : (c : Connector) → suspend world c ≡ record c { suspensions = suc c.suspensions }
    unfolding suspend
    suspend_calm c = rw (calm c.suspensions) refl

    idle_again :
        (fuel k made waits : ℕ) (slept : List ℕ) (log : List Happening)
        → ltb world.settings.max_reconnect_attempts (k + 1) ≡ false
        → stream_loop world (suc fuel) k (idle made waits slept yielded log)
          ≡ stream_loop world fuel (k + 1) (
              idle
                (suc made)
                (suc (suc (suc (suc (suc waits)))))
                (slept ++ delay world (k + 1) ∷ [])
                yielded
                (attempted ∷ slept_for (delay world (k + 1)) ∷ log))
    unfolding stream_loop read wait_before_reconnect reconnect open_connection close is_connected
    idle_again fuel k made waits slept log h = simp (suspend_calm, silent, h)

    idle_exhausted :
        (fuel k made waits : ℕ) (slept : List ℕ) (log : List Happening)
        → ltb world.settings.max_reconnect_attempts (k + 1) ≡ true
        → stream_loop world (suc fuel) k (idle made waits slept yielded log)
          ≡ some (ok tt, idle made (suc waits) slept yielded log)
    unfolding stream_loop read suspend is_connected
    idle_exhausted fuel k made waits slept log h = simp (calm, h)

    same_end :
        (m m' waits : ℕ) (slept slept' : List ℕ) (log : List Happening)
        → m ≡ m'
        → slept ≡ slept'
        → ended (idle m waits slept yielded log) ≡ ended (idle m' waits slept' yielded log)
    same_end m m' waits slept slept' log p q = rw p (rw q refl)

    -- The loop from `k` failures makes the `n` attempts that are left.
    stream_loop-delays_from :
        (n k made waits : ℕ) (slept : List ℕ) (log : List Happening)
        → k + n ≡ world.settings.max_reconnect_attempts
        → (r : ℕ) × (log' : List Happening) × (stream_loop world
              (suc n)
              k
              (idle made waits slept yielded log)
            ≡ some (ok tt, idle (made + n) r (slept ++ delays_from k n) yielded log'))
    stream_loop-delays_from zero k made waits slept log h = (
      suc waits,
      log,
      idle_exhausted zero k made waits slept log (ground arith)
          ∙ same_end made (made + 0) (suc waits) slept (slept ++ []) log (omega arith)
              (sym (append-nil slept)),
    )
    stream_loop-delays_from (suc n) k made waits slept log h =
        let (r, log', e) =
          stream_loop-delays_from n (k + 1) (suc made) (suc (suc (suc (suc (suc waits)))))
            (slept ++ delay world (k + 1) ∷ []) (attempted ∷ slept_for (delay world (k + 1)) ∷ log)
            (omega arith) in
        (
          r,
          log',
          idle_again (suc n) k made waits slept log (ground arith)
              ∙ (e
                  ∙ same_end (suc made + n) (made + suc n) r
                      ((slept ++ delay world (k + 1) ∷ []) ++ delays_from (k + 1) n)
                      (slept ++ delays_from k (suc n)) log' (omega arith)
                      (append_assoc slept (delay world (k + 1) ∷ []) (delays_from (k + 1) n))),
        )

  connect-idle :
      ((i : ℕ) → world.stops i ≡ false)
      → ((i : ℕ) → world.network i ≡ accepted [])
      → connect world new ≡ (ok tt, idle 1 2 [] [] (attempted ∷ []))
  unfolding connect open_connection suspend is_connected new
  connect-idle calm silent = simp (calm, silent)

  -- Where nothing stops the stream and every connection succeeds but is lost before a frame
  -- arrives, the stream of a connector that connected ends without an error, after exactly the
  -- attempts that the settings allow, and has slept, in this order, the first delay doubled for
  -- each attempt after the first and cut at the cap.
  pub stream-delays_from :
      ((i : ℕ) → world.stops i ≡ false)
      → ((i : ℕ) → world.network i ≡ accepted [])
      → (c : Connector) → connect world new ≡ (ok tt, c)
      → (waits : ℕ) × (log : List Happening) × (stream world
            (suc world.settings.max_reconnect_attempts)
            c
          ≡ ended (
              idle
                (1 + world.settings.max_reconnect_attempts)
                waits
                (doubling world.settings.reconnect_delay world.settings.max_reconnect_attempts)
                []
                log))
  unfolding stream is_connected
  stream-delays_from calm silent c made =
      let limit = world.settings.max_reconnect_attempts in
      let first = world.settings.reconnect_delay in
      let once : first * 2 ^ 0 ≡ first = omega arith in
      let slept : delays_from 0 limit ≡ doubling first limit =
        delays_from-doubling limit 0 ∙ ap (λ (d : ℕ). doubling d limit) once in
      let (waits, log, e) =
        stream_loop-delays_from calm silent [] limit 0 1 2 [] (attempted ∷ []) (omega arith) in
      (
        waits,
        log,
        subst
              (λ (x : Result (Unit {0}) × Connector).
                stream world (suc limit) x.1
                ≡ ended (idle (1 + limit) waits (delays_from 0 limit) [] log))
              (sym (connect-idle calm silent) ∙ made) e
            ∙ ap (λ (l : List ℕ). ended (idle (1 + limit) waits l [] log)) slept,
      )
