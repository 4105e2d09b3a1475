-- ===== src/Processing/Release.antt =====
-- What a run leaves behind, however it ends.
use mathlib.Core.Path.{subst}
use Prim.Native.Char.{Char}
use cryptopulse.Prelude.{
  ◌≡◌, refl, sym, inl, inr, String, Bool, true, false, List, Option, Bool-cases,
}
use cryptopulse.Prelude.Int.{pos}
use cryptopulse.Contracts.Events.{InternalEvent}
use cryptopulse.Warehouse.World.{Environment, Result, ok, err}
use cryptopulse.GoldService.{GoldSettings}
use cryptopulse.Ingestion.{Message}
use cryptopulse.Migrations.{Directory, Database, Scripts, apply_migrations}
use cryptopulse.Pipeline.Layers.{AreSound, run_once-AreSound}
use cryptopulse.Processing.{
  Drivers, Process, start_pool, close_pool, start_consumer, close_consumer, run_pipeline,
  run_processing, cleaned, pool_answered, consumer_answered, migrated, consuming, pooled,
}

module _ (drivers : Drivers) (pool_stops : drivers.pool_stops ≡ ok tt)
    (consumer_stops : drivers.consumer_stops ≡ ok tt) (env : Environment) where
  -- Nothing is held, and the layers are sound.
  pub record IsReleased (s : Process) : Type 0 where
    pub pool : s.pool_started ≡ false
    pub consumer : s.consumer_started ≡ false
    pub layers : AreSound env s.world

  -- The pool may be held.
  record IsPooled (s : Process) : Type 0 where
    consumer : s.consumer_started ≡ false
    layers : AreSound env s.world

  close_pool-IsReleased : (s : Process) → IsPooled s → IsReleased (close_pool drivers s).1
  unfolding close_pool
  close_pool-IsReleased s h = elim (Bool-cases s.pool_started) [
    | inl on ↦
        simp (on, pool_stops) (record { pool = refl; consumer = h.consumer; layers = h.layers })
    | inr off ↦ simp off (record { pool = off; consumer = h.consumer; layers = h.layers })
  ]

  close_consumer-IsPooled :
      (s : Process) → AreSound env s.world → IsPooled (close_consumer drivers s).1
  unfolding close_consumer
  close_consumer-IsPooled s h = elim (Bool-cases s.consumer_started) [
    | inl on ↦ simp (on, consumer_stops) (record { consumer = refl; layers = h })
    | inr off ↦ simp off (record { consumer = off; layers = h })
  ]

  cleaned-state :
      {A : Type 0} (r : Result A) (c : Result (Unit {0}) × Process) → (cleaned drivers r c).1 ≡ c.1
  cleaned-state r (ok u, s) = refl
  cleaned-state r (err e, s) = refl

  module _ {Bytes : Type 0} (decode : Bytes → Option InternalEvent) (settings : GoldSettings)
      (messages : List (Message Bytes)) (scripts : Scripts) (digit : Char → Bool)
      (directory : Directory) where
    run_pipeline-AreSound :
        (s : Process)
        → AreSound env s.world
        → AreSound env
            (run_pipeline drivers env decode settings messages scripts digit directory s).1.world
    unfolding run_pipeline
    run_pipeline-AreSound s h =
        run_once-AreSound env decode settings (pos 100) s.consumer_started messages s.world h

    -- A consumer that was not started is not started when its start raises.
    abbrev Starts : Result (Unit {0}) → Process → Type 0
    Starts (ok u) s = AreSound env s.world
    Starts (err e) s = IsPooled s

    answered-Starts :
        (r : Result (Unit {0})) (s : Process)
        → IsPooled s
        → Starts (consumer_answered drivers r true s).0 (consumer_answered drivers r true s).1
    answered-Starts (ok u) s h = h.layers
    answered-Starts (err e) s h = h

    start_consumer-Starts :
        (s : Process)
        → IsPooled s
        → Starts (start_consumer drivers s).0 (start_consumer drivers s).1
    unfolding start_consumer
    start_consumer-Starts s h = simp (h.consumer) (answered-Starts drivers.consumer_starts s h)

    consuming-IsPooled :
        (r : Result (Unit {0})) (s : Process)
        → Starts r s
        → IsPooled (consuming drivers env decode settings messages scripts digit directory (r, s)).1
    consuming-IsPooled (ok u) s h =
        let out = run_pipeline drivers env decode settings messages scripts digit directory s in
        subst IsPooled (sym (cleaned-state out.0 (close_consumer drivers out.1)))
          (close_consumer-IsPooled out.1 (run_pipeline-AreSound s h))
    consuming-IsPooled (err e) s h = h

    migrated-IsPooled :
        (s : Process) (r : Result (List String) × Database)
        → IsPooled s
        → IsPooled (migrated drivers env decode settings messages scripts digit directory s r).1
    migrated-IsPooled s (ok names, db) h =
        let t = record s { database = db } in
        let started = start_consumer drivers t in
        consuming-IsPooled started.0 started.1
          (start_consumer-Starts t (record { consumer = h.consumer; layers = h.layers }))
    migrated-IsPooled s (err e, db) h = record { consumer = h.consumer; layers = h.layers }

    abbrev Pools : Result (Unit {0}) → Process → Type 0
    Pools (ok u) s = IsPooled s
    Pools (err e) s = IsReleased s

    pooled-IsReleased :
        (r : Result (Unit {0})) (s : Process)
        → Pools r s
        → IsReleased (pooled drivers env decode settings messages scripts digit directory (r, s)).1
    pooled-IsReleased (ok u) s h =
        let out =
          migrated drivers env decode settings messages scripts digit directory s
            (apply_migrations scripts digit directory s.database) in
        subst IsReleased (sym (cleaned-state out.0 (close_pool drivers out.1))) (
          close_pool-IsReleased out.1
            (migrated-IsPooled s (apply_migrations scripts digit directory s.database) h))
    pooled-IsReleased (err e) s h = h

    pool_answered-Pools :
        (r : Result (Unit {0})) (s : Process)
        → IsReleased s
        → Pools (pool_answered drivers r true s).0 (pool_answered drivers r true s).1
    pool_answered-Pools (ok u) s h = record { consumer = h.consumer; layers = h.layers }
    pool_answered-Pools (err e) s h = h

    start_pool-Pools :
        (s : Process) → IsReleased s → Pools (start_pool drivers s).0 (start_pool drivers s).1
    unfolding start_pool
    start_pool-Pools s h = simp (h.pool) (pool_answered-Pools drivers.pool_starts s h)

    -- However a processing run ends, at the start of the pool or of the consumer, in a migration,
    -- at any step of the pipeline, or with a result: if it began with neither pool nor consumer
    -- started and with sound layers, then it ends so, provided that the drivers' own stops raise
    -- nothing.
    pub run_processing-IsReleased :
        (s : Process)
        → IsReleased s
        → IsReleased
            (run_processing drivers env decode settings messages scripts digit directory s).1
    unfolding run_processing
    run_processing-IsReleased s h =
        pooled-IsReleased (start_pool drivers s).0 (start_pool drivers s).1 (start_pool-Pools s h)
