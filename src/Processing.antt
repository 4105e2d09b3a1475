-- ===== src/Processing.antt =====
-- processing/main.py: run_processing, with the lifecycles that it owns: the pool's
-- (warehouse/database/pool.py), the consumer's (messaging/consumer.py), through
-- BronzeIngestionService and ProcessingPipeline. What the drivers' own start and stop do is a
-- parameter, and so are the migrations' scripts. The migrations' tables and the layers' rows are
-- two parts of one database.
pub mod Release
use Prim.Native.Char.{Char}
use cryptopulse.Prelude.{String, Bool, true, false, List, if◌then◌else◌, Option}
use cryptopulse.Prelude.Int.{pos}
use cryptopulse.Contracts.Events.{InternalEvent}
use cryptopulse.Validation.Rules.{default_rules}
use cryptopulse.Warehouse.World.{Environment, World, Result, ok, err}
use cryptopulse.GoldService.{GoldSettings}
use cryptopulse.Ingestion.{Message}
use cryptopulse.Migrations.{Directory, Database, Scripts, apply_migrations}
use cryptopulse.Pipeline.{PipelineResult, run_once}

-- What the drivers answer.
pub record Drivers : Type 0 where
  pub pool_starts : Result (Unit {0})
  pub pool_stops : Result (Unit {0})
  pub consumer_starts : Result (Unit {0})
  pub consumer_stops : Result (Unit {0})

pub record Process : Type 0 where
  pub pool_started : Bool
  pub consumer_started : Bool
  pub database : Database
  pub world : World

module _ (drivers : Drivers) where
  abbrev pool_answered : Result (Unit {0}) → Bool → Process → Result (Unit {0}) × Process
  pool_answered (ok u) started s = (ok tt, record s { pool_started = started })
  pool_answered (err e) started s = (err e, s)

  -- `DatabasePool.start`
  unfoldable pub start_pool : Process → Result (Unit {0}) × Process
  start_pool s = if s.pool_started then (ok tt, s) else pool_answered drivers.pool_starts true s

  -- `DatabasePool.close`
  unfoldable pub close_pool : Process → Result (Unit {0}) × Process
  close_pool s = if s.pool_started then pool_answered drivers.pool_stops false s else (ok tt, s)

  abbrev consumer_answered : Result (Unit {0}) → Bool → Process → Result (Unit {0}) × Process
  consumer_answered (ok u) started s = (ok tt, record s { consumer_started = started })
  consumer_answered (err e) started s = (err e, s)

  -- `KafkaConsumer.start`, as `ProcessingPipeline.start` calls it
  unfoldable pub start_consumer : Process → Result (Unit {0}) × Process
  start_consumer s =
      if s.consumer_started then (ok tt, s) else consumer_answered drivers.consumer_starts true s

  -- `KafkaConsumer.close`, as `ProcessingPipeline.close` calls it
  unfoldable pub close_consumer : Process → Result (Unit {0}) × Process
  close_consumer s =
      if s.consumer_started then consumer_answered drivers.consumer_stops false s else (ok tt, s)

  abbrev pub cleaned : {A : Type 0} → Result A → Result (Unit {0}) × Process → Result A × Process
  cleaned r (ok u, s) = (r, s)
  cleaned r (err e, s) = (err e, s)

  -- `finally`: what the clean-up raises replaces the result.
  abbrev pub finally :
      {A : Type 0}
      → (Process → Result (Unit {0}) × Process)
      → Result A × Process
      → Result A × Process
  finally clean (r, s) = cleaned r (clean s)

  module _ {Bytes : Type 0} (env : Environment) (decode : Bytes → Option InternalEvent)
      (settings : GoldSettings) (messages : List (Message Bytes)) (scripts : Scripts)
      (digit : Char → Bool) (directory : Directory) where
    -- `pipeline.run_once()`, with batches of 100
    unfoldable pub run_pipeline : Process → Result PipelineResult × Process
    run_pipeline s =
        let (r, w) =
          run_once env decode default_rules settings (pos 100) s.consumer_started messages
            s.world in
        (r, record s { world = w })

    abbrev consuming : Result (Unit {0}) × Process → Result PipelineResult × Process
    consuming (ok u, s) = finally close_consumer (run_pipeline s)
    consuming (err e, s) = (err e, s)

    abbrev migrated : Process → Result (List String) × Database → Result PipelineResult × Process
    migrated s (ok names, db) = consuming (start_consumer (record s { database = db }))
    migrated s (err e, db) = (err e, record s { database = db })

    abbrev pooled : Result (Unit {0}) × Process → Result PipelineResult × Process
    pooled (ok u, s) =
        finally close_pool (migrated s (apply_migrations scripts digit directory s.database))
    pooled (err e, s) = (err e, s)

    -- `run_processing`
    unfoldable pub run_processing : Process → Result PipelineResult × Process
    run_processing s = pooled (start_pool s)
