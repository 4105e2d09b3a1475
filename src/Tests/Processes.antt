-- ===== src/Tests/Processes.antt =====
-- A processing run at a concrete input.
use cryptopulse.Prelude.{refl, false}
use cryptopulse.Warehouse.World.{ok}
use cryptopulse.Processing.{Drivers, Process, run_processing}
use cryptopulse.Processing.Release.{IsReleased, run_processing-IsReleased}
use cryptopulse.Tests.Data.{calm, empty_world}
use cryptopulse.Tests.Stages.{read_text, gold_settings, messages}
use cryptopulse.Tests.Upgrades.{ascii_digit, one_file, recording, fresh}

abbrev drivers : Drivers
drivers = record {
  pool_starts = ok tt;
  pool_stops = ok tt;
  consumer_starts = ok tt;
  consumer_stops = ok tt;
}

abbrev begun : Process
begun = record {
  pool_started = false;
  consumer_started = false;
  database = fresh;
  world = empty_world;
}

run_processing-IsReleased_example :
    IsReleased drivers refl refl calm
      (run_processing drivers calm read_text gold_settings messages recording ascii_digit one_file
        begun).1
run_processing-IsReleased_example =
    run_processing-IsReleased drivers refl refl calm read_text gold_settings messages recording
      ascii_digit one_file begun
      (record {
        pool = refl;
        consumer = refl;
        layers = record { bronze = tt; silver = (tt, tt); gold = tt };
      })
