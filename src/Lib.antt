-- ===== src/Lib.antt =====
-- CryptoPulse: from an exchange's trade messages to market windows.
--
-- The producer connects to an exchange, prepares each trade message as a canonical event and
-- publishes it to a broker. The processing side applies the migrations of its database, and then
-- reads trade events from a broker and keeps them in four tables of a database. Bronze takes every
-- event that can be decoded; the validation engine then routes each event of Bronze to Silver
-- (trusted) or to Quarantine (rejected, with the reasons); the Gold stage aggregates the trusted
-- events of a symbol and a time window. A pass of the pipeline runs the three stages once.
--
-- Python.*       what the program uses of the runtime: text, `decimal` with the default context of 28
--                digits, `datetime` in microseconds, `isoformat`, values of any type, exceptions.
-- Contracts.*    common/contracts: the events, validation outcomes and market windows.
-- Validation.*   processing/validation/base.py, rules.py and engine.py: Rules has the eight rules as
--                functions of the attributes of an object whose fields nothing has checked, Engine runs
--                them, Outcomes has what it returns for an object with an event_id (for another, its
--                logging raises); Trustworthy says what the rules should accept.
-- Warehouse.*    warehouse/schemas (Schemas.*, with the column readers in Rows) and
--                warehouse/repositories (Bronze, Silver, Quarantine, Gold). Table has the SQL statements,
--                on a table as the list of its rows.
-- Trust          processing/validation/service.py, `TrustRoutingService`.
-- Ingestion      processing/bronze_ingestion.py and the consumer of messaging/consumer.py.
-- Aggregation    processing/gold/windows.py; GoldService is processing/gold/service.py.
-- Pipeline       processing/pipeline.py.
-- Migrations     warehouse/migrations/runner.py; Shipped has the effect of its sql files on the history.
-- Producer.*     Coinbase and DevSource are the connectors (producer/connectors); Coinbase.Steps is the
--                transition system that a session refines, Coinbase.Rounds one round of the retry loop.
--                Preparation (Match and Dev) is producer/preparation; Pipeline is producer/pipeline.py
--                with messaging/publisher.py and run_producer of producer/main.py.
-- Processing     run_processing of processing/main.py, with the life cycles of the pool
--                (warehouse/database/pool.py) and of the consumer.
-- Prelude        names that all of these share.
-- Tests          runs of the definitions, and the theorems at concrete inputs.
--
-- State. Warehouse.World has the four tables, the offsets that were committed, and a count of the
-- operations so far. A service is a function from a world to a result and a world, so what it wrote
-- before an exception is kept. What the code does not decide is asked of an environment, a
-- parameter of every service: whether the server refuses the next operation, the clock, the form in
-- which a column comes back, the order of texts in the database. A transaction takes effect as a
-- whole or not at all. Some theorems assume of the environment that texts come back as they were
-- stored. The JSON parser of the codec is a parameter of Ingestion. A connector is a record of its
-- fields and of what it did, with a log of what happened, in order; its surroundings (the network,
-- the other tasks, JSON) are a parameter, and another task's call of disconnect can happen wherever
-- the code awaits something. A source is handed to the producer's pipeline as a record of its
-- operations, and so is a preparer.
--
-- Bounds. Loops follow the lists that they run over. The retry loop of the Coinbase connector takes
-- as fuel the number of connections that it may read; Producer.Coinbase.Ending says how many are
-- enough. Its delays are whole numbers of a unit of time. Other fuel occurs in Python.Text and
-- Python.Decimal: to print a number and to count its digits it is at least the number, which is
-- enough (Python.Text.Printing, Python.Decimal.Digits); to strip the trailing zeros of a quotient
-- it is the number of its digits, of which every round drops one. Times are exact; Python's
-- floating point agrees with them for instants before the year 2242. The exponent limits of
-- `decimal` are left out, and so are the year limits of `datetime` but in Producer.Preparation.
--
-- Not modelled: the codec (pydantic's JSON) and the drivers, which are parameters; the choice of a
-- connector by name, signal handlers, command lines, configuration, the health server, and of
-- logging all but what it reads of an event in the engine. An error of the broker while a consumer
-- reads, the producer client's own retries, the constraints of the tables but their keys, and
-- migration files that cannot be read are left out.
pub mod Prelude
pub mod Python
pub mod Contracts
pub mod Validation
pub mod Warehouse
pub mod Trust
pub mod Ingestion
pub mod Aggregation
pub mod GoldService
pub mod Pipeline
pub mod Migrations
pub mod Producer
pub mod Processing
pub mod Tests
