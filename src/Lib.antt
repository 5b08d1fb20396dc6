-- ===== src/Lib.antt =====
-- A model of shortfire, a data platform that collects crypto market data from exchanges into
-- TimescaleDB, and the theorems that its ingest path and its domain types rest on.
--
-- The program reads candles, trades and other market data (src/shortfire/ingest), writes them
-- through one writer into hypertables, marks gaps, writes failures to a dead letter table, and
-- watches how old the data of each source is. Its domain types (src/shortfire/domain) validate on
-- construction.
--
-- Files and what they model:
--   Storage      src/shortfire/ingest/storage/copy.py, copy_into_hypertable. PostgreSQL is the
--                record `Database`: the statements that the code sends and what the documentation of
--                PostgreSQL says of each. Storage/Memory and Storage/Listed are instances
--                of it.
--   Domain       src/shortfire/domain: market.py in Domain/Market, trading.py in Domain/Trading,
--                risk.py in Domain/Risk. A model class is a record, its validators a function that
--                returns the value or raises ValidationError.
--   Rows         the tuples that are written to the tables of candles and of series.
--   Gap          src/shortfire/ingest/gap.py, flag_gap.
--   Mexc         src/shortfire/ingest/mexc: MinuteAggregator of live_candles.py in
--                Mexc/LiveCandles, trades_aggregator_loop in Mexc/LiveLoop, backfill_ohlcv and
--                backfill_funding of backfill.py in Mexc/Backfill and Mexc/Backfill/Fundings,
--                backfill_universe in Mexc/Backfill/Sweep,
--                oi_round_robin_step of oi.py in Mexc/OpenInterest, schemas.py in Mexc/Schemas and
--                the methods of client.py in Mexc/Client; streams.py in Mexc/Streams (the
--                watchdog and the tasks) and Mexc/Streams/Divergence; trades.py, orderbook.py,
--                funding.py and liquidations.py in the children of Mexc/Feeds, of the same names.
--   Retry        src/shortfire/ingest/retry.py: the three policies. Tenacity is the record
--                `Tenacity`; Retry/Structural is an instance of it.
--   Coinglass    src/shortfire/ingest/coinglass: schemas.py in Coinglass/Schemas, client.py in
--                Coinglass/Client, and in Coinglass/Fetchers the functions fetch_and_write of
--                funding_agg.py, oi.py, liq.py and lsr.py.
--   Coingecko    src/shortfire/ingest/coingecko: schemas.py, client.py and universe.py, the daily
--                write of the coins; fetch_coin_detail in Coingecko/Detail.
--   KvState      src/shortfire/ingest/state/kv_state.py. The table ingest_runs is the record
--                `RunTable`; KvState/Memory is an instance of it. KvState/Binds has the markers that
--                SQLAlchemy's text() binds; a statement with one that it does not bind raises.
--   Scheduler    src/shortfire/ingest/scheduler/jobs.py: the jobs of Coinglass and the poll of the
--                open interest, register_all_jobs in Scheduler/Registry, the jobs of the universe and
--                of CoinGecko in Scheduler/Daily, and the repair of gaps, which is called
--                mexc_candles_backfill_1d_job_callable, in Scheduler/GapRepair.
--   Universe     src/shortfire/ingest/universe: snapshot.py in Universe/Tickers (the filter),
--                Universe/Symbols (the updates of the table symbols) and Universe/Snapshot (the job and
--                the view at a day), tier1.py in Universe/Symbols. The two tables are the records
--                `Snapshots` and `SymbolTable`; Universe/Memory has an instance of each.
--   Freshness    src/shortfire/ingest/freshness/alerter.py, freshness_check_job; gauges.py in
--                Freshness/Gauges.
--   DeadLetter   src/shortfire/ingest/dead_letter/writer.py, write_to_dead_letter; alerter.py in
--                DeadLetter/Alerter, with its query as a function of the rows of the table. The
--                primary key is that of alembic/versions/0013_dead_letter_and_ingest_runs.py; an
--                ON CONFLICT whose columns are of no unique index raises, as PostgreSQL documents.
--   Observability  src/shortfire/observability: telegram.py and events.py. HTTP is the record `Http`;
--                `wire` of Observability/Delivery is an instance of it.
--   Timescale    src/shortfire/db/timescale.py: the part of Python's re that it uses in
--                Timescale/Patterns, with what a pattern means in Timescale/Matching; the validators and
--                the wrappers in Timescale/Statements. Alembic is the record `Operations`.
--   Settings     src/shortfire/settings: base.py and data_platform.py; the URL of
--                src/shortfire/db/engine.py in Settings/Engine.
--   Effects      the world that the loops run against: the tables, the dead letters, the gauges and
--                counters of the metrics, and the count of the requests that were sent.
--   Backup       src/shortfire/ingest/backup/pg_dump_r2.py: daily_pg_dump_to_r2 and the retention
--                sweep. The bucket is the record `Bucket`; Backup/Memory is an instance of it.
--   Prelude      helpers: tests, lists, keys, decimals, times, dicts, texts and results.
--
-- How the parts interact: the gap marker, the backfill, the aggregator loop and the dead letter
-- writer all call copy_into_hypertable, so their theorems are applications of those of Storage/Laws;
-- the loops set the gauges that the alerter reads. A job of the scheduler loads its cursor from
-- KvState, runs the fetchers of Coinglass or the step of the open interest, and calls the save.
-- The job of the universe takes the snapshot and then ranks the symbols of one table. The alerter of
-- the dead letters posts through Observability/Telegram. The watchdog of the streams reads the same
-- gauges as the alerter.
--
-- Representation. A Decimal is a whole number of units of 10^-18, without the rounding of a context.
-- A datetime is its microseconds since 1970 in UTC, with a flag for an attached zone where the code
-- tests it; times before 1970 and the rounding of timestamp() as a float are not modelled. An
-- exception is a value of `Error`. Log lines and sleeps are not modelled. The feeds are modelled as
-- one coroutine each. The backfills of a sweep share a table and run in turns: a run is the list of
-- the turns, one page of one symbol each, in any order; a semaphore only allows fewer of them. A
-- text that the code takes apart is the list of its code points, any other is a String.
--
-- Fuel. The `while` of flag_gap gets the end of the window in milliseconds: the cursor grows by at
-- least one in each round. The page loop of the backfill gets the length of the window in
-- milliseconds and one more; a task of a sweep needs at most as many turns.
--
-- Parameters, for code outside the repository: PostgreSQL, HTTP with its answers, JSON, the
-- validation of payloads by pydantic, tenacity, the clock and uuid4, the store of APScheduler, the
-- object store, pg_dump, and the exchange client.
--
-- Not modelled: entry points, logging, metrics and models, which configure libraries; the
-- migrations but for that key, which are SQL; the reading of the environment by pydantic-settings; what a caller of
-- the query of the dead letters sees of groups with equal counts, which SQL leaves open.
pub mod Prelude
pub mod Storage
pub mod Domain
pub mod Mexc
pub mod Rows
pub mod Gap
pub mod Freshness
pub mod DeadLetter
pub mod Effects
pub mod Retry
pub mod KvState
pub mod Scheduler
pub mod Backup
pub mod Universe
pub mod Coinglass
pub mod Coingecko
pub mod Timescale
pub mod Settings
pub mod Observability
