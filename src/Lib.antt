-- ===== src/Lib.antt =====
-- The crypto-collector: a service that collects cryptocurrency prices and candles from upstream
-- providers, paced across replicas, into a database, and serves them with aggregation.
--
-- Parts and files. Paths are those of the repository.
--   Interval: the candle intervals of src/models/interval.rs; their parsers are used by the candle
--     aggregation and the backfill.
--   Table: association lists for the tables of the database and the maps of the program.
--   Pacer: src/pacer/mod.rs. A row of upstream_request_pacer is a record; each statement on it is a
--     function on the row that may decline (reserve_row, reset_row, signal_row), and acquire_slot,
--     signal_cooldown and missing_pacer_rows act on the table. Pacer/Throttle is LocalThrottle.
--   Collectors/Lease, Collectors/Work: the lease columns that collection_queue and backfill_chunks
--     share, one function for each SQL statement of src/collectors/collection_queue.rs and
--     src/collectors/backfill.rs, on a row and on a table with any such rows.
--   Collectors/Queue: enqueue, completion and finalisation of src/collectors/collection_queue.rs.
--   Collectors/Backfill: the cursor, the finalisation and the jobs of src/collectors/backfill.rs.
--   Collectors/Retry: src/collectors/retry.rs.
--   Collectors/LeaseWorker: the loop of src/collectors/lease_worker.rs, over the claim, work and
--     finalise closures that the queue and the backfill give it.
--   Candles: src/api/candles_agg.rs; Decimal is a parameter with the laws of its order.
--   Snaps: the interval tables of src/providers/binance.rs, bitstamp.rs and coingecko.rs.
--   Collectors/Supervisor: run_supervised of src/collectors/mod.rs.
--   CycleOverlay: src/collectors/cycle_overlay.rs. Overlay is compute_overlay, Projection is
--     project_cycle_repeat, Series is the daily series and the rebuild of the table.
--   Collectors/LivePoller: src/collectors/live_poller.rs, the statements on tracked_coins and the
--     cycle that settles each claimed coin by the answer of the chain.
--   Api: the errors of src/api/mod.rs. Api/Cursor is src/api/cursor.rs with the read that the lists
--     share, Api/Lists the lists of src/api/coins.rs, quotes.rs and coin_market.rs, Api/Candles
--     list_candles of src/api/candles.rs, Api/PollInterval src/api/poll_interval.rs with
--     effective_candle_interval_secs of src/config.rs, Api/Coins the handlers of one coin in
--     src/api/coins.rs, Api/CycleOverlay src/api/cycle_overlay.rs.
--     Base64 and JSON are parameters that decode what they encode.
--   Database: Upserts are the candle upserts of src/db/upserts.rs, Metadata its metadata revisions and
--     their reader in src/api/metadata.rs, Coverage the index scan of src/db/candles.rs. The fuel of
--     the scan is the number of rows, which is at least the number of intervals.
--   Rollup: src/collectors/rollup.rs, which stores aggregated candles window by window; the database
--     of the walk is a state with a read and an upsert that may fail.
--   Attempts, Providers: the three fallback chains of src/providers/mod.rs. A provider is a record of
--     what it answers if it is called.
--   Alarm/Health, Alarm/Catalog, Alarm/Reconciler: src/alarm/registry.rs, src/alarm/catalog.rs and
--     src/alarm/reconciler.rs; the readings of a sweep are one record.
-- The workers acquire a slot of the pacer before a provider is called, claim a row of a work table,
-- and settle it by the classified result; the chains poke the health registry, and the reconciler
-- turns the registry and the rows of the pacer into alarms.
--
-- Numbers and bounds. Instants are nanoseconds since the epoch, as natural numbers; no instant before
-- the epoch is modelled, and no clock near the end of the range of DateTime. Signed durations are
-- integers. Counters of 32 bits (attempts, failure streaks) are taken to stay below their bound,
-- except where a modulus is written out. A clock reading of a statement is an argument. The walk of a
-- backfill runs on fuel, and the number of instants of the window is enough; that of the rollup does
-- too, with the number of its windows and three.
--
-- Texts are strings where they are only compared, and lists of code points where they are parsed; case
-- and spaces are those of ASCII. Decimal has no division by zero here: a quotient by zero is whatever
-- the parameter answers, where the code panics. Rows of equal sort keys come in the order of their
-- insertion, where the database leaves it open; the session of the database is in UTC.
--
-- Not modelled: HTTP, SQL and JSON themselves, metrics and logs, the process startup, floating-point
-- statistics (src/collectors/cycle_projection.rs), the interleaving of the heartbeat task, the clients
-- of the providers, and the websocket.
pub mod Prelude
pub mod Interval
pub mod Table
pub mod Alarm
pub mod Attempts
pub mod Candles
pub mod Pacer
pub mod Collectors
pub mod Providers
pub mod Rollup
pub mod Snaps
pub mod CycleOverlay
pub mod Api
pub mod Database
pub mod Tests
