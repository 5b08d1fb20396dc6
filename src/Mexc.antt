-- ===== src/Mexc.antt =====
-- The MEXC ingest of ingest/mexc/.
pub mod LiveCandles
pub mod LiveLoop
pub mod Backfill
pub mod OpenInterest
pub mod Schemas
pub mod Client
pub mod Streams
pub mod Feeds
