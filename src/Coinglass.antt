-- ===== src/Coinglass.antt =====
-- The Coinglass ingest of ingest/coinglass/.
pub mod Schemas
pub mod Records
pub mod Client
pub mod Errors
pub mod Fetchers
pub mod Nulls
mod Tests
