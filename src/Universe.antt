-- ===== src/Universe.antt =====
-- ingest/universe/snapshot.py and ingest/universe/tier1.py: the daily snapshot of the tickers, the
-- list of symbols that is kept by it, and the choice of the first tier.
pub mod Tickers
pub mod Symbols
pub mod Snapshot
pub mod Diff
pub mod History
pub mod Listing
pub mod Missed
pub mod Tiers
pub mod Memory
mod Tests
