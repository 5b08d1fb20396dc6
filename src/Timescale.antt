-- ===== src/Timescale.antt =====
-- src/shortfire/db/timescale.py: the wrappers that the migrations use for TimescaleDB.
pub mod Patterns
pub mod Statements
mod Matching
pub mod Accepts
pub mod Guards
mod Tests
