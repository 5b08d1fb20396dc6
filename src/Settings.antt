-- ===== src/Settings.antt =====
-- src/shortfire/settings and the URL of src/shortfire/db/engine.py.
pub mod Base
pub mod DataPlatform
pub mod Engine
pub mod Hides
pub mod Schemes
mod Tests
