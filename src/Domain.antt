-- ===== src/Domain.antt =====
-- The pure domain types of domain/: their fields and the checks that construction makes.
pub mod Market
pub mod Trading
pub mod Risk
mod Tests
