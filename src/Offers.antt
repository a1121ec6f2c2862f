-- ===== src/Offers.antt =====
-- The commercial aggregate of an offer.
pub mod Model
pub mod Aggregate
pub mod Repository
pub mod Acceptance
pub mod Decided
pub mod Recording
pub mod Conversion
