-- ===== src/Courier.antt =====
-- The cash that a courier collects, from the customer to the office.
pub mod Model
pub mod Journal
pub mod Context
pub mod Service
pub mod Codec
pub mod Answer
