-- ===== src/Payments.antt =====
-- Payment reminders of orders.
pub mod Dates
pub mod Model
pub mod Derive
pub mod Repository
pub mod View
pub mod Save
pub mod Commands
pub mod Facts
pub mod Laws
pub mod Advice
pub mod Recorded
