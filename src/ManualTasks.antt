-- ===== src/ManualTasks.antt =====
-- The tasks that employees note for the office.
pub mod Model
pub mod Service
pub mod Order
pub mod Validated
pub mod Kept
pub mod Laws
