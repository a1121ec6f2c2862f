-- ===== src/Tests.antt =====
-- A life of one order, run by the commands, and each theorem at a point of it.
pub mod Life
pub mod Orders
pub mod Printing
pub mod Switch
pub mod Pausing
pub mod Payments
pub mod Corrections
pub mod System
pub mod CashLibrary
pub mod Courier
pub mod ManualTasks
pub mod Offers
