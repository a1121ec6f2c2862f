-- ===== src/Orders.antt =====
-- The order aggregate: its records, the repository that stores it and the service that creates it.
pub mod Model
pub mod Repository
pub mod Context
pub mod Service
pub mod Proposal
pub mod Commands
pub mod Candidate
