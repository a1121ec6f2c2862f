-- ===== src/Printing.antt =====
-- The print workflow: the repository of attempts, and the service that drives them.
pub mod Repository
pub mod Service
