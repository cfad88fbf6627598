-- ===== src/Persistence.antt =====
-- The persistence package (src/hibiki/persistence): rows, the database, sessions and transactions.
pub mod Models
pub mod Session
