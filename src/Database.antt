-- ===== src/Database.antt =====
-- The PostgreSQL database behind the repositories.
pub mod Table
pub mod World
pub mod JobRepository
pub mod ImportRepository
pub mod TransactionRepository
pub mod ImportQuery
pub mod ImportFileRepository
pub mod ImportSummary
pub mod HealthCheck
pub mod Sample
