-- ===== src/Concurrency.antt =====
-- src/infrastructure/concurrency.
pub mod Semaphore
pub mod WorkerThreadPool
