-- ===== src/Storage.antt =====
-- src/infrastructure/storage, src/infrastructure/streaming and the sweeper of src/worker: files.
pub mod Disk
pub mod Sweep
pub mod CountLines
