-- ===== src/Processing.antt =====
-- src/application/use-cases: the processing of a claimed job.
pub mod Ports
pub mod Progress
pub mod Returns
pub mod Keeps
pub mod ImportFile
pub mod Store
