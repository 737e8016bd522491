-- ===== src/Worker.antt =====
-- src/worker and src/shutdown: the loop that polls for jobs, and the end of a process.
pub mod Poller
pub mod Shutdown
