-- ===== src/Worker.antt =====
-- src/Worker: the threads beside the server's own.
pub mod ThreadPool
pub mod SnapshotScheduler
pub mod UserSessionBackgroundWorker
pub mod Background
