-- ===== src/Collectors.antt =====
-- The workers of collectors/: the lease columns that both work tables share, the collection queue,
-- the backfill chunks, the retry bounds and the supervisor.
pub mod Lease
pub mod Retry
pub mod Work
pub mod LeaseWorker
pub mod Queue
pub mod Backfill
pub mod Supervisor
pub mod LivePoller
