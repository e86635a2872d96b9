-- ===== src/Worker.antt =====
-- app/pkg/worker: the registry of job handlers, the worker pool and its backoff; and the retry
-- scheduler of app/service/worker_service.go.
pub mod Backoff
pub mod Registry
pub mod Pool
pub mod Scheduler
pub mod System
pub mod Retry
pub mod Lifecycle
pub mod Drain
pub mod JobPool
pub mod Client
