-- ===== src/Service.antt =====
-- src/value_stream/service: the HTTP service that runs simulation jobs.
pub mod Schemas
pub mod Settings
pub mod JobStore
pub mod Scheduler
