-- ===== src/App.antt =====
-- src/value_stream/app: workspaces, their runs, and how a run is driven.
pub mod Settings
pub mod Schemas
pub mod Storage
pub mod Coordinator
pub mod Generation
pub mod Metrics
