-- ===== src/Resources.antt =====
-- src/value_stream/resources: what is recorded of the resources.
pub mod Tracker
