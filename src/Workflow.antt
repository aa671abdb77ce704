-- ===== src/Workflow.antt =====
-- src/value_stream/workflow: the stores that tasks move through.
pub mod Sdlc
pub mod TaskStore
