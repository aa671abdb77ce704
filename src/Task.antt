-- ===== src/Task.antt =====
-- src/value_stream/task: the task, its history of workflow events, and the routers.
pub mod Event
pub mod History
pub mod Delivery
pub mod Router
mod Examples
