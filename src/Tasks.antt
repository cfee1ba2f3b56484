-- ===== src/Tasks.antt =====
-- sandbox/extensions/task_engine: the queue of background tasks and its worker.
pub mod Rows
pub mod State
pub mod Queue
pub mod Chains
pub mod Subtasks
pub mod Review
pub mod Cleanup
pub mod Marker
pub mod Worker
pub mod Queries
pub mod Submission
pub mod Engine
mod Examples
