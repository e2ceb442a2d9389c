-- ===== src/Executor.antt =====
-- The background executor of tasks (novel_crawler/task_engine/executor.py).
pub mod State
pub mod Schedule
pub mod Worker
pub mod Counts
pub mod Steps
pub mod Workers
pub mod Runs
pub mod Submit
pub mod Requests
pub mod Cancel
pub mod Claiming
pub mod Failure
pub mod Notes
pub mod Resume
pub mod Entering
pub mod Rollback
pub mod Settled
pub mod Handling
pub mod Turns
mod Witness
mod Handlers
