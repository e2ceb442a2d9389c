-- ===== src/Task.antt =====
-- The durable background task engine (novel_crawler/task_engine).
pub mod Status
pub mod Values
pub mod Records
pub mod Python
pub mod Checks
pub mod Db
pub mod Repository
pub mod History
pub mod Tables
pub mod Advance
pub mod Steps
pub mod Calls
pub mod Effects
pub mod Refinement
pub mod Runs
pub mod Growth
pub mod Transition
pub mod Versions
pub mod Gate
pub mod Leases
pub mod Witness
pub mod Compare
