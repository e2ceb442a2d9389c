-- ===== src/Batch.antt =====
-- The batches of chapters (novel_crawler/task_engine/chapter_batch.py).
pub mod Settings
pub mod Payload
pub mod Loop
pub mod Runner
pub mod Order
pub mod Passed
pub mod Saving
pub mod Upkeep
pub mod Steps
pub mod Complete
pub mod Result
mod Witness
