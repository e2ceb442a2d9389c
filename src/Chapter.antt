-- ===== src/Chapter.antt =====
-- The chapters of the content store (novel_crawler/core/storage.py).
pub mod Rows
pub mod Claims
pub mod Done
pub mod Reading
pub mod Table
pub mod Fencing
pub mod Claimed
pub mod Content
pub mod Calls
pub mod Open
pub mod Closed
mod Witness
