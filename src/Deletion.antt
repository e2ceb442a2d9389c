-- ===== src/Deletion.antt =====
-- The deletion of books (novel_crawler/core/storage.py).
pub mod Paths
pub mod Manifest
pub mod Disk
pub mod Safe
pub mod Jobs
pub mod Process
pub mod Table
pub mod Reports
pub mod Removal
pub mod Gone
pub mod Inside
pub mod Books
pub mod Atomic
mod Witness
