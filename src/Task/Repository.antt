-- ===== src/Task/Repository.antt =====
-- novel_crawler/task_engine/repository.py: the methods of `TaskRepository`.
mod Tasks
mod Cleanup
mod Interaction
mod Checkpoints
unfoldable pub use Tasks.*
unfoldable pub use Cleanup.*
unfoldable pub use Interaction.*
unfoldable pub use Checkpoints.*
