-- ===== src/Task/Checks.antt =====
-- novel_crawler/task_engine/repository.py: the validation of arguments.
mod Sensitive
mod Inputs
unfoldable pub use Sensitive.*
unfoldable pub use Inputs.*
