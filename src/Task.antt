-- ===== src/Task.antt =====
-- src/task/: the parts of the cooperative executor.
pub mod Keyboard
pub mod Executor
pub mod Shell
pub mod Sleep
