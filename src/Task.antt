-- ===== src/Task.antt =====
-- kernel/src/task.rs: tasks, the context switch and the round-robin scheduler.
pub mod State
pub mod Context
pub mod Scheduler
pub mod Samples
mod Tests
