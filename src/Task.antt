-- ===== src/Task.antt =====
-- rust/src/task: execution units and how one task drives them.
pub mod Execution
pub mod Driver
