-- ===== src/Resources.antt =====
-- rust/src/runtime/resources: task admission and task-private compute pools.
pub mod Admission
pub mod Compute
