-- ===== src/Runtime.antt =====
-- rust/src/runtime: how the phases of a study are run.
pub mod Phase
