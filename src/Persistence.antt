-- ===== src/Persistence.antt =====
-- rust/src/persistence/local/queued_state_writer.rs: the queue before the worker, and the sinks
-- behind it.
pub mod Records
pub mod Queue
pub mod Sink
