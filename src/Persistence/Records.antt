-- ===== src/Persistence/Records.antt =====
-- Records and errors of rust/src/persistence/local/queued_state_writer.rs.
use scientific_workflow.Prelude.{ℕ, List, length}
use scientific_workflow.Prelude.Texts.{Text}

abbrev pub Bytes : Type 0
Bytes = List ℕ

pub record EncodedStateRecord : Type 0 where
  pub iteration : ℕ
  pub bytes : Bytes

-- `Fault` stands for the errors of the file system and of the recording's manifest.
pub data PersistenceError (Fault : Type 0) : Type 0 where
  byte_count_overflow unknown_state_stream : Text → PersistenceError Fault
  record_too_large out_of_order_iteration : Text → ℕ → ℕ → PersistenceError Fault
  state_writer_closed state_writer_panicked writer_queue_disconnected : PersistenceError Fault
  state_writer_terminated : PersistenceError Fault → PersistenceError Fault
  -- `debug_assertion` is a failed `debug_assert!` or `expect`.
  recording_directory_exists debug_assertion : PersistenceError Fault
  fault : Fault → PersistenceError Fault

abbrev pub u64_bound : ℕ
u64_bound = 18446744073709551616

abbrev pub len : EncodedStateRecord → ℕ
len record_ = length record_.bytes
