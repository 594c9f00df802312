-- ===== src/Persistence/Queue.antt =====
-- The queue of rust/src/persistence/local/queued_state_writer.rs, which every stream of a
-- recording shares. Each function is one critical section of the mutex; a wait on a condition
-- variable ends it. The map of the streams is a function from their names.
pub mod Capacity
pub mod History
pub mod Order
pub mod Tests
use scientific_workflow.Prelude.{
  ℕ, ◌+◌, ◌-◌, Bool, true, false, not, ◌&&◌, Option, none, some, is_some, ltb, leb, if◌then◌else◌,
  Result, ok, err, List, [], ◌∷◌, ◌++◌, ◌>>=◌, ◌>>◌,
}
use scientific_workflow.Prelude.Texts.{Text, text_eq}
use scientific_workflow.Prelude.Ascending.{is_late}
use scientific_workflow.Persistence.Records.{
  EncodedStateRecord, PersistenceError, byte_count_overflow, unknown_state_stream, record_too_large,
  out_of_order_iteration, state_writer_closed, writer_queue_disconnected, state_writer_terminated,
  u64_bound, len,
}

abbrev pub max_outstanding_records : ℕ
max_outstanding_records = 1024

pub record Work : Type 0 where
  pub stream : Text
  pub record_ : EncodedStateRecord
  pub bytes : ℕ

pub record StreamQueueState : Type 0 where
  pub queue_bytes : ℕ
  pub outstanding_bytes : ℕ
  pub last_accepted_iteration : Option ℕ

abbrev pub Streams : Type 0
Streams = Text → Option StreamQueueState

pub record QueueState (Fault : Type 0) : Type 0 where
  pub queue : List Work
  pub outstanding_records : ℕ
  pub streams : Streams
  pub accepting : Bool
  pub terminal : Option (PersistenceError Fault)
  pub finished : Bool

-- `crashed` is a failed `expect` or an underflow.
pub data Submission (State Error : Type 0) : Type 0 where
  refused : Error → Submission State Error
  admitted : State → Submission State Error
  blocked crashed : Submission State Error

pub data NextWork (State : Type 0) : Type 0 where
  taken : Work → State → NextWork State
  ended waiting : NextWork State

abbrev pub insert : Text → StreamQueueState → Streams → Streams
insert name s streams other = if text_eq name other then some s else streams other

-- The streams of `spawn`; a name that comes twice keeps the later limit.
unfoldable pub queue_streams : List (Text × ℕ) → Streams → Streams
queue_streams [] streams = streams
queue_streams ((name, queue_bytes) ∷ configs) streams = queue_streams configs (
    insert name
      (record { queue_bytes = queue_bytes; outstanding_bytes = 0; last_accepted_iteration = none })
      streams)

abbrev pub fits : ℕ → StreamQueueState → Bool
fits bytes s =
    ltb (s.outstanding_bytes + bytes) u64_bound && leb (s.outstanding_bytes + bytes) s.queue_bytes

abbrev pub previous_or : Option ℕ → ℕ
previous_or none = 0
previous_or (some previous) = previous

abbrev pub emptied : Option StreamQueueState → Option StreamQueueState
emptied none = none
emptied (some s) = some (record s { outstanding_bytes = 0 })

module _ {Fault : Type 0} where
  unfoldable pub new_queue : List (Text × ℕ) → QueueState Fault
  new_queue configs = record {
    queue = [];
    outstanding_records = 0;
    streams = queue_streams configs (λ name. none);
    accepting = true;
    terminal = none;
    finished = false;
  }

  unfoldable pub ensure_accepting : QueueState Fault → Result (PersistenceError Fault) (Unit {0})
  ensure_accepting state = elim state.terminal [
    | some source ↦ err (state_writer_terminated source)
    | none ↦ if state.accepting then ok tt else err state_writer_closed
  ]

  -- The checks before the loop of `submit_record`; the limit of a stream never changes.
  unfoldable pub check_record :
      Text → EncodedStateRecord → QueueState Fault → Result (PersistenceError Fault) (Unit {0})
  check_record stream r state =
      if not (ltb (len r) u64_bound)
      then err (byte_count_overflow stream)
      else elim (state.streams stream) [
        | none ↦ err (unknown_state_stream stream)
        | some s ↦
            if ltb s.queue_bytes (len r)
            then err (record_too_large stream (len r) s.queue_bytes)
            else ok tt
      ]

  unfoldable pub admit_record :
      Text → EncodedStateRecord → StreamQueueState → QueueState Fault → QueueState Fault
  admit_record stream r s state = record state {
    outstanding_records = state.outstanding_records + 1;
    streams =
        insert stream
          (record s {
            outstanding_bytes = s.outstanding_bytes + len r;
            last_accepted_iteration = some r.iteration;
          })
          state.streams;
    queue = state.queue ++ record { stream = stream; record_ = r; bytes = len r } ∷ [];
  }

  -- One round of the loop of `submit_record`.
  unfoldable pub attempt :
      Text
      → EncodedStateRecord
      → QueueState Fault
      → Submission (QueueState Fault) (PersistenceError Fault)
  unfolding ensure_accepting
  attempt stream r state = elim (ensure_accepting state) [
    | err e ↦ refused e
    | ok _ ↦ elim (state.streams stream) [
      | none ↦ crashed
      | some s ↦
          if is_late r.iteration s.last_accepted_iteration
          then refused
              (out_of_order_iteration stream r.iteration (previous_or s.last_accepted_iteration))
          else if ltb state.outstanding_records max_outstanding_records && fits (len r) s
          then admitted (admit_record stream r s state)
          else blocked
    ]
  ]

  unfoldable pub submit_record :
      Text
      → EncodedStateRecord
      → QueueState Fault
      → Submission (QueueState Fault) (PersistenceError Fault)
  unfolding check_record
  submit_record stream r state = elim (check_record stream r state) [
    | err e ↦ refused e
    | ok _ ↦ attempt stream r state
  ]

  unfoldable pub next_work : QueueState Fault → NextWork (QueueState Fault)
  next_work state = elim state.queue [
    | work ∷ rest ↦ taken work (record state { queue = rest })
    | [] ↦ if state.accepting then waiting else ended
  ]

  -- none: an underflow, or a stream that is not registered.
  unfoldable pub release_capacity : Text → ℕ → QueueState Fault → Option (QueueState Fault)
  release_capacity stream bytes state = elim (state.streams stream) [
    | none ↦ none
    | some s ↦
        if ltb 0 state.outstanding_records && leb bytes s.outstanding_bytes
        then some (record state {
          outstanding_records = state.outstanding_records - 1;
          streams =
              insert stream (record s { outstanding_bytes = s.outstanding_bytes - bytes })
                state.streams;
        })
        else none
  ]

  unfoldable pub close_admission : QueueState Fault → QueueState Fault
  close_admission state = record state { accepting = false }

  -- What `worker_main` leaves when its loop has ended.
  unfoldable pub worker_result :
      Result (PersistenceError Fault) (Unit {0}) → QueueState Fault → QueueState Fault
  worker_result (ok _) state = record state { finished = true }
  worker_result (err e) state = record state {
    terminal = some e;
    accepting = false;
    queue = [];
    outstanding_records = 0;
    streams = λ name. emptied (state.streams name);
  }

  -- `finish_recording` after the worker has been joined.
  unfoldable pub finish_recording : QueueState Fault → Result (PersistenceError Fault) (Unit {0})
  finish_recording state = elim state.terminal [
    | some source ↦ err (state_writer_terminated source)
    | none ↦ if state.finished then ok tt else err writer_queue_disconnected
  ]
