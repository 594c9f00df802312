-- ===== src/Persistence/Queue/Tests.antt =====
-- A recording with one stream of ten bytes: two records of four bytes, the first one taken.
use scientific_workflow.Prelude.{ℕ, ◌≤◌, ◌≡◌, ◌≢◌, refl, none, some, ok, [], ◌∷◌, ◌++◌, length}
use scientific_workflow.Prelude.Texts.{text}
use scientific_workflow.Persistence.Records.{EncodedStateRecord}
use scientific_workflow.Persistence.Queue.{
  max_outstanding_records, Work, StreamQueueState, QueueState, admitted, blocked, crashed, taken,
  new_queue, queue_streams, ensure_accepting, check_record, admit_record, attempt, submit_record,
  next_work,
}
use scientific_workflow.Persistence.Queue.Capacity.{pending, load}
use scientific_workflow.Persistence.Queue.History.{
  Trace, opened, submitted, took, Trace-bounds, attempt-ne-blocked,
}
use scientific_workflow.Persistence.Queue.Order.{Trace-fifo}

abbrev record_at : ℕ → EncodedStateRecord
record_at n = record { iteration = n; bytes = 1 ∷ 2 ∷ 3 ∷ 4 ∷ [] }

abbrev work_at : ℕ → Work
work_at n = record { stream = text "a"; record_ = record_at n; bytes = 4 }

abbrev fresh : QueueState ℕ
fresh = new_queue ((text "a", 10) ∷ [])

abbrev slot_after : ℕ → ℕ → StreamQueueState
slot_after bytes n = record {
  queue_bytes = 10;
  outstanding_bytes = bytes;
  last_accepted_iteration = some n;
}

abbrev slot_new : StreamQueueState
slot_new = record { queue_bytes = 10; outstanding_bytes = 0; last_accepted_iteration = none }

abbrev one_queued : QueueState ℕ
one_queued = admit_record (text "a") (record_at 1) slot_new fresh

abbrev two_queued : QueueState ℕ
two_queued = admit_record (text "a") (record_at 2) (slot_after 4 1) one_queued

abbrev one_taken : QueueState ℕ
one_taken = record two_queued { queue = work_at 2 ∷ [] }

first_admitted : attempt (text "a") (record_at 1) fresh ≡ admitted one_queued
unfolding attempt ensure_accepting new_queue queue_streams admit_record
first_admitted = refl

second_admitted : attempt (text "a") (record_at 2) one_queued ≡ admitted two_queued
unfolding attempt ensure_accepting new_queue queue_streams admit_record
second_admitted = refl

third_blocked : submit_record (text "a") (record_at 3) two_queued ≡ blocked
unfolding submit_record check_record attempt ensure_accepting new_queue queue_streams admit_record
third_blocked = refl

first_taken : next_work two_queued ≡ taken (work_at 1) one_taken
unfolding next_work new_queue queue_streams admit_record
first_taken = refl

trace_two : Trace two_queued none (work_at 1 ∷ work_at 2 ∷ []) []
trace_two =
    submitted (text "a") (record_at 2) one_queued two_queued none (work_at 1 ∷ []) []
      second_admitted
      (submitted (text "a") (record_at 1) fresh one_queued none [] [] first_admitted
        (opened ((text "a", 10) ∷ [])))

trace_taken : Trace one_taken (some (work_at 1)) (work_at 1 ∷ work_at 2 ∷ []) (work_at 1 ∷ [])
trace_taken =
    took two_queued one_taken (work_at 1) (work_at 1 ∷ work_at 2 ∷ []) [] first_taken trace_two

registered : one_taken.streams (text "a") ≡ some (slot_after 8 2)
unfolding admit_record
registered = refl

Trace-bounds_example :
    (one_taken.outstanding_records ≤ max_outstanding_records)
    × (one_taken.outstanding_records ≡ length (pending (some (work_at 1)) one_taken.queue))
    × ((slot_after 8 2).outstanding_bytes ≤ (slot_after 8 2).queue_bytes)
    × ((slot_after 8 2).outstanding_bytes
        ≡ load (text "a") (pending (some (work_at 1)) one_taken.queue))
Trace-bounds_example =
    Trace-bounds one_taken (some (work_at 1)) (work_at 1 ∷ work_at 2 ∷ []) (work_at 1 ∷ [])
      (text "a") (slot_after 8 2) trace_taken registered

fits_limit : check_record (text "a") (record_at 1) fresh ≡ ok tt
unfolding check_record new_queue queue_streams
fits_limit = refl

nothing_queued : fresh.queue ≡ []
unfolding new_queue
nothing_queued = refl

attempt-ne-blocked_example :
    (attempt (text "a") (record_at 1) fresh ≢ blocked)
    × (attempt (text "a") (record_at 1) fresh ≢ crashed)
attempt-ne-blocked_example =
    attempt-ne-blocked fresh [] [] (text "a") (record_at 1) (opened ((text "a", 10) ∷ []))
      nothing_queued fits_limit

not_failed : one_taken.terminal ≡ none
unfolding admit_record new_queue
not_failed = refl

Trace-fifo_example : work_at 1 ∷ work_at 2 ∷ [] ≡ (work_at 1 ∷ []) ++ one_taken.queue
Trace-fifo_example =
    Trace-fifo one_taken (some (work_at 1)) (work_at 1 ∷ work_at 2 ∷ []) (work_at 1 ∷ [])
      trace_taken not_failed
