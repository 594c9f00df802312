-- ===== src/Runtime/Phase.antt =====
-- `run_phase_inner` of rust/src/runtime/execution/phase.rs: the loop that admits the tasks of a
-- phase and collects what their workers return. Clocks, cancellation, leases, workers and the
-- presentation answer by all that was asked before.
pub mod Reaping
pub mod Invariant
pub mod Rounds
pub mod Genuine
pub mod Account
pub mod Completed
pub mod Success
pub mod Tests
use scientific_workflow.Prelude.{
  ℕ, zero, suc, ◌+◌, ◌-◌, Bool, true, false, not, ◌&&◌, ◌||◌, Option, none, some, is_none, is_some,
  ltb, leb, if◌then◌else◌, Result, ok, err, List, [], ◌∷◌, ◌++◌, length, map,
}
use scientific_workflow.Prelude.Texts.{Text}
use scientific_workflow.Prelude.Runs.{Run, ◌>>=◌, ◌>>◌, pure, fail}
use scientific_workflow.Config.Manifest.{FailurePolicy, fail_fast, finish_all}

pub record StudyTask : Type 0 where
  pub active : Bool
  pub identity : Text
  pub output_ordinal : ℕ
  pub timeout : Option ℕ

pub record StudyPhase : Type 0 where
  pub name : Text
  pub tasks : List StudyTask
  pub max_concurrency : ℕ
  pub start_interval : ℕ
  pub timeout : Option ℕ
  pub failure_policy : FailurePolicy

-- `Fault` stands for all errors that this loop passes on.
pub data RuntimeError (Fault : Type 0) : Type 0 where
  execution_cancelled : RuntimeError Fault
  phase_timed_out : (phase : Text) (timeout : ℕ) → RuntimeError Fault
  task_timed_out : (task : Text) (timeout : ℕ) → RuntimeError Fault
  task_panicked task_cancelled : (task : Text) → RuntimeError Fault
  fault : Fault → RuntimeError Fault

pub data Event : Type 0 where
  published_allocations asked_cancellation asked_scheduler asked_time asked_paused slept : Event
  tried_resources spawned asked_finished joined : (ordinal : ℕ) → Event
  published_completed published_cancelled published_failed : (ordinal : ℕ) → Event

pub record TaskWorkerOutcome (Fault Summary : Type 0) : Type 0 where
  pub finished : ℕ
  pub result : Result (RuntimeError Fault) Summary

-- A join that gives none is of a worker that panicked.
pub record World (Fault Summary : Type 0) : Type 0 where
  pub publish : Event → List Event → Result (RuntimeError Fault) (Unit {0})
  pub cancellation_requested : List Event → Result (RuntimeError Fault) Bool
  pub scheduler_cancelled : List Event → Bool
  pub now : List Event → ℕ
  pub paused : List Event → Bool
  pub try_acquire : StudyTask → List Event → Bool
  pub spawn_task : StudyTask → List Event → Result (RuntimeError Fault) ℕ
  pub is_finished : StudyTask → List Event → Bool
  pub join : StudyTask → List Event → Option (TaskWorkerOutcome Fault Summary)

pub record ActiveTask : Type 0 where
  pub task : StudyTask
  pub cancellation : Bool
  pub started : ℕ

pub record Scheduler (Fault Summary : Type 0) : Type 0 where
  pub pending : List StudyTask
  pub active : List ActiveTask
  pub completed : List (ℕ × Summary)
  pub next_admission : ℕ
  pub first_error : Option (RuntimeError Fault)
  pub timed_out : Bool
  pub cancelled : Bool

abbrev pub is_empty : {A : Type 0} → List A → Bool
is_empty [] = true
is_empty (x ∷ xs) = false

abbrev pub is_fail_fast : FailurePolicy → Bool
is_fail_fast fail_fast = true
is_fail_fast finish_all = false

abbrev pub cancel_task : ActiveTask → ActiveTask
cancel_task a = record a { cancellation = true }

unfoldable pub cancel_all : List ActiveTask → List ActiveTask
cancel_all [] = []
cancel_all (a ∷ active) = cancel_task a ∷ cancel_all active

-- `Instant::saturating_duration_since` against a timeout.
unfoldable pub task_exceeded_timeout : ℕ → ℕ → ℕ → Bool
task_exceeded_timeout started finished timeout = leb timeout (finished - started)

abbrev pub exceeded : ℕ → ℕ → Option ℕ → Bool
unfolding task_exceeded_timeout
exceeded started finished none = false
exceeded started finished (some timeout) = task_exceeded_timeout started finished timeout

abbrev pub or_first : {E : Type 0} → Option E → E → Option E
or_first none error = some error
or_first (some first) error = some first

abbrev pub or_zero : Option ℕ → ℕ
or_zero none = 0
or_zero (some n) = n

abbrev pub split_last : ActiveTask → List ActiveTask → List ActiveTask × ActiveTask
split_last a [] = ([], a)
split_last a (b ∷ rest) = (a ∷ (split_last b rest).0, (split_last b rest).1)

abbrev pub last_to_front : List ActiveTask → List ActiveTask
last_to_front [] = []
last_to_front (a ∷ rest) = (split_last a rest).1 ∷ (split_last a rest).0

abbrev pub put_back :
    ActiveTask → Option (ActiveTask × List ActiveTask) → Option (ActiveTask × List ActiveTask)
put_back b none = none
put_back b (some (a, rest)) = some (a, b ∷ rest)

-- `Vec::swap_remove`: the last one takes the place.
unfoldable pub swap_remove : ℕ → List ActiveTask → Option (ActiveTask × List ActiveTask)
swap_remove position [] = none
swap_remove zero (a ∷ rest) = some (a, last_to_front rest)
swap_remove (suc position) (b ∷ rest) = put_back b (swap_remove position rest)

-- `sort_by_key`, which keeps the order of equal keys.
unfoldable pub insert_by_ordinal : {A : Type 0} → ℕ × A → List (ℕ × A) → List (ℕ × A)
insert_by_ordinal c [] = c ∷ []
insert_by_ordinal c (d ∷ sorted) =
    if leb c.0 d.0 then c ∷ d ∷ sorted else d ∷ insert_by_ordinal c sorted

unfoldable pub sort_by_ordinal : {A : Type 0} → List (ℕ × A) → List (ℕ × A)
unfolding insert_by_ordinal
sort_by_ordinal [] = []
sort_by_ordinal (c ∷ completed) = insert_by_ordinal c (sort_by_ordinal completed)

module _ {Fault Summary : Type 0} where
  -- Pending tasks are dropped, and the active ones told to stop.
  unfoldable pub stop_all : Scheduler Fault Summary → Scheduler Fault Summary
  unfolding cancel_all
  stop_all s = record s { pending = []; active = cancel_all s.active }

  unfoldable pub may_admit : StudyPhase → Bool → Scheduler Fault Summary → Bool
  may_admit phase paused s =
      not paused
      && (not s.timed_out
          && (not s.cancelled
              && (is_none s.first_error || not (is_fail_fast phase.failure_policy))))

-- A question of the environment is put on the trace.
abbrev pub ask : {E A : Type 0} → Event → (List Event → A) → Run Event E A
ask event answer t = (ok (answer t), event ∷ t)

abbrev pub ask_or_fail : {E A : Type 0} → Event → (List Event → Result E A) → Run Event E A
ask_or_fail event answer t = (answer t, event ∷ t)

module _ {Fault Summary : Type 0} (world : World Fault Summary) (phase : StudyPhase) where
  abbrev pub Running : Type 0 → Type 0
  Running A = Run Event (RuntimeError Fault) A

  abbrev pub publish : Event → Running (Unit {0})
  publish event = ask_or_fail event (world.publish event)

  unfoldable pub poll_cancellation : Scheduler Fault Summary → Running (Scheduler Fault Summary)
  unfolding stop_all
  poll_cancellation s = do
    requested ← ask_or_fail asked_cancellation world.cancellation_requested
    wanted ← if requested then pure true else ask asked_scheduler world.scheduler_cancelled
    pure (if wanted && not s.cancelled then record (stop_all s) { cancelled = true } else s)

  unfoldable pub any_running : List ActiveTask → Running Bool
  any_running [] = pure false
  any_running (a ∷ active) = do
    finished ← ask (asked_finished a.task.output_ordinal) (world.is_finished a.task)
    if finished then any_running active else pure true

  unfoldable pub is_waiting : Scheduler Fault Summary → Running Bool
  unfolding any_running
  is_waiting s = if is_empty s.pending then any_running s.active else pure true

  unfoldable pub poll_timeout : ℕ → Scheduler Fault Summary → Running (Scheduler Fault Summary)
  unfolding stop_all is_waiting task_exceeded_timeout
  poll_timeout phase_started s = elim phase.timeout [
    | none ↦ pure s
    | some timeout ↦ do
      clock ← ask asked_time world.now
      waiting ←
          if task_exceeded_timeout phase_started clock timeout then is_waiting s else pure false
      pure (if waiting then record (stop_all s) { timed_out = true } else s)
  ]

  abbrev pub started_task : StudyTask → ℕ → ActiveTask
  started_task task started = record { task = task; cancellation = false; started = started }

  -- The inner loop over the queue `pending`; the scheduler's own queue is set when it ends.
  unfoldable pub admit_tasks :
      List StudyTask → Scheduler Fault Summary → Running (Scheduler Fault Summary)
  unfolding stop_all
  admit_tasks [] s = do paused ← ask asked_paused world.paused; pure (record s { pending = [] })
  admit_tasks (task ∷ pending) s = do
    let stopped = record s { pending = task ∷ pending }
    paused ← ask asked_paused world.paused
    if paused || not (ltb (length s.active) phase.max_concurrency) then pure stopped else do
      clock ← ask asked_time world.now
      if ltb clock s.next_admission then pure stopped else do
        granted ← ask (tried_resources task.output_ordinal) (world.try_acquire task)
        if not granted then pure stopped else do
          started ← ask (spawned task.output_ordinal) (world.spawn_task task)
          elim started [
            | err error ↦ pure (record (stop_all s) { first_error = some error })
            | ok started_at ↦ do
              after ← ask asked_time world.now
              admit_tasks pending (record s {
                active = s.active ++ started_task task started_at ∷ [];
                next_admission = after + phase.start_interval;
              })
          ]

  -- A task that has run too long is told to stop.
  unfoldable pub flag_timeout : ActiveTask → Running ActiveTask
  unfolding task_exceeded_timeout
  flag_timeout a = elim a.task.timeout [
    | none ↦ pure a
    | some timeout ↦ do
      clock ← ask asked_time world.now
      if not (task_exceeded_timeout a.started clock timeout) then pure a else do
        finished ← ask (asked_finished a.task.output_ordinal) (world.is_finished a.task)
        pure (if finished then a else cancel_task a)
  ]

  unfoldable pub flag_timeouts : List ActiveTask → Running (List ActiveTask)
  unfolding flag_timeout
  flag_timeouts [] = pure []
  flag_timeouts (a ∷ active) = do
    flagged ← flag_timeout a
    rest ← flag_timeouts active
    pure (flagged ∷ rest)

  -- What a worker returned, after the limit on its time.
  unfoldable pub task_result :
      ActiveTask → TaskWorkerOutcome Fault Summary → Result (RuntimeError Fault) Summary
  unfolding task_exceeded_timeout
  task_result a outcome = elim a.task.timeout [
    | none ↦ outcome.result
    | some timeout ↦
        if task_exceeded_timeout a.started outcome.finished timeout
        then err (task_timed_out a.task.identity timeout)
        else outcome.result
  ]

  unfoldable pub join_task : ActiveTask → Running (TaskWorkerOutcome Fault Summary)
  join_task a = do
    joined_outcome ← ask (joined a.task.output_ordinal) (world.join a.task)
    elim joined_outcome [
      | some outcome ↦ pure outcome
      | none ↦ do
        clock ← ask asked_time world.now
        pure (record { finished = clock; result = err (task_panicked a.task.identity) })
    ]

  abbrev pub failure_event : RuntimeError Fault → ℕ → Event
  failure_event execution_cancelled ordinal = published_failed ordinal
  failure_event (phase_timed_out name timeout) ordinal = published_failed ordinal
  failure_event (task_timed_out task timeout) ordinal = published_failed ordinal
  failure_event (task_panicked task) ordinal = published_failed ordinal
  failure_event (task_cancelled task) ordinal = published_cancelled ordinal
  failure_event (fault e) ordinal = published_failed ordinal

  -- The scheduler, the task no longer among its active ones, after the task's result.
  unfoldable pub settle_task :
      ActiveTask
      → Result (RuntimeError Fault) Summary
      → Scheduler Fault Summary
      → Running (Scheduler Fault Summary)
  unfolding stop_all
  settle_task a (ok summary) s = do
    publish (published_completed a.task.output_ordinal)
    pure (record s { completed = s.completed ++ (a.task.output_ordinal, summary) ∷ [] })
  settle_task a (err error) s = do
    publish (failure_event error a.task.output_ordinal)
    let failed = record s { first_error = or_first s.first_error error }
    pure (if is_fail_fast phase.failure_policy then stop_all failed else failed)

  -- One look at the worker at `position`; the next position, and the scheduler.
  unfoldable pub reap_one : ℕ → Scheduler Fault Summary → Running (ℕ × Scheduler Fault Summary)
  unfolding swap_remove join_task task_result settle_task
  reap_one position s = elim (swap_remove position s.active) [
    | none ↦ pure (position, s)
    | some (a, active) ↦ do
      finished ← ask (asked_finished a.task.output_ordinal) (world.is_finished a.task)
      if not finished then pure (position + 1, s) else do
        outcome ← join_task a
        settled ← settle_task a (task_result a outcome) (record s { active = active })
        pure (position, settled)
  ]

  -- The loop over the positions: each round moves on or takes a task away, so that there are as
  -- many rounds as active tasks.
  unfoldable pub reap : ℕ → ℕ → Scheduler Fault Summary → Running (Scheduler Fault Summary)
  unfolding reap_one
  reap zero position s = pure s
  reap (suc count) position s = do next ← reap_one position s; reap count next.0 next.1

  -- Tasks are left, and no worker has finished.
  unfoldable pub all_running : List ActiveTask → Running Bool
  all_running [] = pure true
  all_running (a ∷ active) = do
    finished ← ask (asked_finished a.task.output_ordinal) (world.is_finished a.task)
    if finished then pure false else all_running active

  unfoldable pub is_idle : Scheduler Fault Summary → Running Bool
  unfolding all_running
  is_idle s = if is_empty s.pending && is_empty s.active then pure false else all_running s.active

  -- One round of the scheduler's loop.
  unfoldable pub schedule_round : ℕ → Scheduler Fault Summary → Running (Scheduler Fault Summary)
  unfolding poll_cancellation poll_timeout may_admit admit_tasks flag_timeouts reap is_idle
  schedule_round phase_started s = do
    publish published_allocations
    polled ← poll_cancellation s
    timed ← poll_timeout phase_started polled
    paused ← ask asked_paused world.paused
    admitted ← if may_admit phase paused timed then admit_tasks timed.pending timed else pure timed
    active ← flag_timeouts admitted.active
    reaped ← reap (length active) 0 (record admitted { active = active })
    idle ← is_idle reaped
    if idle then ask slept (λ t. tt) else pure tt
    pure reaped

  -- none: the rounds that were given are over.
  unfoldable pub schedule_rounds :
      ℕ → ℕ → Scheduler Fault Summary → Running (Option (Scheduler Fault Summary))
  unfolding schedule_round
  schedule_rounds zero phase_started s = pure none
  schedule_rounds (suc fuel) phase_started s =
      if is_empty s.pending && is_empty s.active
      then pure (some s)
      else do next ← schedule_round phase_started s; schedule_rounds fuel phase_started next

  unfoldable pub summarize : Scheduler Fault Summary → Running (List Summary)
  unfolding sort_by_ordinal
  summarize s = do
    publish published_allocations
    if s.cancelled then fail execution_cancelled else pure tt
    if s.timed_out then fail (phase_timed_out phase.name (or_zero phase.timeout)) else pure tt
    elim s.first_error [
      | some error ↦ fail error
      | none ↦ pure (map (λ (c : ℕ × Summary). c.1) (sort_by_ordinal s.completed))
    ]

  unfoldable pub active_tasks : List StudyTask → List StudyTask
  active_tasks [] = []
  active_tasks (task ∷ tasks) =
      if task.active then task ∷ active_tasks tasks else active_tasks tasks

  unfoldable pub new_scheduler : ℕ → Scheduler Fault Summary
  unfolding active_tasks
  new_scheduler phase_started = record {
    pending = active_tasks phase.tasks;
    active = [];
    completed = [];
    next_admission = phase_started;
    first_error = none;
    timed_out = false;
    cancelled = false;
  }

  unfoldable pub run_phase : ℕ → Running (Option (List Summary))
  unfolding new_scheduler schedule_rounds summarize
  run_phase fuel = do
    phase_started ← ask asked_time world.now
    ended ← schedule_rounds fuel phase_started (new_scheduler phase_started)
    elim ended [ none ↦ pure none | some s ↦ do summaries ← summarize s; pure (some summaries) ]
