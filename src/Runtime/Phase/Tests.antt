-- ===== src/Runtime/Phase/Tests.antt =====
-- A small phase, for rust/src/runtime/execution/phase.rs: of three tasks one fails.
use scientific_workflow.Prelude.{
  All, map, Option, ℕ, ◌≡◌, refl, true, false, none, some, Result, ok, err, List, [], ◌∷◌, ◌==◌,
  if◌then◌else◌,
}
use scientific_workflow.Prelude.Members.{In}
use scientific_workflow.Prelude.Texts.{text}
use scientific_workflow.Config.Manifest.{fail_fast}
use scientific_workflow.Runtime.Phase.{
  schedule_rounds, summarize, run_phase, sort_by_ordinal, insert_by_ordinal, StudyTask, StudyPhase,
  RuntimeError, fault, Event, World, Scheduler, stop_all, may_admit, poll_cancellation,
  poll_timeout, admit_tasks, flag_timeout, flag_timeouts, task_result, join_task, settle_task,
  swap_remove, reap_one, reap, all_running, is_idle, schedule_round, active_tasks, new_scheduler,
}
use scientific_workflow.Runtime.Phase.Invariant.{IsSane}
use scientific_workflow.Runtime.Phase.Account.{of_tasks, of_completed}
use scientific_workflow.Runtime.Phase.Genuine.{IsGenuine}
use scientific_workflow.Runtime.Phase.Success.{IsSorted, run_phase_complete}
use scientific_workflow.Runtime.Phase.Rounds.{begun, then_round, Reaches-IsSane}

-- The workers of `bad` fail, the others return their ordinal.
abbrev world : ℕ → World (Unit {0}) ℕ
world bad = record {
  publish = λ event t. ok tt;
  cancellation_requested = λ t. ok false;
  scheduler_cancelled = λ t. false;
  now = λ t. 0;
  paused = λ t. false;
  try_acquire = λ task t. true;
  spawn_task = λ task t. ok 0;
  is_finished = λ task t. true;
  join = λ task t. some (record {
    finished = 1;
    result = if task.output_ordinal == bad then err (fault tt) else ok task.output_ordinal;
  });
}

abbrev task : ℕ → StudyTask
task ordinal = record {
  active = true;
  identity = text "t";
  output_ordinal = ordinal;
  timeout = none;
}

abbrev phase : StudyPhase
phase = record {
  name = text "p";
  tasks = task 5 ∷ task 3 ∷ task 4 ∷ [];
  max_concurrency = 2;
  start_interval = 0;
  timeout = none;
  failure_policy = fail_fast;
}

abbrev after_one : Scheduler (Unit {0}) ℕ
after_one = record {
  pending = [];
  active = [];
  completed = (3, 3) ∷ [];
  next_admission = 0;
  first_error = some (fault tt);
  timed_out = false;
  cancelled = false;
}

abbrev one_round : Result (RuntimeError (Unit {0})) (Scheduler (Unit {0}) ℕ) × List Event
one_round = schedule_round (world 5) phase 0 (new_scheduler (world 5) phase 0) []

fails_fast : one_round.0 ≡ ok after_one
unfolding schedule_round new_scheduler active_tasks poll_cancellation poll_timeout stop_all
    may_admit admit_tasks flag_timeouts flag_timeout reap reap_one swap_remove join_task task_result
    settle_task is_idle all_running
fails_fast = refl

Reaches-IsSane_example : IsSane phase after_one
unfolding schedule_round new_scheduler active_tasks poll_cancellation poll_timeout stop_all
    may_admit admit_tasks flag_timeouts flag_timeout reap reap_one swap_remove join_task task_result
    settle_task is_idle all_running
Reaches-IsSane_example = Reaches-IsSane (world 5) phase 0 after_one one_round.1 (
    then_round {s = new_scheduler (world 5) phase 0} {t = []} after_one one_round.1 (begun []) refl)

abbrev whole_run : Result (RuntimeError (Unit {0})) (Option (List ℕ)) × List Event
whole_run = run_phase (world 9) phase 3 []

succeeds : whole_run.0 ≡ ok (some (3 ∷ 4 ∷ 5 ∷ []))
unfolding schedule_round new_scheduler active_tasks poll_cancellation poll_timeout stop_all
    schedule_rounds summarize run_phase sort_by_ordinal insert_by_ordinal
succeeds = refl

run_phase_complete_example :
    (entries : List (ℕ × ℕ)) × (3 ∷ 4 ∷ 5 ∷ [] ≡ map (λ (c : ℕ × ℕ). c.1) entries)
    × IsSorted entries
    × ((n : ℕ) → of_completed n entries ≡ of_tasks n (active_tasks (world 9) phase phase.tasks))
    × All (IsGenuine (world 9) (λ task. In task (active_tasks (world 9) phase phase.tasks))) entries
unfolding schedule_round new_scheduler active_tasks poll_cancellation poll_timeout stop_all
    schedule_rounds summarize run_phase sort_by_ordinal insert_by_ordinal
run_phase_complete_example =
    run_phase_complete (world 9) phase 3 [] (3 ∷ 4 ∷ 5 ∷ []) whole_run.1 refl
