-- ===== src/Task/Driver/Tests.antt =====
-- Runs of the driver of rust/src/task/execution.rs on a unit with two members.
use scientific_workflow.Prelude.{
  ℕ, zero, suc, ◌+◌, ◌*◌, ◌<◌, ◌≡◌, ◌≢◌, refl, ap, true, false, Option, none, some, ltb,
  if◌then◌else◌, Result, ok, err, [], ◌∷◌, arith,
}
use scientific_workflow.Prelude.Texts.{Text, text, trim}
use scientific_workflow.Task.Execution.{
  MemberView, ExecutionUnit, checkpoint, asked, computing, began, stepped, finished, Trace, Host,
  TaskError, panicked, out_of_fuel, inspect_initial_members, inspect_members, required_member,
  validate_member_identities, validate_identity, validate_target, validate_state,
  validate_target_progress,
}
use scientific_workflow.Task.Driver.{
  execute, start, after_start, admit_members, host_members, live, begin_members, begin_member,
  drive, round, compute_step, after_step, checked_members, compare_members, settle, walk,
  observe_member,
}
use scientific_workflow.Task.Driver.Lifecycle.{IsSound, status}
use scientific_workflow.Task.Driver.Inspection.{is_done}
use scientific_workflow.Task.Driver.Executions.{
  execute-IsSound, execute-ne-panicked, execute-is_done,
}
use scientific_workflow.Task.Driver.Distance.{u64_bound}
use scientific_workflow.Task.Driver.Termination.{execute-ne-out_of_fuel}

-- The members `a` and `b` go on to iteration 2 and 1.
abbrev walker : Text → ℕ → ℕ → ℕ → MemberView ℕ
walker name owner last n = record {
  identity = name;
  owner = owner;
  schema = 7;
  iteration = if ltb n last then n else last;
  target_iteration = some last;
  completion = if ltb n last then none else some none;
}

abbrev walkers : ℕ → ℕ → Option (MemberView ℕ)
walkers n zero = some (walker (text "a") 10 2 n)
walkers n (suc zero) = some (walker (text "b") 11 1 n)
walkers n (suc (suc i)) = none

abbrev two_walkers : ExecutionUnit
two_walkers = record {
  U = ℕ;
  Fault = ℕ;
  Reason = ℕ;
  initialize = ok (0, text "b" ∷ []);
  member_count = λ n. 2;
  member = walkers;
  step = λ n. ok (n + 1);
}

abbrev patient : Host ℕ ℕ
patient = record { cancellation_requested = λ t. false; reply = λ e t. ok tt }

-- What the host hears of a whole run, the newest call first.
heard : execute two_walkers patient 4 7 [] ≡ (
  ok tt,
  finished 0 2 (some 2) none
      ∷ stepped 0 2 (some 2)
      ∷ computing
      ∷ asked
      ∷ checkpoint
      ∷ finished 1 1 (some 1) none
      ∷ stepped 1 1 (some 1)
      ∷ stepped 0 1 (some 2)
      ∷ computing
      ∷ asked
      ∷ checkpoint
      ∷ began 1 0 (text "b") (some 1)
      ∷ began 0 0 (text "a") (some 2)
      ∷ asked
      ∷ checkpoint
      ∷ computing
      ∷ asked
      ∷ checkpoint
      ∷ [],
)
unfolding execute start after_start admit_members host_members live begin_members begin_member drive
    round compute_step after_step checked_members compare_members settle walk observe_member
    inspect_initial_members inspect_members required_member validate_member_identities
    validate_identity validate_target validate_state validate_target_progress trim
heard = refl

execute-IsSound_example : IsSound (execute two_walkers patient 4 7 []).1
execute-IsSound_example = execute-IsSound two_walkers patient 4 7

execute-ne-panicked_example : (execute two_walkers patient 4 7 []).0 ≢ err panicked
execute-ne-panicked_example = execute-ne-panicked two_walkers patient 4 7

execute-is_done_example : is_done (status 0 (execute two_walkers patient 4 7 []).1) ≡ true
execute-is_done_example =
    execute-is_done two_walkers patient 4 7 0 (text "b" ∷ []) refl (λ t. refl)
      (ap (λ (out : Result (TaskError ℕ) (Unit {0}) × Trace ℕ). out.0) heard) 0 (omega arith)

walkers-fits :
    (n i : ℕ) (view : MemberView ℕ) → walkers n i ≡ some view → view.iteration < u64_bound
walkers-fits n zero view e = ground arith
walkers-fits n (suc zero) view e = ground arith
walkers-fits n (suc (suc i)) view e = cc

execute-ne-out_of_fuel_example :
    (execute two_walkers patient (3 * u64_bound) 7 []).0 ≢ err out_of_fuel
execute-ne-out_of_fuel_example =
    execute-ne-out_of_fuel two_walkers patient walkers-fits (3 * u64_bound) 7 0 (text "b" ∷ []) refl
      (omega arith)
