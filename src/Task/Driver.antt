-- ===== src/Task/Driver.antt =====
-- The body of `ExecutionUnitDefinition::execute` in rust/src/task/execution.rs: the order of host
-- calls and checks. A run takes the trace of host calls so far and gives its result and the trace.
pub mod Lifecycle
pub mod Walk
pub mod Inspection
pub mod Protocol
pub mod Executions
pub mod Distance
pub mod Termination
pub mod Tests
use scientific_workflow.Prelude.{
  ℕ, zero, suc, ◌+◌, Bool, false, not, ◌||◌, Option, none, some, is_some, ltb, ◌==◌, if◌then◌else◌,
  Result, ok, err, List, [], ◌∷◌, map, any,
}
use scientific_workflow.Prelude.Texts.{Text}
use scientific_workflow.Task.Execution.{
  MemberView, ExecutionUnit, Event, checkpoint, asked, computing, began, stepped, finished, Trace,
  Host, ContractError, empty_execution_unit, non_advancing_step, member_outside_declared_count,
  member_count_changed, completion_reversed, iteration_regressed, completed_member_advanced,
  TaskError, fault, contract, panicked, out_of_fuel, MemberSnapshot, validate_member_identities,
  required_member, inspect_initial_members, inspect_members,
}

abbrev pub Run : Type 0 → Type 0 → Type 0 → Type 0
Run Fault Reason A = Trace Reason → Result (TaskError Fault) A × Trace Reason

module _ {Fault Reason : Type 0} where
  infixl 5 ◌>>=◌ ◌>>◌
  abbrev pub ◌>>=◌ :
      {A B : Type 0} → Run Fault Reason A → (A → Run Fault Reason B) → Run Fault Reason B
  ◌>>=◌ m f t = let (r, u) = m t in elim r [ ok a ↦ f a u | err e ↦ (err e, u) ]

  abbrev pub ◌>>◌ :
      {B : Type 0} → Run Fault Reason (Unit {0}) → Run Fault Reason B → Run Fault Reason B
  m >> k = m >>= λ _. k

  abbrev pub pure : {A : Type 0} → A → Run Fault Reason A
  pure a t = (ok a, t)

  abbrev pub fail : {A : Type 0} → ContractError → Run Fault Reason A
  fail e t = (err (contract e), t)

  abbrev pub check : {A : Type 0} → Result ContractError A → Run Fault Reason A
  check r t = elim r [ ok a ↦ (ok a, t) | err e ↦ (err (contract e), t) ]

  abbrev pub trust : {A : Type 0} → Result Fault A → Run Fault Reason A
  trust r t = elim r [ ok a ↦ (ok a, t) | err e ↦ (err (fault e), t) ]

  -- A host call that can fail; it is on the trace also then.
  abbrev pub call : Host Fault Reason → Event Reason → Run Fault Reason (Unit {0})
  call host e t = elim (host.reply e t) [ ok _ ↦ (ok tt, e ∷ t) | err f ↦ (err (fault f), e ∷ t) ]

  -- `checkpoint` and then `cancellation_requested`.
  abbrev pub poll : Host Fault Reason → Run Fault Reason Bool
  poll host t = (ok (host.cancellation_requested (checkpoint ∷ t)), asked ∷ checkpoint ∷ t)

  -- `observe_member_final` with `completion_reason`, whose `expect` wants a completed member.
  abbrev pub finish :
      Host Fault Reason → ℕ → MemberView Reason → Option ℕ → Run Fault Reason (Unit {0})
  finish host i view target = elim view.completion [
    | none ↦ λ t. (err panicked, t)
    | some reason ↦ call host (finished i view.iteration target reason)
  ]

module _ (unit : ExecutionUnit) (host : Host unit.Fault unit.Reason) where
  open unit use {U, Fault, Reason, initialize, member_count, member, step}

  unfoldable pub begin_member : ℕ → MemberView Reason → MemberSnapshot → Run Fault Reason (Unit {0})
  begin_member i view m = do
    call host (began i view.iteration m.identity m.target)
    if m.complete then finish host i view m.target else pure tt

  unfoldable pub begin_members : U → ℕ → List MemberSnapshot → Run Fault Reason (Unit {0})
  begin_members u i [] = pure tt
  begin_members u i (m ∷ members) = do
    view ← check (required_member unit u i)
    begin_member i view m
    begin_members u (i + 1) members

  -- What the host hears of a member that was not complete before the step.
  unfoldable pub observe_member :
      ℕ → MemberView Reason → MemberSnapshot → MemberSnapshot → Run Fault Reason (Unit {0})
  observe_member i view p n = do
    if ltb p.iteration n.iteration then call host (stepped i view.iteration n.target) else pure tt
    if n.complete then finish host i view n.target else pure tt

  -- The loop over the members after a step; it yields `advanced`.
  unfoldable pub walk :
      U → ℕ → Bool → List MemberSnapshot → List MemberSnapshot → Run Fault Reason Bool
  walk u i advanced [] next = pure advanced
  walk u i advanced (p ∷ previous) [] = pure advanced
  walk u i advanced (p ∷ previous) (n ∷ next) = do
    view ← check (required_member unit u i)
    if p.complete
        then (if not n.complete
            then fail (completion_reversed n.identity)
            else if not (n.iteration == p.iteration)
            then fail (completed_member_advanced n.identity p.iteration n.iteration)
            else walk u (i + 1) advanced previous next)
        else if ltb n.iteration p.iteration
        then fail (iteration_regressed n.identity p.iteration n.iteration)
        else do
          observe_member i view p n
          walk u (i + 1) (advanced || ltb p.iteration n.iteration) previous next

  unfoldable pub compute_step : U → Run Fault Reason U
  compute_step u = do call host computing; trust (step u)

  unfoldable pub checked_members :
      ℕ → ℕ → U → List MemberSnapshot → Run Fault Reason (List MemberSnapshot)
  checked_members schema count v members = do
    if member_count v == count then pure tt else fail (member_count_changed count (member_count v))
    check (inspect_members unit v schema 0 members)

  unfoldable pub settle :
      U → List MemberSnapshot → Bool → Run Fault Reason (U × List MemberSnapshot)
  settle v next advanced = if advanced then pure (v, next) else fail non_advancing_step

  unfoldable pub compare_members :
      U → List MemberSnapshot → List MemberSnapshot → Run Fault Reason (U × List MemberSnapshot)
  compare_members v members next = do advanced ← walk v 0 false members next; settle v next advanced

  unfoldable pub after_step :
      ℕ → ℕ → List MemberSnapshot → U → Run Fault Reason (U × List MemberSnapshot)
  after_step schema count members v = do
    next ← checked_members schema count v members
    compare_members v members next

  -- The body of the loop, after the test for a cancellation.
  unfoldable pub round :
      ℕ → ℕ → U → List MemberSnapshot → Run Fault Reason (U × List MemberSnapshot)
  round schema count u members = do v ← compute_step u; after_step schema count members v

  -- `while members.iter().any(|member| !member.complete)`
  unfoldable pub drive : ℕ → ℕ → ℕ → U → List MemberSnapshot → Run Fault Reason (Unit {0})
  drive zero schema count u members = λ t. (err out_of_fuel, t)
  drive (suc fuel) schema count u members =
      if any (λ m. not m.complete) members
      then (do
        cancelled ← poll host
        if cancelled
            then pure tt
            else do turn ← round schema count u members; drive fuel schema count turn.0 turn.1)
      else pure tt

  -- From the checks of a fresh unit up to the seed requests, which name only its members.
  unfoldable pub admit_members : ℕ → U → List Text → Run Fault Reason (List MemberSnapshot)
  admit_members schema u requests = do
    if member_count u == 0 then fail empty_execution_unit else pure tt
    if is_some (member u (member_count u))
        then fail (member_outside_declared_count (member_count u))
        else pure tt
    members ← check (inspect_initial_members unit u schema 0 (member_count u) [] [])
    check (validate_member_identities (map (λ m. m.identity) members) requests)
    pure members

  unfoldable pub start : Run Fault Reason (U × List Text)
  start = do call host computing; trust initialize

  unfoldable pub live : ℕ → ℕ → U → List MemberSnapshot → Run Fault Reason (Unit {0})
  live fuel schema u members = do
    begin_members u 0 members
    drive fuel schema (member_count u) u members

  unfoldable pub host_members : ℕ → ℕ → U → List MemberSnapshot → Run Fault Reason (Unit {0})
  host_members fuel schema u members = do
    cancelled ← poll host
    if cancelled then pure tt else live fuel schema u members

  unfoldable pub after_start : ℕ → ℕ → U × List Text → Run Fault Reason (Unit {0})
  after_start fuel schema (u, requests) = do
    members ← admit_members schema u requests
    host_members fuel schema u members

  unfoldable pub execute : ℕ → ℕ → Run Fault Reason (Unit {0})
  execute fuel schema = do
    cancelled ← poll host
    if cancelled then pure tt else do started ← start; after_start fuel schema started
