-- ===== src/Resources/Admission.antt =====
-- rust/src/runtime/resources/admission.rs: the process-wide thread budget.
-- A `ResourceBudget` is shared by handle and its state sits behind one mutex, so each method
-- is one atomic step: it takes the budget and returns the budget that it leaves.
pub mod History
pub mod Grants
pub mod Tests
use scientific_workflow.Prelude.{
  ℕ, ◌+◌, ◌-◌, ◌&&◌, Option, none, some, ltb, leb, ◌==◌, if◌then◌else◌,
}

pub record BudgetState : Type 0 where
  pub auto_tasks : ℕ
  pub isolated_threads : ℕ
  pub external_threads : ℕ

pub record ResourceBudget : Type 0 where
  pub total : ℕ
  pub state : BudgetState

pub data ResourceRequirement : Type 0 where
  auto_in_process : ResourceRequirement
  isolated_in_process external : (threads : ℕ) → ResourceRequirement

-- The lease's `budget` handle is the budget that `drop_lease` is given.
pub record ResourceLease : Type 0 where
  pub requirement : ResourceRequirement

unfoldable pub new_budget : ℕ → ResourceBudget
new_budget total = record {
  total = total;
  state = record { auto_tasks = 0; isolated_threads = 0; external_threads = 0 };
}

-- The `match` of `try_acquire`: the state after an admission, or none where it stays as it is.
unfoldable pub admit : ℕ → BudgetState → ResourceRequirement → Option BudgetState
admit total s auto_in_process =
    if (s.external_threads == 0) && ((s.isolated_threads == 0) && ltb s.auto_tasks total)
    then some (record s { auto_tasks = s.auto_tasks + 1 })
    else none
admit total s (isolated_in_process threads) =
    let available = total - s.external_threads in
    if (s.external_threads == 0)
      && ((s.auto_tasks == 0) && leb threads (available - s.isolated_threads))
    then some (record s { isolated_threads = s.isolated_threads + threads })
    else none
admit total s (external threads) =
    let available = total - s.external_threads in
    if (s.auto_tasks == 0) && ((s.isolated_threads == 0) && leb threads available)
    then some (record s { external_threads = s.external_threads + threads })
    else none

unfoldable pub try_acquire :
    ResourceBudget → ResourceRequirement → ResourceBudget × Option ResourceLease
unfolding admit
try_acquire b r = elim (admit b.total b.state r) [
  | none ↦ (b, none)
  | some s ↦ (record b { state = s }, some (record { requirement = r }))
]

-- `Drop` of a lease: none stands for a failed `debug_assert!` of the decrement.
unfoldable pub withdraw : BudgetState → ResourceRequirement → Option BudgetState
withdraw s auto_in_process =
    if ltb 0 s.auto_tasks then some (record s { auto_tasks = s.auto_tasks - 1 }) else none
withdraw s (isolated_in_process threads) =
    if leb threads s.isolated_threads
    then some (record s { isolated_threads = s.isolated_threads - threads })
    else none
withdraw s (external threads) =
    if leb threads s.external_threads
    then some (record s { external_threads = s.external_threads - threads })
    else none

unfoldable pub drop_lease : ResourceBudget → ResourceLease → Option ResourceBudget
unfolding withdraw
drop_lease b l = elim (withdraw b.state l.requirement) [
  | none ↦ none
  | some s ↦ some (record b { state = s })
]
