-- ===== src/Resources/Admission/Tests.antt =====
-- Runs of rust/src/runtime/resources/admission.rs on small budgets.
use scientific_workflow.Prelude.{◌≡◌, refl, ◌↔◌, [], ◌∷◌, Option, none, some, true, is_some, ◌⊎◌}
use scientific_workflow.Resources.Admission.{
  ResourceBudget, ResourceRequirement, auto_in_process, external, ResourceLease, new_budget,
  try_acquire, drop_lease,
}
use scientific_workflow.Resources.Admission.History.{
  Schedulers, acquired, refused, dropped, Trace, initial, extend, start, IsAccounted,
  Trace-IsAccounted,
}
use scientific_workflow.Resources.Admission.Grants.{
  drop_lease-held, Trace-idle, CanRun, try_acquire_iff, drop_lease-try_acquire,
}

abbrev lease : ResourceRequirement → ResourceLease
lease r = record { requirement = r }

abbrev external_budget : ResourceBudget
external_budget = record {
  total = 4;
  state = record { auto_tasks = 0; isolated_threads = 0; external_threads = 3 };
}

-- An external task of three threads runs, and a fifth thread was refused.
abbrev lent : Schedulers
lent = record { budget = external_budget; held = lease (external 3) ∷ [] }

lent-Trace : Trace (start 4) lent
unfolding new_budget try_acquire
lent-Trace =
    extend {t = lent} (extend initial (acquired (external 3) (lease (external 3)) refl refl))
      (refused (external 2) refl refl)

abbrev idle : Schedulers
idle = record { budget = new_budget 4; held = [] }

idle-Trace : Trace (start 4) idle
unfolding new_budget drop_lease
idle-Trace = extend lent-Trace (dropped [] (lease (external 3)) [] refl refl refl)

Trace-IsAccounted_example : IsAccounted 4 lent
Trace-IsAccounted_example = Trace-IsAccounted 4 lent-Trace

drop_lease-held_example :
    (b : ResourceBudget) × (drop_lease external_budget (lease (external 3)) ≡ some b)
drop_lease-held_example = drop_lease-held 4 [] (lease (external 3)) [] lent-Trace refl

Trace-idle_example : idle.budget ≡ new_budget 4
Trace-idle_example = Trace-idle 4 idle-Trace refl

try_acquire_iff_example :
    (is_some (try_acquire external_budget (external 1)).1 ≡ true)
    ↔ CanRun 4 (lease (external 3) ∷ []) (external 1)
try_acquire_iff_example = try_acquire_iff 4 (external 1) lent-Trace

drop_lease-try_acquire_example :
    ((l : ResourceLease) × (◌≡◌ {A = Option ResourceLease} none (some l))
      × (drop_lease external_budget l ≡ some external_budget))
    ⊎ ((◌≡◌ {A = Option ResourceLease} none none) × (external_budget ≡ external_budget))
unfolding try_acquire
drop_lease-try_acquire_example =
    drop_lease-try_acquire external_budget external_budget auto_in_process none refl
