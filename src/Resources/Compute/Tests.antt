-- ===== src/Resources/Compute/Tests.antt =====
-- Runs of rust/src/runtime/resources/compute.rs with pools that are their thread counts.
use scientific_workflow.Prelude.{
  ℕ, ◌<◌, ◌≤◌, ◌≡◌, ◌≢◌, ◌⊎◌, refl, Bool, true, false, Option, none, some, List, [], ◌∷◌, All,
  sum_by, arith, ok, Result, is_some,
}
use scientific_workflow.Prelude.TreeMap.{get, insert, remove, modify, contains_key}
use scientific_workflow.Prelude.TreeMap.Laws.{pair_key}
use scientific_workflow.Resources.Compute.{
  Rayon, SlotKey, auto, ComputeSlot, Allocation, CoordinatorState, refused, duplicate_task, Wait,
  RunStart, allocations, assign, install, commit, build_all, replace_pools, rebuild_auto,
  build_isolated, register, wait_for_epoch, run_begin, run_end, drop_lease, result, new_state,
}
use scientific_workflow.Resources.Compute.Split.{slot_threads, share, HasShare}
use scientific_workflow.Resources.Compute.History.{registered, awaited, Trace, initial, extend}
use scientific_workflow.Resources.Compute.Balance.{
  Trace-balanced, run_begin-ne-panicked, register-resumes,
}
use scientific_workflow.Resources.Compute.Running.{register-fixed}

built_threads :
    (key : SlotKey) (n p : ℕ) → ◌≡◌ {A = Result (Unit {0}) ℕ} (ok n) (ok p) → 0 < n → p ≤ n
built_threads key n p e h = ground arith

abbrev counts : Rayon
counts = record {
  Pool = ℕ;
  Reason = Unit {0};
  build = λ key n. ok n;
  current_num_threads = λ p. p;
  build_threads = built_threads;
}

opened : Unit {0}
unfolding register insert contains_key build_isolated rebuild_auto replace_pools allocations assign
    build_all commit install modify get wait_for_epoch run_begin run_end drop_lease remove result
opened = tt

abbrev S : Type 0
S = CoordinatorState ℕ (Unit {0})

abbrev slot : Option ℕ → ℕ → Bool → List Allocation → ComputeSlot ℕ
slot fixed p busy history = record {
  fixed_threads = fixed;
  pool = some p;
  in_compute = busy;
  history = history;
}

abbrev at : ℕ → ℕ → Allocation
at e n = record { epoch = e; threads = n }

-- One automatic task of a budget of five threads has registered.
abbrev one_due : S
one_due = record {
  slots =
      ((0, 0), record { fixed_threads = none; pool = none; in_compute = false; history = [] }) ∷ [];
  rebalancing = true;
  epoch = 0;
  failure = none;
}

abbrev one : S
one = record {
  slots = ((0, 0), slot none 5 false (at 1 5 ∷ [])) ∷ [];
  rebalancing = false;
  epoch = 1;
  failure = none;
}

abbrev two : S
two = record {
  slots =
      ((0, 0), slot none 3 false (at 1 5 ∷ at 2 3 ∷ []))
      ∷ ((0, 1), slot none 2 false (at 2 2 ∷ []))
      ∷ [];
  rebalancing = false;
  epoch = 2;
  failure = none;
}

abbrev two_due : S
two_due = record {
  slots =
      ((0, 0), slot none 5 false (at 1 5 ∷ []))
      ∷ ((0, 1), record { fixed_threads = none; pool = none; in_compute = false; history = [] })
      ∷ [];
  rebalancing = true;
  epoch = 1;
  failure = none;
}

abbrev busy : S
busy = record two {
  slots =
      ((0, 0), slot none 3 true (at 1 5 ∷ at 2 3 ∷ []))
      ∷ ((0, 1), slot none 2 false (at 2 2 ∷ []))
      ∷ [];
}

abbrev busy_alone : S
busy_alone = record {
  slots = ((0, 0), slot none 3 true (at 1 5 ∷ at 2 3 ∷ [])) ∷ [];
  rebalancing = true;
  epoch = 2;
  failure = none;
}

abbrev alone : S
alone = record {
  slots = ((0, 0), slot none 5 false (at 1 5 ∷ at 2 3 ∷ at 3 5 ∷ [])) ∷ [];
  rebalancing = false;
  epoch = 3;
  failure = none;
}

two-Trace : Trace counts 5 auto new_state two
unfolding opened
two-Trace =
    extend {t = two_due}
      (extend {t = one}
        (extend {t = one_due} (extend initial (registered (0, 0) none 1 refl)) (awaited 2 1 refl))
        (registered (0, 1) none 2 refl))
      (awaited 2 2 refl)

-- The second task leaves while the first one computes: the first keeps its pool until its step
-- ends, and then gets all threads.
busy-alone : drop_lease counts 5 auto (0, 1) busy ≡ some busy_alone
unfolding opened
busy-alone = refl

alone-end : run_end counts 5 (0, 0) busy_alone ≡ some alone
unfolding opened
alone-end = refl

-- Six idle automatic tasks on five threads: the assertion on the quotient fails.
abbrev crowded : S
crowded = record one_due {
  slots =
      ((0, 0), slot none 1 false [])
      ∷ ((0, 1), slot none 1 false [])
      ∷ ((0, 2), slot none 1 false [])
      ∷ ((0, 3), slot none 1 false [])
      ∷ ((0, 4), slot none 1 false [])
      ∷ ((0, 5), slot none 1 false [])
      ∷ [];
}

crowded-rebuild : rebuild_auto counts 5 crowded ≡ none
unfolding opened
crowded-rebuild = refl

again : register counts 5 auto (0, 0) none one ≡ refused (duplicate_task (0, 0))
unfolding opened
again = refl

Trace-balanced_example :
    All (HasShare counts 2) two.slots
    × (sum_by (λ e. share counts e.1) two.slots ≡ 5)
    × (sum_by (λ e. slot_threads counts e.1) two.slots ≤ 5)
Trace-balanced_example = Trace-balanced counts 5 two two-Trace refl refl (omega arith)

run_begin-ne-panicked_example : run_begin counts 5 (0, 1) two ≢ RunStart.panicked
run_begin-ne-panicked_example = run_begin-ne-panicked counts 5 (0, 1) two two-Trace

register-resumes_example :
    (u : S) × (wait_for_epoch counts 5 2 2 two_due ≡ Wait.resumed u)
    × ((u.epoch ≡ 2) × (u.rebalancing ≡ false) ⊎ (is_some u.failure ≡ true))
unfolding opened
register-resumes_example =
    register-resumes counts 5 (0, 1) none 2 one two_due refl refl (omega arith)

abbrev fixed_three : S
fixed_three = record {
  slots = ((0, 0), slot (some 3) 3 false (at 1 3 ∷ [])) ∷ [];
  rebalancing = false;
  epoch = 1;
  failure = none;
}

register-fixed_example :
    (t : ComputeSlot ℕ) × (p : ℕ) × (get (0, 0) fixed_three.slots ≡ some t)
    × (t.pool ≡ some p)
    × (◌≡◌ {A = Result (Unit {0}) ℕ} (ok 3) (ok p))
    × (p ≤ 3)
    × (t.history ≡ at 1 3 ∷ [])
    × (◌≡◌ {A = ℕ} 1 1)
unfolding opened
register-fixed_example =
    register-fixed counts 8 (0, 0) 3 new_state fixed_three (omega arith) refl refl
