-- ===== src/Resources/Compute/Running.antt =====
-- Step boundaries in rust/src/runtime/resources/compute.rs: who may replace a task's pool, and
-- what a fixed allocation gives.
use scientific_workflow.Prelude.{
  ℕ, ◌+◌, ◌<◌, ◌≤◌, ◌≡◌, ◌++◌, refl, ◌∙◌, true, Option, none, some, List, [], ◌∷◌, arith, inl, inr,
  Result-cases, ok,
}
use scientific_workflow.Prelude.TreeMap.{get, insert}
use scientific_workflow.Prelude.TreeMap.Laws.{pair_key, eq_pair_iff, get-insert, get-modify}
use scientific_workflow.Resources.Compute.{
  Rayon, SlotKey, ComputeMode, isolated, ComputeSlot, CoordinatorState, finished, new_slot,
  build_isolated, register,
}
use scientific_workflow.Resources.Compute.History.{
  Step, registered, allocated, awaited, began, ended, left,
}

module _ (rayon : Rayon) (total : ℕ) where
  open rayon use {Pool, Reason, build, current_num_threads}

  -- Task `key` is inside its computation, on pool `p`.
  abbrev pub Runs : SlotKey → Pool → List (SlotKey × ComputeSlot Pool) → Type 0
  Runs key p slots =
      (slot : ComputeSlot Pool) × (get key slots ≡ some slot)
      × (slot.pool ≡ some p)
      × (slot.in_compute ≡ true)

  -- The task that a step is about; a wait that ends concerns no slot.
  abbrev pub actor :
      {mode : ComputeMode} {s t : CoordinatorState Pool Reason}
      → Step rayon total mode s t
      → Option SlotKey
  actor (registered key fixed_threads required e) = some key
  actor (allocated key fixed_threads e) = some key
  actor (awaited fuel required e) = none
  actor (began key p e) = some key
  actor (ended key e) = some key
  actor (left key e) = some key

  -- The pool and the record of a fixed allocation.
  abbrev fix : ℕ → ℕ → Pool → ComputeSlot Pool → ComputeSlot Pool
  fix epoch threads pool slot = record slot {
    pool = some pool;
    history = slot.history ++ record { epoch = epoch; threads = threads } ∷ [];
  }

  -- A task with a fixed allocation gets, at once, the pool that rayon built for exactly the threads
  -- that it asked for, which has no more of them; its record holds that one allocation, at the new
  -- epoch; all this unless the pool fails to build.
  pub register-fixed :
      (key : SlotKey) (n : ℕ) (s t : CoordinatorState Pool Reason)
      → 0 < n
      → register rayon total isolated key (some n) s ≡ finished t
      → t.failure ≡ none
      → (slot : ComputeSlot Pool) × (p : Pool) × (get key t.slots ≡ some slot)
        × (slot.pool ≡ some p)
        × (build key n ≡ ok p)
        × (current_num_threads p ≤ n)
        × (slot.history ≡ record { epoch = s.epoch + 1; threads = n } ∷ [])
        × (t.epoch ≡ s.epoch + 1)
  unfolding register build_isolated
  register-fixed key n s t h e sound =
      let same = (eq_pair_iff key key).1 refl in
      let slots = insert key (new_slot (some n)) s.slots in
      let found : get key slots ≡ some (new_slot (some n)) =
        get-insert key key (new_slot (some n)) s.slots ∙ rw same refl in
      elim (Result-cases (build key n)) [
        | inr (reason, refused) ↦ absurd (ground (arith, found))
        | inl (p, built) ↦ (
          fix (s.epoch + 1) n p (new_slot (some n)),
          p,
          ground (arith, found, same, get-modify key key (fix (s.epoch + 1) n p) slots),
          refl,
          built,
          rayon.build_threads key n p built h,
          refl,
          ground (arith, found),
        )
      ]
