-- ===== src/Resources/Compute/History.antt =====
-- Histories of the coordinator in rust/src/runtime/resources/compute.rs: tasks register, wait for
-- their epoch, compute and leave, one critical section at a time and in any order.
use scientific_workflow.Prelude.{
  ℕ, suc, zero, ◌+◌, ◌/◌, ◌%◌, ◌<◌, ◌≡◌, ◌⊎◌, refl, true, false, Option, none, some, length, arith,
  Option-cases, Result-cases, inl, inr,
}
use scientific_workflow.Prelude.TreeMap.{remove, modify, IsSorted}
use scientific_workflow.Prelude.TreeMap.Laws.{
  pair_key, IsSorted-modify, IsSorted-insert, IsSorted-remove, length-modify,
}
use scientific_workflow.Resources.Compute.{
  Rayon, SlotKey, new_slot, ComputeMode, auto, ComputeSlot, CoordinatorState, waiting, finished,
  Wait, started, allocations, build_all, replace_pools, rebuild_auto, register, wait_for_epoch,
  run_begin, run_end, drop_lease, new_state,
}
use scientific_workflow.Resources.Compute.Split.{
  IsSplit, build_all-IsBuilt, commit-IsSplit, IsSplit-modify, IsSplit-empty, length-commit,
  IsSorted-commit,
}

module _ (rayon : Rayon) (total : ℕ) where
  open rayon use {Pool, Reason}

  pub data Step (mode : ComputeMode) (s t : CoordinatorState Pool Reason) : Type 0 where
    registered :
        (key : SlotKey) (fixed_threads : Option ℕ) (required : ℕ)
        → register rayon total mode key fixed_threads s ≡ waiting required t
        → Step mode s t
    allocated :
        (key : SlotKey) (fixed_threads : Option ℕ)
        → register rayon total mode key fixed_threads s ≡ finished t
        → Step mode s t
    awaited :
        (fuel required : ℕ)
        → wait_for_epoch rayon total fuel required s ≡ Wait.resumed t
        → Step mode s t
    began : (key : SlotKey) (p : Pool) → run_begin rayon total key s ≡ started p t → Step mode s t
    ended : (key : SlotKey) → run_end rayon total key s ≡ some t → Step mode s t
    left : (key : SlotKey) → drop_lease rayon total mode key s ≡ some t → Step mode s t

  pub data Trace (mode : ComputeMode) (s : CoordinatorState Pool Reason)
      : CoordinatorState Pool Reason → Type 0 where
    initial : Trace mode s s
    extend : {t u : CoordinatorState Pool Reason} → Trace mode s t → Step mode t u → Trace mode s u

  -- Between rebalancings the slots hold an even split of the total.
  pub record IsShared (s : CoordinatorState Pool Reason) : Type 0 where
    pub sorted : IsSorted s.slots
    pub shared :
        s.failure ≡ none
        → s.rebalancing ≡ false
        → IsSplit rayon (total / length s.slots) (total % length s.slots) 0 s.slots

  replace_pools-IsShared :
      (epoch : ℕ) (s : CoordinatorState Pool Reason)
      → 0 < total / length s.slots
      → IsShared s
      → IsShared (replace_pools rayon total epoch s)
  unfolding replace_pools allocations
  replace_pools-IsShared epoch s h v =
      elim (Result-cases (build_all rayon total (allocations total s.slots))) [
        | inr (e, refused) ↦
            rw (refused, replace_pools) (record { sorted = v.sorted; shared = λ f. cc })
        | inl (pools, built) ↦
            rw (built, replace_pools)
              (record {
                sorted = IsSorted-commit rayon epoch pools s.slots v.sorted;
                shared = λ f b. rw length-commit (
                    commit-IsSplit rayon epoch _ _ 0 s.slots pools h v.sorted
                      (build_all-IsBuilt rayon total _ pools built));
              })
      ]

  pub rebuild_auto_cases :
      (s t : CoordinatorState Pool Reason)
      → rebuild_auto rayon total s ≡ some t
      → (t ≡ s)
        ⊎ ((length s.slots ≡ 0) × (t ≡ record s { epoch = s.epoch + 1; rebalancing = false }))
        ⊎ ((0 < total / length s.slots) × (t ≡ replace_pools rayon total (s.epoch + 1) s))
  unfolding rebuild_auto
  rebuild_auto_cases s t e = ground arith

  rebuild_auto-IsShared :
      (s t : CoordinatorState Pool Reason)
      → rebuild_auto rayon total s ≡ some t
      → IsShared s
      → IsShared t
  rebuild_auto-IsShared s t e v = elim (rebuild_auto_cases s t e) [
    | inl same ↦ rw same v
    | inr (inl (empty, new)) ↦
        rw new
          (record { sorted = v.sorted; shared = λ f b. IsSplit-empty rayon _ _ 0 s.slots empty })
    | inr (inr (positive, new)) ↦ rw new (replace_pools-IsShared (s.epoch + 1) s positive v)
  ]

  wait_for_epoch-IsShared :
      (fuel required : ℕ) (s t : CoordinatorState Pool Reason)
      → wait_for_epoch rayon total fuel required s ≡ Wait.resumed t
      → IsShared s
      → IsShared t
  unfolding wait_for_epoch
  wait_for_epoch-IsShared zero required s t e v = cc
  wait_for_epoch-IsShared (suc fuel) required s t e v =
      elim (Option-cases (rebuild_auto rayon total s)) [
        | inl stuck ↦ ground arith
        | inr (u, rebuilt) ↦
            ground (
              arith,
              wait_for_epoch-IsShared fuel required u t,
              rebuild_auto-IsShared s u rebuilt v,
            )
      ]

  register-IsShared :
      (key : SlotKey) (fixed_threads : Option ℕ) (required : ℕ) (s t : CoordinatorState Pool Reason)
      → register rayon total auto key fixed_threads s ≡ waiting required t
      → IsShared s
      → IsShared t
  unfolding register
  register-IsShared key fixed required s t e v =
      ground (arith, IsSorted-insert key (new_slot fixed) s.slots v.sorted)

  modify-IsShared :
      (key : SlotKey) (f : ComputeSlot Pool → ComputeSlot Pool) (s : CoordinatorState Pool Reason)
      → ((slot : ComputeSlot Pool) → (f slot).pool ≡ slot.pool)
      → ((slot : ComputeSlot Pool) → (f slot).history ≡ slot.history)
      → IsShared s
      → IsShared (record s { slots = modify key f s.slots })
  modify-IsShared key f s keep record_ v = record {
    sorted = IsSorted-modify key f s.slots v.sorted;
    shared = λ e b.
        rw length-modify (IsSplit-modify rayon _ _ 0 key f s.slots keep record_ (v.shared e b));
  }

  run_begin-IsShared :
      (key : SlotKey) (p : Pool) (s t : CoordinatorState Pool Reason)
      → run_begin rayon total key s ≡ started p t
      → IsShared s
      → IsShared t
  unfolding run_begin
  run_begin-IsShared key p s t e v =
      let marked =
        modify-IsShared key (λ (slot : ComputeSlot Pool). record slot { in_compute = true }) s
          (λ slot. refl) (λ slot. refl) v in
      ground (arith, marked)

  run_end-IsShared :
      (key : SlotKey) (s t : CoordinatorState Pool Reason)
      → run_end rayon total key s ≡ some t
      → IsShared s
      → IsShared t
  unfolding run_end
  run_end-IsShared key s t e v =
      let idle = λ (slot : ComputeSlot Pool). record slot { in_compute = false } in
      let u = record s { slots = modify key idle s.slots } in
      ground (
        arith,
        modify-IsShared key idle s (λ slot. refl) (λ slot. refl) v,
        rebuild_auto-IsShared u t,
      )

  drop_lease-IsShared :
      (key : SlotKey) (s t : CoordinatorState Pool Reason)
      → drop_lease rayon total auto key s ≡ some t
      → IsShared s
      → IsShared t
  unfolding drop_lease
  drop_lease-IsShared key s t e v =
      let slots = remove key s.slots in
      let u = record s { slots = slots; rebalancing = true } in
      let v' : IsShared u = record {
        sorted = IsSorted-remove key s.slots v.sorted;
        shared = λ f b. cc;
      } in
      ground (arith, rebuild_auto-IsShared u t, v')

  register_auto-waits :
      (key : SlotKey) (fixed_threads : Option ℕ) (s t : CoordinatorState Pool Reason)
      → ¬ (register rayon total auto key fixed_threads s ≡ finished t)
  unfolding register
  register_auto-waits key fixed_threads s t e = ground arith

  Step-IsShared : {s t : CoordinatorState Pool Reason} → Step auto s t → IsShared s → IsShared t
  Step-IsShared {s} {t} (registered key fixed_threads required e) v =
      register-IsShared key fixed_threads required s t e v
  Step-IsShared {s} {t} (allocated key fixed_threads e) v =
      absurd (register_auto-waits key fixed_threads s t e)
  Step-IsShared {s} {t} (awaited fuel required e) v = wait_for_epoch-IsShared fuel required s t e v
  Step-IsShared {s} {t} (began key p e) v = run_begin-IsShared key p s t e v
  Step-IsShared {s} {t} (ended key e) v = run_end-IsShared key s t e v
  Step-IsShared {s} {t} (left key e) v = drop_lease-IsShared key s t e v

  pub Trace-IsShared : {s : CoordinatorState Pool Reason} → Trace auto new_state s → IsShared s
  Trace-IsShared initial = record { sorted = tt; shared = λ f b. tt }
  Trace-IsShared (extend r st) = Step-IsShared st (Trace-IsShared r)
