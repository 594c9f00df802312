-- ===== src/Resources/Compute/Balance.antt =====
-- What the coordinator of rust/src/runtime/resources/compute.rs guarantees to its tasks.
use scientific_workflow.Prelude.{
  ℕ, ◌+◌, ◌/◌, ◌<◌, ◌≤◌, ◌≡◌, ◌≢◌, ◌⊎◌, true, false, Option, none, some, List, [], ◌∷◌, length, All,
  sum_by, arith, inl, inr, Option-cases, Bool-cases, is_some, Result-cases, ◌==◌, div_pos,
}
use scientific_workflow.Prelude.TreeMap.{get}
use scientific_workflow.Prelude.TreeMap.Laws.{pair_key, eq_pair}
use scientific_workflow.Resources.Compute.{
  Rayon, SlotKey, auto, ComputeSlot, CoordinatorState, RunStart, waiting, Wait, all_idle,
  allocations, commit, build_all, replace_pools, rebuild_auto, register, wait_for_epoch, run_begin,
  new_state, result, u64_max,
}
use scientific_workflow.Resources.Compute.Split.{
  IsSplit, slot_threads, share, HasShare, IsSplit-sum, IsSplit-le, IsSplit-HasShare,
}
use scientific_workflow.Resources.Compute.History.{Trace, Trace-IsShared}

module _ (rayon : Rayon) (total : ℕ) where
  open rayon use {Pool, Reason}

  -- After any history in automatic mode, unless a pool failed to build or a rebalancing is due, each
  -- working task has the pool that rayon built for the share on its record, the shares are those of
  -- an even split, which use up all threads, and the pools together have no more threads than that.
  pub Trace-balanced :
      (s : CoordinatorState Pool Reason)
      → Trace rayon total auto new_state s
      → s.failure ≡ none
      → s.rebalancing ≡ false
      → 0 < length s.slots
      → All (HasShare rayon (total / length s.slots)) s.slots
        × (sum_by (λ e. share rayon e.1) s.slots ≡ total)
        × (sum_by (λ e. slot_threads rayon e.1) s.slots ≤ total)
  Trace-balanced s r f b h =
      let split = (Trace-IsShared rayon total r).shared f b in
      let sums = IsSplit-sum rayon total s.slots h split in
      (
        IsSplit-HasShare rayon _ _ 0 s.slots split,
        sums,
        omega (arith, sums, IsSplit-le rayon _ _ 0 s.slots split),
      )

  IsSplit-get :
      (quotient remainder index : ℕ) (key : SlotKey) (slots : List (SlotKey × ComputeSlot Pool))
      (slot : ComputeSlot Pool)
      → IsSplit rayon quotient remainder index slots
      → get key slots ≡ some slot
      → (p : Pool) × (slot.pool ≡ some p)
  unfolding get
  IsSplit-get q r i key [] slot h e = cc
  IsSplit-get q r i key ((k, s) ∷ slots) slot h e = elim (Bool-cases (eq_pair k key)) [
    | inl hit ↦ (h.0.0, ground (arith, h.0.1))
    | inr miss ↦ IsSplit-get q r (i + 1) key slots slot h.1 (ground arith)
  ]

  -- After any history in automatic mode a task that is about to compute is never without a pool:
  -- it waits, fails with the recorded error, or starts.
  pub run_begin-ne-panicked :
      (key : SlotKey) (s : CoordinatorState Pool Reason)
      → Trace rayon total auto new_state s
      → run_begin rayon total key s ≢ RunStart.panicked
  unfolding run_begin result
  run_begin-ne-panicked key s r e =
      let v = Trace-IsShared rayon total r in
      elim (Option-cases (get key s.slots)) [
        | inl missing ↦ ground arith
        | inr (slot, found) ↦ ground (
          arith,
          v.shared,
          λ (f : s.failure ≡ none) (b : s.rebalancing ≡ false).
              IsSplit-get _ _ 0 key s.slots slot (v.shared f b) found,
        )
      ]

  -- A due rebalancing of idle tasks ends: it moves to the next epoch, or records that a pool failed to build.
  rebuild_auto-progress :
      (t : CoordinatorState Pool Reason)
      → t.failure ≡ none
      → t.rebalancing ≡ true
      → t.epoch < u64_max
      → all_idle t.slots ≡ true
      → length t.slots ≤ total
      → (u : CoordinatorState Pool Reason) × (rebuild_auto rayon total t ≡ some u)
        × ((u.epoch ≡ t.epoch + 1) × (u.rebalancing ≡ false) × (u.failure ≡ none)
            ⊎ (is_some u.failure ≡ true))
  unfolding rebuild_auto replace_pools
  rebuild_auto-progress t f b h idle few = elim (Bool-cases (length t.slots == 0)) [
    | inl empty ↦
        (record t { epoch = t.epoch + 1; rebalancing = false }, ground arith, ground arith)
    | inr some_slots ↦
        let positive = div_pos total (length t.slots) (ground arith) few in
        elim (Result-cases (build_all rayon total (allocations total t.slots))) [
          | inl (pools, built) ↦ (
            record t {
              slots = commit (t.epoch + 1) pools t.slots;
              epoch = t.epoch + 1;
              rebalancing = false;
            },
            ground arith,
            ground arith,
          )
          | inr (reason, refused) ↦ (record t { failure = some reason }, ground arith, ground arith)
        ]
  ]

  register_cases :
      (key : SlotKey) (fixed_threads : Option ℕ) (required : ℕ) (s t : CoordinatorState Pool Reason)
      → register rayon total auto key fixed_threads s ≡ waiting required t
      → (required ≡ t.epoch + 1) × (t.rebalancing ≡ true) × (t.epoch < u64_max)
  unfolding register
  register_cases key fixed_threads required s t e = ground arith

  -- A task that registers in automatic mode while nobody computes and the tasks are no more than the
  -- threads goes on at once: two rounds of its wait are enough, and then its epoch is reached or a
  -- pool failed to build.
  pub register-resumes :
      (key : SlotKey) (fixed_threads : Option ℕ) (required : ℕ) (s t : CoordinatorState Pool Reason)
      → register rayon total auto key fixed_threads s ≡ waiting required t
      → all_idle t.slots ≡ true
      → length t.slots ≤ total
      → (u : CoordinatorState Pool Reason) × (wait_for_epoch rayon total 2 required t
          ≡ Wait.resumed u)
        × ((u.epoch ≡ required) × (u.rebalancing ≡ false) ⊎ (is_some u.failure ≡ true))
  unfolding wait_for_epoch
  register-resumes key fixed_threads required s t e idle few =
      let (extend, due, room) = register_cases key fixed_threads required s t e in
      elim (Option-cases t.failure) [
        | inr (reason, failed) ↦ (t, ground arith, inr (ground arith))
        | inl sound ↦
            let (u, rebuilt, progress) = rebuild_auto-progress t sound due room idle few in
            (u, ground arith, ground arith)
      ]
