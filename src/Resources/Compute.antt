-- ===== src/Resources/Compute.antt =====
-- rust/src/runtime/resources/compute.rs: threads shared among the working tasks.
-- Every method body under the coordinator's mutex is one atomic function of the state. A wait on
-- the condition variable ends such a function: the thread goes on with another call later.
pub mod Split
pub mod History
pub mod Balance
pub mod Running
pub mod Tests
use scientific_workflow.Prelude.{
  ℕ, suc, zero, ◌+◌, ◌-◌, ◌*◌, ◌/◌, ◌%◌, ◌^◌, ◌<◌, ◌≤◌, ◌≡◌, Bool, true, false, not, ◌&&◌, ◌||◌,
  Option, none, some, List, [], ◌∷◌, ◌++◌, map, ltb, ◌==◌, if◌then◌else◌, is_none, is_some, all,
  length, Result, ok, err,
}
use scientific_workflow.Prelude.TreeMap.{get, contains_key, insert, remove, modify}
use scientific_workflow.Prelude.TreeMap.Laws.{pair_key}

abbrev pub SlotKey : Type 0
SlotKey = ℕ × ℕ

-- What the code uses of rayon: a pool that was built with a positive thread count has at most that
-- many threads. A reason is the text of an error.
pub record Rayon : Type 1 where
  pub Pool : Type 0
  pub Reason : Type 0
  pub build : SlotKey → ℕ → Result Reason Pool
  pub current_num_threads : Pool → ℕ
  pub build_threads :
      (key : SlotKey) (n : ℕ) (p : Pool) → build key n ≡ ok p → 0 < n → current_num_threads p ≤ n

pub data ComputeMode : Type 0 where
  auto isolated : ComputeMode

pub record Allocation : Type 0 where
  pub epoch : ℕ
  pub threads : ℕ

abbrev pub u64_max : ℕ
u64_max = 18446744073709551615

-- `epoch.checked_add(1)`
abbrev pub checked_succ : ℕ → Option ℕ
checked_succ n = if ltb n u64_max then some (n + 1) else none

pub record ComputeSlot (Pool : Type 0) : Type 0 where
  pub fixed_threads : Option ℕ
  pub pool : Option Pool
  pub in_compute : Bool
  pub history : List Allocation

pub record CoordinatorState (Pool Reason : Type 0) : Type 0 where
  pub slots : List (SlotKey × ComputeSlot Pool)
  pub rebalancing : Bool
  pub epoch : ℕ
  pub failure : Option Reason

pub data ComputeError (Reason : Type 0) : Type 0 where
  duplicate_task : SlotKey → ComputeError Reason
  epoch_overflow lost_allocation : ComputeError Reason
  pool_failed : Reason → ComputeError Reason

-- `waiting` goes on with `wait_for_epoch`; `finished` goes on with `result`.
pub data Registration (State Error : Type 0) : Type 0 where
  refused : Error → Registration State Error
  waiting : (required_epoch : ℕ) → State → Registration State Error
  finished : State → Registration State Error
  panicked : Registration State Error

pub data Wait (State : Type 0) : Type 0 where
  resumed parked : State → Wait State
  panicked out_of_fuel : Wait State

pub data RunStart (Pool State Error : Type 0) : Type 0 where
  parked panicked : RunStart Pool State Error
  failed : Error → RunStart Pool State Error
  started : Pool → State → RunStart Pool State Error

abbrev pub last_threads : List Allocation → Option ℕ
last_threads [] = none
last_threads (a ∷ []) = some a.threads
last_threads (a ∷ b ∷ rest) = last_threads (b ∷ rest)

abbrev pub is_at : Option ℕ → ℕ → Bool
is_at none n = false
is_at (some m) n = m == n

module _ {Pool : Type 0} where
  abbrev pub new_slot : Option ℕ → ComputeSlot Pool
  new_slot fixed_threads = record {
    fixed_threads = fixed_threads;
    pool = none;
    in_compute = false;
    history = [];
  }

  abbrev pub all_idle : List (SlotKey × ComputeSlot Pool) → Bool
  all_idle = all (λ e. not e.1.in_compute)

  -- `keys().enumerate()` with `quotient + usize::from(index < remainder)`.
  unfoldable pub assign : ℕ → ℕ → ℕ → List (SlotKey × ComputeSlot Pool) → List (SlotKey × ℕ)
  assign quotient remainder index [] = []
  assign quotient remainder index ((key, slot) ∷ slots) =
      (key, quotient + (if ltb index remainder then 1 else 0))
      ∷ assign quotient remainder (index + 1) slots

  unfoldable pub allocations : ℕ → List (SlotKey × ComputeSlot Pool) → List (SlotKey × ℕ)
  unfolding assign
  allocations total slots = assign (total / length slots) (total % length slots) 0 slots

  unfoldable pub install : ℕ → ℕ → Pool → ComputeSlot Pool → ComputeSlot Pool
  install epoch threads pool slot = record slot {
    pool = some pool;
    history =
        if is_at (last_threads slot.history) threads
        then slot.history
        else slot.history ++ record { epoch = epoch; threads = threads } ∷ [];
  }

  unfoldable pub commit :
      ℕ
      → List (SlotKey × ℕ × Pool)
      → List (SlotKey × ComputeSlot Pool)
      → List (SlotKey × ComputeSlot Pool)
  unfolding install modify
  commit epoch [] slots = slots
  commit epoch ((key, threads, pool) ∷ pools) slots =
      commit epoch pools (modify key (install epoch threads pool) slots)

module _ (rayon : Rayon) (total_threads : ℕ) where
  open rayon use {Pool, Reason, build}

  unfoldable pub build_all : List (SlotKey × ℕ) → Result Reason (List (SlotKey × ℕ × Pool))
  build_all [] = ok []
  build_all ((key, threads) ∷ plan) = elim (build key threads) [
    | err reason ↦ err reason
    | ok pool ↦ elim (build_all plan) [
      | err reason ↦ err reason
      | ok pools ↦ ok ((key, threads, pool) ∷ pools)
    ]
  ]

  unfoldable pub replace_pools : ℕ → CoordinatorState Pool Reason → CoordinatorState Pool Reason
  replace_pools epoch s = elim (build_all (allocations total_threads s.slots)) [
    | err reason ↦ record s { failure = some reason }
    | ok pools ↦ record s { slots = commit epoch pools s.slots; epoch = epoch; rebalancing = false }
  ]

  -- none: an assertion that all tasks are idle or that each gets a thread fails, or the `expect` of
  -- the epoch panics.
  unfoldable pub rebuild_auto : CoordinatorState Pool Reason → Option (CoordinatorState Pool Reason)
  rebuild_auto s =
      if is_some s.failure || not s.rebalancing
      then some s
      else if not (all_idle s.slots)
      then none
      else elim (checked_succ s.epoch) [
        | none ↦ none
        | some epoch ↦
            if length s.slots == 0
            then some (record s { epoch = epoch; rebalancing = false })
            else if total_threads / length s.slots == 0
            then none
            else some (replace_pools epoch s)
      ]

  -- none: the `expect` of the fixed thread count panics.
  unfoldable pub build_isolated :
      SlotKey → CoordinatorState Pool Reason → Option (CoordinatorState Pool Reason)
  build_isolated key s = elim (get key s.slots) [
    | none ↦ none
    | some slot ↦ elim slot.fixed_threads [
      | none ↦ none
      | some threads ↦ elim (build key threads) [
        | err reason ↦ some (record s { epoch = s.epoch + 1; failure = some reason })
        | ok pool ↦ some (record s {
          epoch = s.epoch + 1;
          slots =
              modify key
                (λ (t : ComputeSlot Pool). record t {
                  pool = some pool;
                  history = t.history ++ record { epoch = s.epoch + 1; threads = threads } ∷ [];
                })
                s.slots;
        })
      ]
    ]
  ]

  unfoldable pub register :
      ComputeMode
      → SlotKey
      → Option ℕ
      → CoordinatorState Pool Reason
      → Registration (CoordinatorState Pool Reason) (ComputeError Reason)
  register mode key fixed_threads s =
      if contains_key key s.slots
      then refused (duplicate_task key)
      else elim (checked_succ s.epoch) [
        | none ↦ refused epoch_overflow
        | some required_epoch ↦
            let slots = insert key (new_slot fixed_threads) s.slots in
            elim mode [
              | auto ↦ waiting required_epoch (record s { slots = slots; rebalancing = true })
              | isolated ↦ elim (build_isolated key (record s { slots = slots })) [
                | none ↦ panicked
                | some t ↦ finished t
              ]
            ]
      ]

  unfoldable pub wait_for_epoch :
      ℕ → ℕ → CoordinatorState Pool Reason → Wait (CoordinatorState Pool Reason)
  wait_for_epoch zero required_epoch s = out_of_fuel
  wait_for_epoch (suc fuel) required_epoch s =
      let again : Wait (CoordinatorState Pool Reason) = elim (rebuild_auto s) [
        | none ↦ panicked
        | some t ↦ wait_for_epoch fuel required_epoch t
      ] in
      if ltb s.epoch required_epoch && is_none s.failure
      then (if all_idle s.slots then again else parked s)
      else resumed s

  unfoldable pub result : CoordinatorState Pool Reason → Result (ComputeError Reason) (Unit {0})
  result s = elim s.failure [ some reason ↦ err (pool_failed reason) | none ↦ ok tt ]

  -- The first critical section of `ComputeLease::run`.
  unfoldable pub run_begin :
      SlotKey
      → CoordinatorState Pool Reason
      → RunStart Pool (CoordinatorState Pool Reason) (ComputeError Reason)
  run_begin key s = if s.rebalancing && is_none s.failure then parked else elim (result s) [
    | err e ↦ failed e
    | ok _ ↦ elim (get key s.slots) [
      | none ↦ failed lost_allocation
      | some slot ↦ elim slot.pool [
        | none ↦ panicked
        | some pool ↦ started pool (record s {
          slots = modify key (λ (t : ComputeSlot Pool). record t { in_compute = true }) s.slots;
        })
      ]
    ]
  ]

  -- The second critical section of `ComputeLease::run`; its caller goes on with `result`.
  unfoldable pub run_end :
      SlotKey → CoordinatorState Pool Reason → Option (CoordinatorState Pool Reason)
  run_end key s =
      let slots = modify key (λ (t : ComputeSlot Pool). record t { in_compute = false }) s.slots in
      if s.rebalancing && all_idle slots
      then rebuild_auto (record s { slots = slots })
      else some (record s { slots = slots })

  unfoldable pub drop_lease :
      ComputeMode → SlotKey → CoordinatorState Pool Reason → Option (CoordinatorState Pool Reason)
  drop_lease isolated key s = some (record s { slots = remove key s.slots })
  drop_lease auto key s =
      let slots = remove key s.slots in
      if all_idle slots
      then rebuild_auto (record s { slots = slots; rebalancing = true })
      else some (record s { slots = slots; rebalancing = true })

abbrev pub new_state : {Pool Reason : Type 0} → CoordinatorState Pool Reason
new_state = record { slots = []; rebalancing = false; epoch = 0; failure = none }
