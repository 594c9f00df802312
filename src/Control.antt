-- ===== src/Control.antt =====
-- rust/src/runtime/control.rs: pausing, the disk gate, cancellation and the clock that stands
-- still while a run is paused. Every method holds the one mutex, so it is an atomic step; the
-- instant that it reads is its argument `clock`, in any unit of time.
pub mod Clock
pub mod Gate
pub mod Tests
use scientific_workflow.Prelude.{
  ℕ, zero, suc, ◌+◌, ◌-◌, ◌%◌, Bool, true, false, not, ◌&&◌, ◌||◌, Option, none, some, is_some,
  is_none, leb, if◌then◌else◌,
}

pub record State : Type 0 where
  pub manual_pause : Bool
  pub disk_pause : Bool
  pub disk_ready : Bool
  pub paused_since : Option ℕ
  pub paused_total : ℕ
  pub cancelled : Bool

-- The double-precision numbers of the disk's fill in percent.
pub record Percent : Type 1 where
  pub F : Type 0
  pub two : F
  pub nought : F
  pub minus : F → F → F
  pub max : F → F → F
  pub at_least : F → F → Bool
  pub at_most : F → F → Bool

-- The three reminders of `sample_disk`, without their text.
pub data Reminder : Type 0 where
  disk_full disk_recovered disk_filled_again : Reminder

pub data Status : Type 0 where
  cancelling disk_ready disk_blocked running paused pausing : Status

unfoldable pub new_state : State
new_state = record {
  manual_pause = false;
  disk_pause = false;
  disk_ready = false;
  paused_since = none;
  paused_total = 0;
  cancelled = false;
}

unfoldable pub now : ℕ → State → ℕ
now clock s = elim s.paused_since [
  | none ↦ clock - s.paused_total
  | some start ↦ start - s.paused_total
]

unfoldable pub begin_pause : ℕ → State → State
begin_pause clock s =
    if (s.disk_pause || s.manual_pause) && (not s.cancelled && is_none s.paused_since)
    then record s { paused_since = some clock }
    else s

unfoldable pub end_pause : ℕ → State → State
end_pause clock s = if s.disk_pause || s.manual_pause then s else elim s.paused_since [
  | none ↦ s
  | some start ↦ record s { paused_since = none; paused_total = s.paused_total + (clock - start) }
]

unfoldable pub update_clock : ℕ → State → State
unfolding begin_pause end_pause
update_clock clock s = end_pause clock (begin_pause clock s)

unfoldable pub set_pause : ℕ → Bool → Bool → State → State
unfolding update_clock
set_pause clock on disk s = update_clock clock (
    if disk
    then record s { disk_pause = on; disk_ready = false }
    else record s { manual_pause = on })

unfoldable pub pause : ℕ → Bool → State → State
unfolding set_pause
pause clock on s = set_pause clock on false s

unfoldable pub pause_for_disk : ℕ → Bool → State → State
unfolding set_pause
pause_for_disk clock on s = set_pause clock on true s

-- The two tests of a sample: the threshold is reached, and the disk has recovered.
unfoldable pub sample : Bool → Bool → State → State × Option Reminder
sample full ready s =
    if not s.disk_pause && full
    then (record s { disk_pause = true; disk_ready = false }, some disk_full)
    else if s.disk_pause
    then (
      record s { disk_ready = ready },
      (if ready
          then (if s.disk_ready then none else some disk_recovered)
          else if s.disk_ready
          then some disk_filled_again
          else none),
    )
    else (s, none)

module _ (percent : Percent) where
  open percent use {F, two, nought, minus, max, at_least, at_most}

  unfoldable pub sample_disk : ℕ → F → F → State → State × Option Reminder
  unfolding sample update_clock
  sample_disk clock occupied threshold s =
      let recovery = max (minus threshold two) nought in
      let (t, reminder) = sample (at_least occupied threshold) (at_most occupied recovery) s in
      (update_clock clock t, reminder)

unfoldable pub resume : ℕ → State → State × Bool
unfolding update_clock
resume clock s = if s.disk_pause && not s.disk_ready then (s, false) else (
  update_clock clock (record s { manual_pause = false; disk_pause = false; disk_ready = false }),
  true,
)

unfoldable pub cancel : State → State
cancel s = record s { cancelled = true }

unfoldable pub disk_paused : State → Bool
disk_paused s = s.disk_pause

unfoldable pub is_paused : State → Bool
is_paused s = is_some s.paused_since

-- The two atomic counters; `fetch_add` and `fetch_sub` of a `usize` wrap around.
pub record Counters : Type 0 where
  pub active : ℕ
  pub parked : ℕ

abbrev usize_bound : ℕ
usize_bound = 18446744073709551616

unfoldable pub begin_activity : Counters → Counters
begin_activity c = record c { active = (c.active + 1) % usize_bound }

unfoldable pub drop_activity : Counters → Counters
drop_activity c = record c { active = (c.active + (usize_bound - 1)) % usize_bound }

unfoldable pub begin_parked : Counters → Counters
begin_parked c = record c { parked = (c.parked + 1) % usize_bound }

unfoldable pub drop_parked : Counters → Counters
drop_parked c = record c { parked = (c.parked + (usize_bound - 1)) % usize_bound }

-- The words for a user. The source may take the mutex four times, and other calls may come between:
-- the states are those that `cancelled`, `disk_paused`, the read of `disk_ready` and `paused` find.
-- `parked` and `active` are the two counters beside the mutex.
unfoldable pub status :
    (at_cancelled at_disk at_ready at_paused : State) → (parked active : ℕ) → Status
status at_cancelled at_disk at_ready at_paused parked active =
    if at_cancelled.cancelled
    then cancelling
    else if at_disk.disk_pause
    then (if at_ready.disk_ready then disk_ready else disk_blocked)
    else if is_none at_paused.paused_since
    then running
    else if leb active parked
    then paused
    else pausing

-- The test of the loop in `checkpoint`; `asked` is the caller's own flag.
unfoldable pub must_wait : (asked : Bool) → State → Bool
must_wait asked s = is_some s.paused_since && (not s.cancelled && not asked)

-- The loop of `checkpoint`, from the wake-up `k` on: what it finds at each, and at which it
-- returns. None: it is still waiting when the fuel is used up.
unfoldable pub checkpoint : ℕ → (ℕ → State × Bool) → ℕ → Option ℕ
checkpoint zero seen k = none
checkpoint (suc fuel) seen k =
    let later = checkpoint fuel seen (k + 1) in
    if must_wait (seen k).1 (seen k).0 then later else some k
