-- ===== src/Control/Tests.antt =====
-- A run that is paused at instant 5, held by the disk at 7 and resumed at 20.
use scientific_workflow.Prelude.{
  ℕ, zero, suc, ◌+◌, ◌-◌, ◌≤◌, ◌<◌, ◌≡◌, refl, Bool, true, false, not, ◌&&◌, ◌||◌, some, is_some,
  leb, if◌then◌else◌, arith, inl, inr,
}
use scientific_workflow.Control.{
  State, Percent, running, status, new_state, now, pause, set_pause, sample, sample_disk, resume,
  cancel, update_clock, begin_pause, end_pause, must_wait, checkpoint,
}
use scientific_workflow.Control.Clock.{
  IsCoherent, pauses, samples, resumes, Trace, made, passed, called, Trace-IsCoherent, Step-now,
  Trace-now,
}
use scientific_workflow.Control.Gate.{
  IsSampled, sample_disk-gate, resume-released, IsReleased, IsHeld, checkpoint-IsReleased,
}

-- Whole percents in place of the double-precision numbers.
abbrev whole : Percent
whole = record {
  F = ℕ;
  two = 2;
  nought = 0;
  minus = λ a b. a - b;
  max = λ a b. if leb a b then b else a;
  at_least = λ a b. leb b a;
  at_most = leb;
}

abbrev at_five : State
at_five = pause 5 true new_state

abbrev at_seven : State
at_seven = (sample_disk whole 7 95 90 at_five).0

abbrev at_nine : State
at_nine = (sample_disk whole 9 80 90 at_seven).0

abbrev trace_five : Trace whole 5 at_five
trace_five = called 5 new_state at_five (made 5) (pauses true new_state)

abbrev trace_seven : Trace whole 7 at_seven
trace_seven =
    called 7 at_five at_seven (passed 5 7 at_five (omega arith) trace_five) (samples 95 90 at_five)

abbrev trace_nine : Trace whole 9 at_nine
trace_nine =
    called 9 at_seven at_nine (passed 7 9 at_seven (omega arith) trace_seven)
      (samples 80 90 at_seven)

resumed : ((resume 20 at_seven).1 ≡ false) × (now 25 (resume 20 at_nine).0 ≡ 10)
unfolding now pause set_pause sample_disk sample resume update_clock begin_pause end_pause new_state
resumed = (refl, refl)

Trace-IsCoherent_example : IsCoherent 9 at_nine
Trace-IsCoherent_example = Trace-IsCoherent whole 9 at_nine trace_nine

Step-now_example : now 9 (resume 9 at_nine).0 ≡ now 9 at_nine
Step-now_example = Step-now whole 9 at_nine (resume 9 at_nine).0 trace_nine (resumes at_nine)

Trace-now_example :
    now 20 at_nine ≡ now 9 at_nine + (if is_some at_nine.paused_since then 0 else 20 - 9)
Trace-now_example = Trace-now whole 9 20 at_nine trace_nine (omega arith)

sample_disk-gate_example :
    IsSampled false true at_seven
      (sample_disk whole 9 80 90 at_seven).0
      (sample_disk whole 9 80 90 at_seven).1
sample_disk-gate_example =
    sample_disk-gate whole 9 80 90 at_seven (passed 7 9 at_seven (omega arith) trace_seven)

resume-released_example :
    ((resume 9 at_nine).1 ≡ (not at_nine.disk_pause || at_nine.disk_ready))
    × (must_wait false (resume 9 at_nine).0 ≡ (must_wait false at_nine && not (resume 9 at_nine).1))
    × ((resume 9 at_nine).0.disk_pause ≡ (at_nine.disk_pause && not (resume 9 at_nine).1))
    × ((resume 9 at_nine).0.manual_pause ≡ (at_nine.manual_pause && not (resume 9 at_nine).1))
resume-released_example = resume-released whole 9 at_nine trace_nine

-- A run that is paused when the user asks, and cancelled and resumed before the last read.
overtaken : status at_five at_five at_five (resume 6 (cancel at_five)).0 1 1 ≡ running
unfolding status cancel pause set_pause resume update_clock begin_pause end_pause new_state
overtaken = refl

-- Paused at the first wake-up and cancelled from the second on.
abbrev seen : ℕ → State × Bool
seen zero = (at_five, false)
seen (suc n) = (cancel at_five, false)

checkpoint-IsReleased_example :
    (m : ℕ) × (checkpoint 2 seen 0 ≡ some m)
    × (m ≤ 1)
    × IsReleased (seen m)
    × ((j : ℕ) → j < m → IsHeld (seen j))
unfolding cancel
checkpoint-IsReleased_example = checkpoint-IsReleased 1 seen (inr (inl refl))
