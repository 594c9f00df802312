-- ===== src/Control/Clock.antt =====
-- The clock of rust/src/runtime/control.rs over any sequence of calls.
use scientific_workflow.Prelude.{
  ℕ, ◌+◌, ◌-◌, ◌≤◌, ◌≡◌, refl, Bool, true, false, not, ◌&&◌, ◌||◌, some, is_some, arith,
  Option-cases, Bool-cases, sym, ◌∙◌, if◌then◌else◌, inl, inr,
}
use scientific_workflow.Control.{
  State, Percent, new_state, now, pause, pause_for_disk, sample, sample_disk, resume, cancel,
  set_pause, update_clock, begin_pause, end_pause,
}

-- Instants do not lie in the future, the pauses counted lie in the past, a pause that is being
-- timed has a reason, and without a cancellation a reason is being timed.
abbrev pub IsCoherent : ℕ → State → Type 0
IsCoherent clock s =
    ((start : ℕ) → s.paused_since ≡ some start → (s.paused_total ≤ start) × (start ≤ clock))
    × (s.paused_total ≤ clock)
    × (is_some s.paused_since ≡ true → (s.disk_pause || s.manual_pause) ≡ true)
    × (s.cancelled ≡ false → (s.disk_pause || s.manual_pause) ≡ is_some s.paused_since)
    × (s.disk_ready ≡ true → s.disk_pause ≡ true)

update_clock-IsCoherent :
    (clock : ℕ) (s : State)
    → ((start : ℕ) → s.paused_since ≡ some start → (s.paused_total ≤ start) × (start ≤ clock))
    → s.paused_total ≤ clock
    → (s.disk_ready ≡ true → s.disk_pause ≡ true)
    → IsCoherent clock (update_clock clock s)
unfolding update_clock begin_pause end_pause
update_clock-IsCoherent clock s since total ready = elim (Option-cases s.paused_since) [
  | inl e ↦ ground arith
  | inr (start, e) ↦ let (a, b) = since start e in ground arith
]

update_clock-now :
    (clock : ℕ) (s : State)
    → ((start : ℕ) → s.paused_since ≡ some start → (s.paused_total ≤ start) × (start ≤ clock))
    → s.paused_total ≤ clock
    → now clock (update_clock clock s) ≡ now clock s
unfolding update_clock begin_pause end_pause now
update_clock-now clock s since total = elim (Option-cases s.paused_since) [
  | inl e ↦ ground arith
  | inr (start, e) ↦ let (a, b) = since start e in ground arith
]

module _ (percent : Percent) where
  open percent use {F}

  -- The calls that change the state, at an instant.
  pub data Step (clock : ℕ) : State → State → Type 0 where
    pauses : (on : Bool) (s : State) → Step clock s (pause clock on s)
    pauses_disk : (on : Bool) (s : State) → Step clock s (pause_for_disk clock on s)
    samples :
        (occupied threshold : F) (s : State)
        → Step clock s (sample_disk percent clock occupied threshold s).0
    resumes : (s : State) → Step clock s (resume clock s).0
    cancels : (s : State) → Step clock s (cancel s)

  -- A control as it stands at an instant, after any calls since it was made.
  pub data Trace : ℕ → State → Type 0 where
    made : (clock : ℕ) → Trace clock new_state
    passed : (clock later : ℕ) (s : State) → clock ≤ later → Trace clock s → Trace later s
    called : (clock : ℕ) (s t : State) → Trace clock s → Step clock s t → Trace clock t

  sample-kept :
      (full ready : Bool) (s : State)
      → ((sample full ready s).0.paused_since ≡ s.paused_since)
        × ((sample full ready s).0.paused_total ≡ s.paused_total)
        × ((s.disk_ready ≡ true → s.disk_pause ≡ true)
            → (sample full ready s).0.disk_ready ≡ true
            → (sample full ready s).0.disk_pause ≡ true)
  unfolding sample
  sample-kept full ready s = (ground arith, ground arith, λ h e. ground arith)

  Step-IsCoherent :
      (clock : ℕ) (s t : State) → Step clock s t → IsCoherent clock s → IsCoherent clock t
  unfolding pause pause_for_disk set_pause sample_disk resume cancel
  Step-IsCoherent clock s t (pauses on _) (since, total, reason, timed, ready) =
      update_clock-IsCoherent clock (record s { manual_pause = on }) since total ready
  Step-IsCoherent clock s t (pauses_disk on _) (since, total, reason, timed, ready) =
      update_clock-IsCoherent clock (record s { disk_pause = on; disk_ready = false }) since total
        (λ e. absurd (ground arith))
  Step-IsCoherent clock s t (samples occupied threshold _) (since, total, reason, timed, ready) =
      let full = percent.at_least occupied threshold in
      let recovered =
        percent.at_most occupied
          (percent.max (percent.minus threshold percent.two) percent.nought) in
      let (same, kept, gate) = sample-kept full recovered s in
      update_clock-IsCoherent clock (sample full recovered s).0
        (λ start e. let (a, b) = since start (sym same ∙ e) in (rw kept a, b)) (rw kept total)
        (gate ready)
  Step-IsCoherent clock s t (resumes _) (since, total, reason, timed, ready) =
      elim (Bool-cases (s.disk_pause && not s.disk_ready)) [
        | inl blocked ↦ rw blocked (since, total, reason, timed, ready)
        | inr free ↦ rw free (
            update_clock-IsCoherent clock
              (record s { manual_pause = false; disk_pause = false; disk_ready = false }) since
              total (λ e. absurd (ground arith)))
      ]
  Step-IsCoherent clock s t (cancels _) (since, total, reason, timed, ready) =
      (since, total, reason, λ e. absurd (ground arith), ready)

  -- At any instant after any calls: no recorded instant lies in the future and the pauses counted
  -- fit before it, a pause is timed only for a reason and, unless cancelled, whenever there is one,
  -- and the disk is ready only while it holds the run.
  pub Trace-IsCoherent : (clock : ℕ) (s : State) → Trace clock s → IsCoherent clock s
  unfolding new_state
  Trace-IsCoherent clock s (made _) = (λ start e. cc, omega arith, λ e. cc, λ e. refl, λ e. cc)
  Trace-IsCoherent clock s (passed before _ _ le trace) =
      let (since, total, reason, timed, ready) = Trace-IsCoherent before s trace in
      (λ start e. let (a, b) = since start e in (a, omega arith), omega arith, reason, timed, ready)
  Trace-IsCoherent clock s (called _ before _ trace step) =
      Step-IsCoherent clock before s step (Trace-IsCoherent clock before trace)

  Step-now_lem :
      (clock : ℕ) (s t : State)
      → Step clock s t
      → ((start : ℕ) → s.paused_since ≡ some start → (s.paused_total ≤ start) × (start ≤ clock))
      → s.paused_total ≤ clock
      → now clock t ≡ now clock s
  unfolding pause pause_for_disk set_pause sample_disk resume cancel now
  Step-now_lem clock s t (pauses on _) since total =
      update_clock-now clock (record s { manual_pause = on }) since total
  Step-now_lem clock s t (pauses_disk on _) since total =
      update_clock-now clock (record s { disk_pause = on; disk_ready = false }) since total
  Step-now_lem clock s t (samples occupied threshold _) since total =
      let full = percent.at_least occupied threshold in
      let recovered =
        percent.at_most occupied
          (percent.max (percent.minus threshold percent.two) percent.nought) in
      let (same, kept, gate) = sample-kept full recovered s in
      update_clock-now clock (sample full recovered s).0
        (λ start e. let (a, b) = since start (sym same ∙ e) in (rw kept a, b)) (rw kept total)
      ∙ ground arith
  Step-now_lem clock s t (resumes _) since total =
      elim (Bool-cases (s.disk_pause && not s.disk_ready)) [
        | inl blocked ↦ rw blocked refl
        | inr free ↦ rw free (
            update_clock-now clock
              (record s { manual_pause = false; disk_pause = false; disk_ready = false }) since
              total)
      ]
  Step-now_lem clock s t (cancels _) since total = refl

  -- No call makes the run's clock jump, be it a pause, a release, a sample or a cancellation.
  pub Step-now :
      (clock : ℕ) (s t : State) → Trace clock s → Step clock s t → now clock t ≡ now clock s
  unfolding pause pause_for_disk set_pause sample_disk resume cancel now
  Step-now clock s t trace step =
      let (since, total, reason, timed, ready) = Trace-IsCoherent clock s trace in
      Step-now_lem clock s t step since total

  -- Between two calls the run's clock stands still while a pause is timed, and otherwise goes on
  -- with the time.
  pub Trace-now :
      (clock later : ℕ) (s : State)
      → Trace clock s
      → clock ≤ later
      → now later s ≡ now clock s + (if is_some s.paused_since then 0 else later - clock)
  unfolding now
  Trace-now clock later s trace le =
      let (since, total, reason, timed, ready) = Trace-IsCoherent clock s trace in
      elim (Option-cases s.paused_since) [ inl e ↦ ground arith | inr (start, e) ↦ ground arith ]
