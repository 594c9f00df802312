-- ===== src/Control/Gate.antt =====
-- What holds a run and what lets it go on, in rust/src/runtime/control.rs.
use scientific_workflow.Prelude.{
  ℕ, zero, suc, ◌+◌, ◌≤◌, ◌<◌, ◌≡◌, ◌↔◌, ◌⊎◌, ◌==◌, refl, sym, ◌∙◌, Bool, true, false, not, ◌&&◌,
  ◌||◌, Option, none, some, is_some, is_none, arith, Bool-cases, Option-cases, inl, inr, subst,
}
use scientific_workflow.Control.{
  State, Percent, Reminder, sample, sample_disk, resume, update_clock, begin_pause, end_pause,
  must_wait, checkpoint,
}
use scientific_workflow.Control.Clock.{Trace, Trace-IsCoherent}

update_clock-flags :
    (clock : ℕ) (s : State)
    → ((update_clock clock s).disk_pause ≡ s.disk_pause)
      × ((update_clock clock s).disk_ready ≡ s.disk_ready)
      × ((update_clock clock s).manual_pause ≡ s.manual_pause)
unfolding update_clock begin_pause end_pause
update_clock-flags clock s = (ground arith, ground arith, ground arith)

-- The flags `t` and the reminder that a sample of `s` leaves.
abbrev pub IsSampled : Bool → Bool → State → State → Option Reminder → Type 0
IsSampled full recovered s t reminder =
    (t.disk_pause ≡ (s.disk_pause || full))
    × (t.disk_ready ≡ (s.disk_pause && recovered))
    × (t.manual_pause ≡ s.manual_pause)
    × ((is_none reminder ≡ true) ↔ ((t.disk_pause ≡ s.disk_pause) × (t.disk_ready ≡ s.disk_ready)))

sample-IsSampled :
    (full recovered : Bool) (s : State)
    → (s.disk_ready ≡ true → s.disk_pause ≡ true)
    → IsSampled full recovered s (sample full recovered s).0 (sample full recovered s).1
unfolding sample
sample-IsSampled full recovered s ready = (
  ground arith,
  ground arith,
  ground arith,
  (λ e. (ground arith, ground arith), λ (a, b). ground arith),
)

module _ (percent : Percent) where
  open percent use {F, two, nought, minus, max, at_least, at_most}

  -- A sample closes the gate when the threshold is reached and never opens it; a closed gate is
  -- ready exactly when the disk is down to the threshold less two; the user's pause is not touched;
  -- and a reminder is given exactly when the gate or its readiness changes.
  pub sample_disk-gate :
      (clock : ℕ) (occupied threshold : F) (s : State)
      → Trace percent clock s
      → IsSampled
          (at_least occupied threshold)
          (at_most occupied (max (minus threshold two) nought))
          s
          (sample_disk percent clock occupied threshold s).0
          (sample_disk percent clock occupied threshold s).1
  unfolding sample_disk
  sample_disk-gate clock occupied threshold s trace =
      let (since, total, reason, timed, ready) = Trace-IsCoherent percent clock s trace in
      let full = at_least occupied threshold in
      let recovered = at_most occupied (max (minus threshold two) nought) in
      let (a, b, c, d) = sample-IsSampled full recovered s ready in
      let (f, g, h) = update_clock-flags clock (sample full recovered s).0 in
      (
        f ∙ a,
        g ∙ b,
        h ∙ c,
        (λ q. (f ∙ (d.0 q).0, g ∙ (d.0 q).1), λ (q, r). d.1 (sym f ∙ q, sym g ∙ r)),
      )

-- A resumption succeeds unless the disk holds the run and has not recovered. It then leaves no
-- reason to wait and no gate; else a worker that waited still waits, and the gate stays closed.
pub resume-released :
    (percent : Percent) (clock : ℕ) (s : State)
    → Trace percent clock s
    → ((resume clock s).1 ≡ (not s.disk_pause || s.disk_ready))
      × (must_wait false (resume clock s).0 ≡ (must_wait false s && not (resume clock s).1))
      × ((resume clock s).0.disk_pause ≡ (s.disk_pause && not (resume clock s).1))
      × ((resume clock s).0.manual_pause ≡ (s.manual_pause && not (resume clock s).1))
unfolding resume update_clock begin_pause end_pause must_wait
resume-released percent clock s trace = (ground arith, ground arith, ground arith, ground arith)

Nat-cases : (n : ℕ) → (n ≡ 0) ⊎ ((r : ℕ) × (n ≡ r + 1))
Nat-cases zero = inl refl
Nat-cases (suc n) = inr (n, omega arith)

checkpoint-first :
    (fuel k n : ℕ) (seen : ℕ → State × Bool)
    → n < fuel
    → must_wait (seen (k + n)).1 (seen (k + n)).0 ≡ false
    → (m : ℕ) × (checkpoint fuel seen k ≡ some m)
      × (k ≤ m)
      × (m ≤ k + n)
      × (must_wait (seen m).1 (seen m).0 ≡ false)
      × ((j : ℕ) → k ≤ j → j < m → must_wait (seen j).1 (seen j).0 ≡ true)
unfolding checkpoint
checkpoint-first zero k n seen lt free = absurd (omega arith)
checkpoint-first (suc fuel) k n seen lt free = elim (Bool-cases (must_wait (seen k).1 (seen k).0)) [
  | inr now_ ↦ rw now_ (k, refl, omega arith, omega arith, now_, λ j a b. absurd (omega arith))
  | inl wait ↦ rw wait (elim (Nat-cases n) [
    | inl e ↦ absurd (ground arith)
    | inr (r, e) ↦
        let shift : k + n ≡ (k + 1) + r = omega arith in
        let (m, found, low, high, go, before) =
          checkpoint-first fuel (k + 1) r seen (omega arith)
            (subst (λ x. must_wait (seen x).1 (seen x).0 ≡ false) shift free) in
        (
          m,
          found,
          omega arith,
          omega arith,
          go,
          λ j a b. elim (Bool-cases (j == k)) [
            | inl same ↦ subst (λ x. must_wait (seen x).1 (seen x).0 ≡ true) (grind arith) wait
            | inr other ↦ before j (grind arith) b
          ],
        )
  ])
]

-- What lets a worker go on at a wake-up: no pause is being timed, the run is cancelled, or the
-- caller's own flag is set.
abbrev pub IsReleased : State × Bool → Type 0
IsReleased (s, asked) = (s.paused_since ≡ none) ⊎ (s.cancelled ≡ true) ⊎ (asked ≡ true)

-- What holds a worker at a wake-up.
abbrev pub IsHeld : State × Bool → Type 0
IsHeld (s, asked) = (is_some s.paused_since ≡ true) × (s.cancelled ≡ false) × (asked ≡ false)

must_wait-IsReleased :
    (s : State) (asked : Bool) → (must_wait asked s ≡ false) ↔ IsReleased (s, asked)
unfolding must_wait
must_wait-IsReleased s asked = (
  λ free. elim (Option-cases s.paused_since) [
    | inl untimed ↦ inl untimed
    | inr (since, timed) ↦ elim (Bool-cases s.cancelled) [
      | inl cancelled ↦ inr (inl cancelled)
      | inr going ↦ inr (inr (ground arith))
    ]
  ],
  λ released. ground arith,
)

must_wait-IsHeld : (s : State) (asked : Bool) → must_wait asked s ≡ true → IsHeld (s, asked)
unfolding must_wait
must_wait-IsHeld s asked wait = (ground arith, ground arith, ground arith)

-- A worker at a checkpoint goes on at the first wake-up that finds no pause being timed, a
-- cancellation, or the caller's own flag; at each earlier one a pause is being timed, the run is
-- not cancelled and the flag is not set. It goes on as soon as there is such a wake-up.
pub checkpoint-IsReleased :
    (n : ℕ) (seen : ℕ → State × Bool)
    → IsReleased (seen n)
    → (m : ℕ) × (checkpoint (n + 1) seen 0 ≡ some m)
      × (m ≤ n)
      × IsReleased (seen m)
      × ((j : ℕ) → j < m → IsHeld (seen j))
checkpoint-IsReleased n seen released =
    let free = (must_wait-IsReleased (seen n).0 (seen n).1).1 released in
    let (m, found, low, high, go, before) =
      checkpoint-first (n + 1) 0 n seen (omega arith)
        (subst (λ x. must_wait (seen x).1 (seen x).0 ≡ false) (omega arith) free) in
    (
      m,
      found,
      omega arith,
      (must_wait-IsReleased (seen m).0 (seen m).1).0 go,
      λ j lt. must_wait-IsHeld (seen j).0 (seen j).1 (before j (omega arith) lt),
    )
