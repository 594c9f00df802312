-- ===== src/Runtime/Phase/Rounds.antt =====
-- The states of the scheduler of rust/src/runtime/execution/phase.rs between its rounds.
use scientific_workflow.Prelude.{
  ℕ, ◌≡◌, sym, subst, inl, inr, Bool, true, false, Bool-cases, Option-cases, List, ◌∷◌, length,
  if◌then◌else◌, arith,
}
use scientific_workflow.Prelude.Runs.{Run, ◌>>=◌, ◌>>◌, pure, Yields, >>=-Yields, pure-Yields}
use scientific_workflow.Runtime.Phase.{
  StudyPhase, RuntimeError, Event, asked_paused, published_allocations, slept, World, Scheduler,
  may_admit, ask, publish, poll_cancellation, poll_timeout, admit_tasks, flag_timeouts, reap,
  is_idle, schedule_round, new_scheduler,
}
use scientific_workflow.Runtime.Phase.Invariant.{
  is_stopped, IsSane, poll_cancellation-IsSane, poll_timeout-IsSane, admit_tasks-IsSane,
}
use scientific_workflow.Runtime.Phase.Reaping.{flag_timeouts-Keeps, shrink-IsSane, reap-IsSane}

module _ {Fault Summary : Type 0} (world : World Fault Summary) (phase : StudyPhase) where
  abbrev admitting :
      Bool → Scheduler Fault Summary → Run Event (RuntimeError Fault) (Scheduler Fault Summary)
  admitting paused timed =
      if may_admit phase paused timed
      then admit_tasks world phase timed.pending timed
      else pure timed

  may_admit-runs :
      (paused : Bool) (s : Scheduler Fault Summary)
      → may_admit phase paused s ≡ true
      → is_stopped phase s ≡ false
  unfolding may_admit
  may_admit-runs paused s h = elim (Option-cases s.first_error) [
    | inl e ↦ ground arith
    | inr (error, e) ↦ ground arith
  ]

  pure-IsSane :
      (s : Scheduler Fault Summary) (t : List Event) (after : Scheduler Fault Summary)
      (u : List Event)
      → IsSane phase s
      → Yields {E = RuntimeError Fault} (pure s) t after u
      → IsSane phase after
  pure-IsSane s t after u sane h = subst (IsSane phase) (sym (pure-Yields s t after u h).0) sane

  admitting-IsSane :
      (paused : Bool) (timed : Scheduler Fault Summary) (t : List Event)
      (after : Scheduler Fault Summary) (u : List Event)
      → IsSane phase timed
      → Yields (admitting paused timed) t after u
      → IsSane phase after
  admitting-IsSane paused timed t after u sane h =
      elim (Bool-cases (may_admit phase paused timed)) [
        | inl may ↦
            admit_tasks-IsSane world phase timed.pending timed t after u
              (may_admit-runs paused timed may, sane.bounded)
              (subst
                (λ (b : Bool).
                  Yields (if b then admit_tasks world phase timed.pending timed else pure timed) t
                    after u)
                may h)
        | inr may_not ↦
            let ran : Yields {E = RuntimeError Fault} (pure timed) t after u =
              subst
                (λ (b : Bool).
                  Yields (if b then admit_tasks world phase timed.pending timed else pure timed) t
                    after u)
                may_not h in
            subst (IsSane phase) (sym (pure-Yields timed t after u ran).0) sane
      ]

  schedule_round-IsSane :
      (phase_started : ℕ) (s : Scheduler Fault Summary) (t : List Event)
      (after : Scheduler Fault Summary) (u : List Event)
      → IsSane phase s
      → Yields (schedule_round world phase phase_started s) t after u
      → IsSane phase after
  unfolding schedule_round
  schedule_round-IsSane phase_started s t after u sane h =
      let Step : Type 0 = Run Event (RuntimeError Fault) (Scheduler Fault Summary) in
      let resting : Scheduler Fault Summary → Step = λ reaped.
        is_idle world phase reaped >>= λ idle.
        (if idle then ask slept (λ v. tt) else pure tt) >> pure reaped in
      let collecting : Scheduler Fault Summary → Step = λ admitted.
        flag_timeouts world phase admitted.active >>= λ active.
        reap world phase (length active) 0 (record admitted { active = active }) >>= resting in
      let pausing : Scheduler Fault Summary → Step = λ timed.
        ask asked_paused world.paused >>= λ paused. admitting paused timed >>= collecting in
      let timing : Scheduler Fault Summary → Step =
        λ polled. poll_timeout world phase phase_started polled >>= pausing in
      let (x, v0, h0, g0) =
        >>=-Yields (publish world phase published_allocations)
          (λ _. poll_cancellation world phase s >>= timing) t after u h in
      let (polled, v1, h1, g1) =
        >>=-Yields (poll_cancellation world phase s) timing v0 after u g0 in
      let (timed, v2, h2, g2) =
        >>=-Yields (poll_timeout world phase phase_started polled) pausing v1 after u g1 in
      let paused = world.paused v2 in
      let (admitted, v3, h3, g3) =
        >>=-Yields (admitting paused timed) collecting (asked_paused ∷ v2) after u g2 in
      let (active, v4, h4, g4) =
        >>=-Yields (flag_timeouts world phase admitted.active)
          (λ active.
            reap world phase (length active) 0 (record admitted { active = active }) >>= resting)
          v3 after u g3 in
      let flagged = record admitted { active = active } in
      let (reaped, v5, h5, g5) =
        >>=-Yields (reap world phase (length active) 0 flagged) resting v4 after u g4 in
      let (idle, v6, h6, g6) =
        >>=-Yields (is_idle world phase reaped)
          (λ idle. (if idle then ask slept (λ v. tt) else pure tt) >> pure reaped) v5 after u g5 in
      let (y, v7, h7, g7) =
        >>=-Yields (if idle then ask slept (λ v. tt) else pure tt) (λ _. pure reaped) v6 after u
          g6 in
      let sane1 = poll_cancellation-IsSane world phase s v0 polled v1 sane h1 in
      let sane2 = poll_timeout-IsSane world phase phase_started polled v1 timed v2 sane1 h2 in
      let sane3 = admitting-IsSane paused timed (asked_paused ∷ v2) admitted v3 sane2 h3 in
      let sane4 =
        shrink-IsSane world phase admitted active
          (flag_timeouts-Keeps world phase admitted.active v3 active v4 h4) sane3 in
      let sane5 = reap-IsSane world phase (length active) 0 flagged v4 reaped v5 sane4 h5 in
      pure-IsSane reaped v7 after u sane5 g7

  -- The states between the rounds of one run of the phase, with all that was asked so far.
  pub data Reaches (phase_started : ℕ) : Scheduler Fault Summary → List Event → Type 0 where
    begun : (t : List Event) → Reaches phase_started (new_scheduler world phase phase_started) t
    then_round :
        {s : Scheduler Fault Summary} {t : List Event} (after : Scheduler Fault Summary)
        (u : List Event)
        → Reaches phase_started s t
        → Yields (schedule_round world phase phase_started s) t after u
        → Reaches phase_started after u

  -- Between any two rounds of a phase, however clocks, workers and cancellation behave, no more
  -- tasks are active than the phase allows; and once the run is cancelled, the phase has timed
  -- out, or a task has failed in a phase that fails fast, no task is pending and every active one
  -- has been told to stop.
  pub Reaches-IsSane :
      (phase_started : ℕ) (s : Scheduler Fault Summary) (t : List Event)
      → Reaches phase_started s t
      → IsSane phase s
  unfolding new_scheduler
  Reaches-IsSane phase_started _ _ (begun t) = record {
    bounded = omega arith;
    stopped = λ e. absurd (ground arith);
  }
  Reaches-IsSane phase_started _ _ (then_round after u earlier h) =
      schedule_round-IsSane phase_started _ _ after u (Reaches-IsSane phase_started _ _ earlier) h
