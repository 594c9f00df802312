-- ===== src/Runtime/Phase/Completed.antt =====
-- What a phase that succeeds has completed, for rust/src/runtime/execution/phase.rs.
use scientific_workflow.Prelude.{
  ℕ, zero, suc, ◌+◌, ◌≡◌, sym, ap, subst, inl, inr, Bool, false, not, Bool-cases, Option-cases,
  if◌then◌else◌, List, ◌∷◌, length, All, ok, arith,
}
use scientific_workflow.Prelude.Runs.{Run, ◌>>=◌, ◌>>◌, pure, Yields, >>=-Yields, pure-Yields}
use scientific_workflow.Runtime.Phase.{
  StudyTask, StudyPhase, RuntimeError, Event, asked_paused, asked_finished, published_allocations,
  slept, World, TaskWorkerOutcome, Scheduler, may_admit, ask, publish, poll_cancellation,
  poll_timeout, admit_tasks, flag_timeouts, task_result, join_task, settle_task, swap_remove,
  reap_one, reap, is_idle, schedule_round,
}
use scientific_workflow.Runtime.Phase.Account.{
  one, of_tasks, of_active, of_completed, has_failed, IsAccounted, swap_remove-of_active,
  poll_cancellation-IsAccounted, poll_timeout-IsAccounted, pure-IsAccounted,
  admit_tasks-IsAccounted, flag_timeouts-of_active, settle_task-IsAccounted,
}
use scientific_workflow.Runtime.Phase.Genuine.{
  AllActive, IsGenuine, swap_remove-AllActive, flag_timeouts-AllActive, join_task-IsGenuine,
}

module _ {Fault Summary : Type 0} (world : World Fault Summary) (phase : StudyPhase)
    (P : StudyTask → Type 0) (total : ℕ → ℕ) where
  reap_one-IsAccounted :
      (position : ℕ) (s : Scheduler Fault Summary) (t : List Event) (next : ℕ)
      (after : Scheduler Fault Summary) (u : List Event)
      → IsAccounted world P total s
      → Yields (reap_one world phase position s) t (next, after) u
      → IsAccounted world P total after
  unfolding reap_one
  reap_one-IsAccounted position s t next after u counted h =
      let unchanged : (n : ℕ) (v : List Event)
          → Yields {E = RuntimeError Fault} (pure (n, s)) v (next, after) u
          → IsAccounted world P total after =
        λ n v ran.
          subst (IsAccounted world P total)
            (ap (λ (p : ℕ × Scheduler Fault Summary). p.1)
              (sym (pure-Yields (n, s) v (next, after) u ran).0))
            counted in
      elim (Option-cases (swap_remove position s.active)) [
        | inl e ↦ unchanged position t (ground arith)
        | inr ((a, rest), e) ↦
            let t1 = asked_finished a.task.output_ordinal ∷ t in
            elim (Bool-cases (not (world.is_finished a.task t))) [
              | inl running ↦ unchanged (position + 1) t1 (ground arith)
              | inr finished ↦
                  let shrunk = record s { active = rest } in
                  let settling : TaskWorkerOutcome Fault Summary
                      → Run Event (RuntimeError Fault) (Scheduler Fault Summary) =
                    λ outcome.
                      settle_task world phase a (task_result world phase a outcome) shrunk in
                  let pairing : Scheduler Fault Summary
                      → Run Event (RuntimeError Fault) (ℕ × Scheduler Fault Summary) =
                    λ settled. pure (position, settled) in
                  let ran : Yields
                      (join_task world phase a >>= λ outcome. settling outcome >>= pairing) t1
                      (next, after) u =
                    ground arith in
                  let (outcome, v, h1, g1) =
                    >>=-Yields (join_task world phase a) (λ outcome. settling outcome >>= pairing)
                      t1 (next, after) u ran in
                  let (settled, w, h2, g2) =
                    >>=-Yields (settling outcome) pairing v (next, after) u g1 in
                  let (same, e2) = pure-Yields (position, settled) w (next, after) u g2 in
                  let result = task_result world phase a outcome in
                  let taken : has_failed shrunk ≡ false
                      → ((n : ℕ)
                          → of_tasks n s.pending
                              + (one n a.task.output_ordinal
                                  + of_active n rest
                                  + of_completed n s.completed)
                            ≡ total n)
                        × All P s.pending
                        × AllActive P rest
                        × All (IsGenuine world P) s.completed
                        × ((summary : Summary)
                            → result ≡ ok summary
                            → IsGenuine world P (a.task.output_ordinal, summary)) =
                    λ ok_so_far.
                      let (counts, waiting, working, done) = counted ok_so_far in
                      let (its, others) =
                        swap_remove-AllActive P position s.active a rest e working in
                      (
                        λ n.
                            let removed = swap_remove-of_active n position s.active a rest e in
                            omega (arith, counts n),
                        waiting,
                        others,
                        done,
                        λ summary fine.
                            join_task-IsGenuine world phase P a t1 outcome v summary its h1 fine,
                      ) in
                  subst (IsAccounted world P total)
                    (ap (λ (p : ℕ × Scheduler Fault Summary). p.1) (sym same))
                    (settle_task-IsAccounted world phase P total a
                      (task_result world phase a outcome) shrunk v settled w taken h2)
            ]
      ]

  reap-IsAccounted :
      (count position : ℕ) (s : Scheduler Fault Summary) (t : List Event)
      (after : Scheduler Fault Summary) (u : List Event)
      → IsAccounted world P total s
      → Yields (reap world phase count position s) t after u
      → IsAccounted world P total after
  unfolding reap
  reap-IsAccounted zero position s t after u counted h =
      pure-IsAccounted world phase P total s t after u counted h
  reap-IsAccounted (suc count) position s t after u counted h =
      let (next, v, h1, rest) =
        >>=-Yields (reap_one world phase position s) (λ next. reap world phase count next.0 next.1)
          t after u h in
      reap-IsAccounted count next.0 next.1 v after u
        (reap_one-IsAccounted position s t next.0 next.1 v counted h1) rest

  abbrev admitting :
      Bool → Scheduler Fault Summary → Run Event (RuntimeError Fault) (Scheduler Fault Summary)
  admitting paused timed =
      if may_admit phase paused timed
      then admit_tasks world phase timed.pending timed
      else pure timed

  admitting-IsAccounted :
      (paused : Bool) (timed : Scheduler Fault Summary) (t : List Event)
      (after : Scheduler Fault Summary) (u : List Event)
      → IsAccounted world P total timed
      → Yields (admitting paused timed) t after u
      → IsAccounted world P total after
  admitting-IsAccounted paused timed t after u counted h =
      let branch : Bool → Type 0 = λ b.
        Yields (if b then admit_tasks world phase timed.pending timed else pure timed) t after u in
      elim (Bool-cases (may_admit phase paused timed)) [
        | inl may ↦
            admit_tasks-IsAccounted world phase P total timed.pending timed t after u counted
              (subst branch may h)
        | inr may_not ↦
            pure-IsAccounted world phase P total timed t after u counted (subst branch may_not h)
      ]

  pub schedule_round-IsAccounted :
      (phase_started : ℕ) (s : Scheduler Fault Summary) (t : List Event)
      (after : Scheduler Fault Summary) (u : List Event)
      → IsAccounted world P total s
      → Yields (schedule_round world phase phase_started s) t after u
      → IsAccounted world P total after
  unfolding schedule_round
  schedule_round-IsAccounted phase_started s t after u counted h =
      let Step : Type 0 = Run Event (RuntimeError Fault) (Scheduler Fault Summary) in
      let resting : Scheduler Fault Summary → Step = λ reaped.
        is_idle world phase reaped >>= λ idle.
        (if idle then ask slept (λ v. tt) else pure tt) >> pure reaped in
      let collecting : Scheduler Fault Summary → Step = λ admitted.
        flag_timeouts world phase admitted.active >>= λ active.
        reap world phase (length active) 0 (record admitted { active = active }) >>= resting in
      let pausing : Scheduler Fault Summary → Step = λ timed.
        ask asked_paused world.paused >>= λ paused. admitting paused timed >>= collecting in
      let timing : Scheduler Fault Summary → Step =
        λ polled. poll_timeout world phase phase_started polled >>= pausing in
      let (x, v0, h0, g0) =
        >>=-Yields (publish world phase published_allocations)
          (λ _. poll_cancellation world phase s >>= timing) t after u h in
      let (polled, v1, h1, g1) =
        >>=-Yields (poll_cancellation world phase s) timing v0 after u g0 in
      let (timed, v2, h2, g2) =
        >>=-Yields (poll_timeout world phase phase_started polled) pausing v1 after u g1 in
      let paused = world.paused v2 in
      let (admitted, v3, h3, g3) =
        >>=-Yields (admitting paused timed) collecting (asked_paused ∷ v2) after u g2 in
      let (active, v4, h4, g4) =
        >>=-Yields (flag_timeouts world phase admitted.active)
          (λ active.
            reap world phase (length active) 0 (record admitted { active = active }) >>= resting)
          v3 after u g3 in
      let flagged = record admitted { active = active } in
      let (reaped, v5, h5, g5) =
        >>=-Yields (reap world phase (length active) 0 flagged) resting v4 after u g4 in
      let (idle, v6, h6, g6) =
        >>=-Yields (is_idle world phase reaped)
          (λ idle. (if idle then ask slept (λ v. tt) else pure tt) >> pure reaped) v5 after u g5 in
      let (y, v7, h7, g7) =
        >>=-Yields (if idle then ask slept (λ v. tt) else pure tt) (λ _. pure reaped) v6 after u
          g6 in
      let counted1 = poll_cancellation-IsAccounted world phase P total s v0 polled v1 counted h1 in
      let counted2 =
        poll_timeout-IsAccounted world phase P total phase_started polled v1 timed v2 counted1 h2 in
      let counted3 =
        admitting-IsAccounted paused timed (asked_paused ∷ v2) admitted v3 counted2 h3 in
      let counted4 : IsAccounted world P total flagged = λ ok_so_far.
        let (counts, waiting, working, done) = counted3 ok_so_far in
        (
          λ n.
              let same =
                flag_timeouts-of_active world phase P total n admitted.active v3 active v4 h4 in
              omega (arith, same, counts n),
          waiting,
          flag_timeouts-AllActive world phase P admitted.active v3 active v4 h4 working,
          done,
        ) in
      let counted5 = reap-IsAccounted (length active) 0 flagged v4 reaped v5 counted4 h5 in
      pure-IsAccounted world phase P total reaped v7 after u counted5 g7
