-- ===== src/Runtime/Phase/Reaping.antt =====
-- The collection of finished workers in rust/src/runtime/execution/phase.rs keeps the scheduler
-- within its bounds.
use scientific_workflow.Prelude.{
  ℕ, zero, suc, ◌+◌, ◌≤◌, ◌≡◌, refl, sym, ap, subst, inl, inr, not, Bool-cases, some, Option-cases,
  if◌then◌else◌, Result, ok, err, List, [], ◌∷◌, ◌++◌, All, length, arith,
}
use scientific_workflow.Prelude.Runs.{Run, ◌>>=◌, pure, Yields, >>=-Yields, pure-Yields}
use scientific_workflow.Runtime.Phase.{
  StudyPhase, RuntimeError, Event, asked_time, asked_finished, published_completed, World,
  TaskWorkerOutcome, ActiveTask, Scheduler, is_fail_fast, cancel_task, task_exceeded_timeout,
  or_first, stop_all, ask_or_fail, flag_timeout, flag_timeouts, failure_event, task_result,
  join_task, settle_task, split_last, last_to_front, swap_remove, reap_one, reap,
}
use scientific_workflow.Runtime.Phase.Invariant.{IsCancelled, IsSane, stop_all-IsSane}

-- A list that is as long as another, and all cancelled if that is.
abbrev pub Keeps : List ActiveTask → List ActiveTask → Type 0
Keeps before after =
    (length after ≤ length before) × (All IsCancelled before → All IsCancelled after)

split_last-Keeps :
    (a : ActiveTask) (rest : List ActiveTask)
    → Keeps (a ∷ rest) ((split_last a rest).1 ∷ (split_last a rest).0)
split_last-Keeps a [] = (omega arith, λ h. h)
split_last-Keeps a (b ∷ rest) =
    let (shorter, kept) = split_last-Keeps b rest in
    (omega arith, λ h. let k = kept h.1 in (k.0, (h.0, k.1)))

last_to_front-Keeps : (rest : List ActiveTask) → Keeps rest (last_to_front rest)
last_to_front-Keeps [] = (omega arith, λ h. h)
last_to_front-Keeps (a ∷ rest) = split_last-Keeps a rest

pub swap_remove-Keeps :
    (position : ℕ) (active : List ActiveTask) (a : ActiveTask) (rest : List ActiveTask)
    → swap_remove position active ≡ some (a, rest)
    → Keeps active rest
unfolding swap_remove
swap_remove-Keeps position [] a rest h = absurd (ground arith)
swap_remove-Keeps zero (b ∷ active) a rest h =
    let same : last_to_front active ≡ rest = ground arith in
    let (shorter, kept) = last_to_front-Keeps active in
    subst (Keeps (b ∷ active)) same (omega arith, λ k. kept k.1)
swap_remove-Keeps (suc position) (b ∷ active) a rest h =
    elim (Option-cases (swap_remove position active)) [
      | inl e ↦ absurd (ground arith)
      | inr ((c, others), e) ↦
          let same : b ∷ others ≡ rest = ground arith in
          let (shorter, kept) = swap_remove-Keeps position active c others e in
          subst (Keeps (b ∷ active)) same (omega arith, λ k. (k.0, kept k.1))
    ]

module _ {Fault Summary : Type 0} (world : World Fault Summary) (phase : StudyPhase) where
  flag_timeout-IsCancelled :
      (a : ActiveTask) (t : List Event) (b : ActiveTask) (u : List Event)
      → Yields (flag_timeout world phase a) t b u
      → IsCancelled a
      → IsCancelled b
  unfolding flag_timeout
  flag_timeout-IsCancelled a t b u h cancelled =
      let unchanged : (v : List Event)
          → Yields {E = RuntimeError Fault} (pure a) v b u
          → IsCancelled b =
        λ v ran. subst IsCancelled (sym (pure-Yields a v b u ran).0) cancelled in
      let t1 = asked_time ∷ t in
      let t2 = asked_finished a.task.output_ordinal ∷ t1 in
      elim (Option-cases a.task.timeout) [
        | inl e ↦ unchanged t (ground arith)
        | inr (timeout, e) ↦
            elim (Bool-cases (not (task_exceeded_timeout a.started (world.now t) timeout))) [
              | inl early ↦ unchanged t1 (ground arith)
              | inr late ↦ elim (Bool-cases (world.is_finished a.task t1)) [
                | inl finished ↦ unchanged t2 (ground arith)
                | inr running ↦
                    let ran : Yields {E = RuntimeError Fault} (pure (cancel_task a)) t2 b u =
                      ground arith in
                    subst IsCancelled (sym (pure-Yields (cancel_task a) t2 b u ran).0) refl
              ]
            ]
      ]

  pub flag_timeouts-Keeps :
      (active : List ActiveTask) (t : List Event) (after : List ActiveTask) (u : List Event)
      → Yields (flag_timeouts world phase active) t after u
      → Keeps active after
  unfolding flag_timeouts
  flag_timeouts-Keeps [] t after u h =
      subst (Keeps []) (sym (pure-Yields [] t after u h).0) (omega arith, λ k. k)
  flag_timeouts-Keeps (a ∷ active) t after u h =
      let (b, v, h1, rest) =
        >>=-Yields (flag_timeout world phase a)
          (λ b. flag_timeouts world phase active >>= λ bs. pure (b ∷ bs)) t after u h in
      let (bs, w, h2, rest2) =
        >>=-Yields (flag_timeouts world phase active) (λ bs. pure (b ∷ bs)) v after u rest in
      let (shorter, kept) = flag_timeouts-Keeps active v bs w h2 in
      let flagged = flag_timeout-IsCancelled a t b v h1 in
      subst (Keeps (a ∷ active)) (sym (pure-Yields (b ∷ bs) w after u rest2).0)
        (omega arith, λ k. (flagged k.0, kept k.1))

  -- The scheduler may lose an active task without harm.
  pub shrink-IsSane :
      (s : Scheduler Fault Summary) (rest : List ActiveTask)
      → Keeps s.active rest
      → IsSane phase s
      → IsSane phase (record s { active = rest })
  shrink-IsSane s rest (shorter, kept) sane = record {
    bounded = let b = sane.bounded in omega arith;
    stopped = λ e. let (empty, all_cancelled) = sane.stopped e in (empty, kept all_cancelled);
  }

  settle_task-IsSane :
      (a : ActiveTask) (result : Result (RuntimeError Fault) Summary) (s : Scheduler Fault Summary)
      (t : List Event) (after : Scheduler Fault Summary) (u : List Event)
      → IsSane phase s
      → Yields (settle_task world phase a result s) t after u
      → IsSane phase after
  unfolding settle_task stop_all
  settle_task-IsSane a (ok summary) s t after u sane h =
      let event = published_completed a.task.output_ordinal in
      let done = record s { completed = s.completed ++ (a.task.output_ordinal, summary) ∷ [] } in
      let (x, v, h1, rest) =
        >>=-Yields (ask_or_fail event (world.publish event)) (λ _. pure done) t after u h in
      subst (IsSane phase) (sym (pure-Yields done v after u rest).0)
        (record { bounded = sane.bounded; stopped = sane.stopped })
  settle_task-IsSane a (err error) s t after u sane h =
      let event = failure_event world phase error a.task.output_ordinal in
      let failed = record s { first_error = or_first s.first_error error } in
      let ended = if is_fail_fast phase.failure_policy then stop_all failed else failed in
      let (x, v, h1, rest) =
        >>=-Yields (ask_or_fail event (world.publish event)) (λ _. pure ended) t after u h in
      let (same, e) = pure-Yields ended v after u rest in
      elim (Bool-cases (is_fail_fast phase.failure_policy)) [
        | inl fast ↦
            let is : after ≡ stop_all failed = ground arith in
            stop_all-IsSane phase failed after sane.bounded
              (ap (λ (y : Scheduler Fault Summary). y.pending) is)
              (ap (λ (y : Scheduler Fault Summary). y.active) is)
        | inr slow ↦
            let is : after ≡ failed = ground arith in
            let sane_failed : IsSane phase failed = record {
              bounded = sane.bounded;
              stopped = λ stop. sane.stopped (ground arith);
            } in
            subst (IsSane phase) (sym is) sane_failed
      ]

  reap_one-IsSane :
      (position : ℕ) (s : Scheduler Fault Summary) (t : List Event) (next : ℕ)
      (after : Scheduler Fault Summary) (u : List Event)
      → IsSane phase s
      → Yields (reap_one world phase position s) t (next, after) u
      → IsSane phase after
  unfolding reap_one
  reap_one-IsSane position s t next after u sane h =
      let same_scheduler : (n : ℕ) (v : List Event)
          → Yields {E = RuntimeError Fault} (pure (n, s)) v (next, after) u
          → IsSane phase after =
        λ n v ran.
          subst (IsSane phase)
            (ap (λ (p : ℕ × Scheduler Fault Summary). p.1)
              (sym (pure-Yields (n, s) v (next, after) u ran).0))
            sane in
      elim (Option-cases (swap_remove position s.active)) [
        | inl e ↦ same_scheduler position t (ground arith)
        | inr ((a, rest), e) ↦
            let shrunk = shrink-IsSane s rest (swap_remove-Keeps position s.active a rest e) sane in
            let t1 = asked_finished a.task.output_ordinal ∷ t in
            elim (Bool-cases (not (world.is_finished a.task t))) [
              | inl running ↦ same_scheduler (position + 1) t1 (ground arith)
              | inr finished ↦
                  let settling : TaskWorkerOutcome Fault Summary
                      → Run Event (RuntimeError Fault) (Scheduler Fault Summary) =
                    λ outcome.
                      settle_task world phase a (task_result world phase a outcome)
                        (record s { active = rest }) in
                  let pairing : Scheduler Fault Summary
                      → Run Event (RuntimeError Fault) (ℕ × Scheduler Fault Summary) =
                    λ settled. pure (position, settled) in
                  let ran : Yields
                      (join_task world phase a >>= λ outcome. settling outcome >>= pairing) t1
                      (next, after) u =
                    ground arith in
                  let (outcome, v, h1, g1) =
                    >>=-Yields (join_task world phase a) (λ outcome. settling outcome >>= pairing)
                      t1 (next, after) u ran in
                  let (settled, w, h2, g2) =
                    >>=-Yields (settling outcome) pairing v (next, after) u g1 in
                  let (same, e2) = pure-Yields (position, settled) w (next, after) u g2 in
                  subst (IsSane phase) (ap (λ (p : ℕ × Scheduler Fault Summary). p.1) (sym same)) (
                    settle_task-IsSane a (task_result world phase a outcome)
                      (record s { active = rest }) v settled w shrunk h2)
            ]
      ]

  pub reap-IsSane :
      (count position : ℕ) (s : Scheduler Fault Summary) (t : List Event)
      (after : Scheduler Fault Summary) (u : List Event)
      → IsSane phase s
      → Yields (reap world phase count position s) t after u
      → IsSane phase after
  unfolding reap
  reap-IsSane zero position s t after u sane h =
      subst (IsSane phase) (sym (pure-Yields s t after u h).0) sane
  reap-IsSane (suc count) position s t after u sane h =
      let (next, v, h1, rest) =
        >>=-Yields (reap_one world phase position s) (λ next. reap world phase count next.0 next.1)
          t after u h in
      reap-IsSane count next.0 next.1 v after u
        (reap_one-IsSane position s t next.0 next.1 v sane h1) rest
