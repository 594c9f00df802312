-- ===== src/Runtime/Phase/Invariant.antt =====
-- What holds between two rounds of the loop of rust/src/runtime/execution/phase.rs.
use scientific_workflow.Prelude.{
  ℕ, suc, ◌+◌, ◌≤◌, ◌≡◌, refl, sym, ap, subst, inl, inr, Bool, true, false, not, ◌&&◌, ◌||◌,
  Bool-cases, some, Option-cases, is_some, ltb, if◌then◌else◌, Result-cases, List, [], ◌∷◌, ◌++◌,
  All, length, length-append, arith,
}
use scientific_workflow.Prelude.Runs.{Run, ◌>>=◌, pure, Yields, >>=-Yields, pure-Yields}
use scientific_workflow.Runtime.Phase.{
  StudyTask, StudyPhase, RuntimeError, Event, asked_cancellation, asked_scheduler, asked_time,
  asked_paused, tried_resources, spawned, World, ActiveTask, Scheduler, is_fail_fast, cancel_all,
  task_exceeded_timeout, stop_all, ask, ask_or_fail, poll_cancellation, is_waiting, poll_timeout,
  started_task, admit_tasks,
}

abbrev pub IsCancelled : ActiveTask → Type 0
IsCancelled a = a.cancellation ≡ true

-- The run, the phase or, where it fails fast, one of its tasks has failed.
abbrev pub is_stopped : {Fault Summary : Type 0} → StudyPhase → Scheduler Fault Summary → Bool
is_stopped phase s =
    s.cancelled || (s.timed_out || (is_some s.first_error && is_fail_fast phase.failure_policy))

pub record IsSane {Fault Summary : Type 0} (phase : StudyPhase) (s : Scheduler Fault Summary)
    : Type 0 where
  pub bounded : length s.active ≤ phase.max_concurrency
  pub stopped : is_stopped phase s ≡ true → (s.pending ≡ []) × All IsCancelled s.active

pub length-cancel_all : (active : List ActiveTask) → length (cancel_all active) ≡ length active
unfolding cancel_all
length-cancel_all [] = refl
length-cancel_all (a ∷ active) = ap suc (length-cancel_all active)

pub cancel_all-IsCancelled : (active : List ActiveTask) → All IsCancelled (cancel_all active)
unfolding cancel_all
cancel_all-IsCancelled [] = tt
cancel_all-IsCancelled (a ∷ active) = (refl, cancel_all-IsCancelled active)

module _ {Fault Summary : Type 0} (phase : StudyPhase) where
  -- A scheduler that has dropped its queue and told its tasks to stop is sane whatever its flags.
  pub stop_all-IsSane :
      (s after : Scheduler Fault Summary)
      → length s.active ≤ phase.max_concurrency
      → after.pending ≡ []
      → after.active ≡ cancel_all s.active
      → IsSane phase after
  stop_all-IsSane s after bounded pending active = record {
    bounded =
        subst (λ (xs : List ActiveTask). length xs ≤ phase.max_concurrency) (sym active)
          (omega (arith, length-cancel_all s.active));
    stopped =
        λ e. (pending, subst (All IsCancelled) (sym active) (cancel_all-IsCancelled s.active));
  }

module _ {Fault Summary : Type 0} (world : World Fault Summary) (phase : StudyPhase) where
  pub poll_cancellation-IsSane :
      (s : Scheduler Fault Summary) (t : List Event) (after : Scheduler Fault Summary)
      (u : List Event)
      → IsSane phase s
      → Yields (poll_cancellation world phase s) t after u
      → IsSane phase after
  unfolding poll_cancellation stop_all
  poll_cancellation-IsSane s t after u sane h =
      let next : Bool → Run Event (RuntimeError Fault) (Scheduler Fault Summary) = λ wanted.
        pure (if wanted && not s.cancelled then record (stop_all s) { cancelled = true } else s) in
      let scheduler : Bool → Run Event (RuntimeError Fault) Bool = λ requested.
        if requested then pure true else ask asked_scheduler world.scheduler_cancelled in
      let (requested, v, h1, rest) =
        >>=-Yields (ask_or_fail asked_cancellation world.cancellation_requested)
          (λ requested. scheduler requested >>= next) t after u h in
      let (wanted, w, h2, rest2) = >>=-Yields (scheduler requested) next v after u rest in
      let (same, ended) =
        pure-Yields
          (if wanted && not s.cancelled then record (stop_all s) { cancelled = true } else s) w
          after u rest2 in
      elim (Bool-cases (wanted && not s.cancelled)) [
        | inl e ↦
            let is : after ≡ record (stop_all s) { cancelled = true } = ground arith in
            stop_all-IsSane phase s after sane.bounded
              (ap (λ (x : Scheduler Fault Summary). x.pending) is)
              (ap (λ (x : Scheduler Fault Summary). x.active) is)
        | inr e ↦ let is : after ≡ s = ground arith in subst (IsSane phase) (sym is) sane
      ]

  pub poll_timeout-IsSane :
      (phase_started : ℕ) (s : Scheduler Fault Summary) (t : List Event)
      (after : Scheduler Fault Summary) (u : List Event)
      → IsSane phase s
      → Yields (poll_timeout world phase phase_started s) t after u
      → IsSane phase after
  unfolding poll_timeout stop_all
  poll_timeout-IsSane phase_started s t after u sane h = elim (Option-cases phase.timeout) [
    | inl e ↦
        let unchanged : Yields {E = RuntimeError Fault} (pure s) t after u = ground arith in
        subst (IsSane phase) (sym (pure-Yields s t after u unchanged).0) sane
    | inr (timeout, e) ↦
        let clock = world.now t in
        let waits : Run Event (RuntimeError Fault) Bool =
          if task_exceeded_timeout phase_started clock timeout
          then is_waiting world phase s
          else pure false in
        let next : Bool → Run Event (RuntimeError Fault) (Scheduler Fault Summary) =
          λ waiting. pure (if waiting then record (stop_all s) { timed_out = true } else s) in
        let ran : Yields (waits >>= next) (asked_time ∷ t) after u = ground arith in
        let (waiting, v, h1, rest) = >>=-Yields waits next (asked_time ∷ t) after u ran in
        let (same, ended) =
          pure-Yields (if waiting then record (stop_all s) { timed_out = true } else s) v after u
            rest in
        elim (Bool-cases waiting) [
          | inl e2 ↦
              let is : after ≡ record (stop_all s) { timed_out = true } = ground arith in
              stop_all-IsSane phase s after sane.bounded
                (ap (λ (x : Scheduler Fault Summary). x.pending) is)
                (ap (λ (x : Scheduler Fault Summary). x.active) is)
          | inr e2 ↦ let is : after ≡ s = ground arith in subst (IsSane phase) (sym is) sane
        ]
  ]

  -- Nothing is wrong so far, and there is room for the active tasks.
  abbrev pub MayAdmit : Scheduler Fault Summary → Type 0
  MayAdmit s = (is_stopped phase s ≡ false) × (length s.active ≤ phase.max_concurrency)

  running-IsSane : (s : Scheduler Fault Summary) → MayAdmit s → IsSane phase s
  running-IsSane s (runs, bounded) = record {
    bounded = bounded;
    stopped = λ e. absurd (ground arith);
  }

  pub admit_tasks-IsSane :
      (pending : List StudyTask) (s : Scheduler Fault Summary) (t : List Event)
      (after : Scheduler Fault Summary) (u : List Event)
      → MayAdmit s
      → Yields (admit_tasks world phase pending s) t after u
      → IsSane phase after
  unfolding admit_tasks stop_all
  admit_tasks-IsSane [] s t after u may h =
      let emptied = record s { pending = [] } in
      let (same, ended) = pure-Yields emptied (asked_paused ∷ t) after u h in
      subst (IsSane phase) (sym same) (running-IsSane emptied may)
  admit_tasks-IsSane (task ∷ pending) s t after u may h =
      let stopped = record s { pending = task ∷ pending } in
      let sane : IsSane phase stopped = running-IsSane stopped may in
      let unchanged : (v : List Event)
          → Yields {E = RuntimeError Fault} (pure stopped) v after u
          → IsSane phase after =
        λ v ran. subst (IsSane phase) (sym (pure-Yields stopped v after u ran).0) sane in
      let t1 = asked_paused ∷ t in
      let t2 = asked_time ∷ t1 in
      let t3 = tried_resources task.output_ordinal ∷ t2 in
      let t4 = spawned task.output_ordinal ∷ t3 in
      let t5 = asked_time ∷ t4 in
      elim (Bool-cases (world.paused t || not (ltb (length s.active) phase.max_concurrency))) [
        | inl full ↦ unchanged t1 (ground arith)
        | inr room ↦ elim (Bool-cases (ltb (world.now t1) s.next_admission)) [
          | inl early ↦ unchanged t2 (ground arith)
          | inr due ↦ elim (Bool-cases (not (world.try_acquire task t2))) [
            | inl refused ↦ unchanged t3 (ground arith)
            | inr granted ↦ elim (Result-cases (world.spawn_task task t3)) [
              | inr (error, failed) ↦
                  let ended = record (stop_all s) { first_error = some error } in
                  let ran : Yields {E = RuntimeError Fault} (pure ended) t4 after u =
                    ground arith in
                  let (same, e) = pure-Yields ended t4 after u ran in
                  stop_all-IsSane phase s after may.1
                    (ap (λ (x : Scheduler Fault Summary). x.pending) same)
                    (ap (λ (x : Scheduler Fault Summary). x.active) same)
              | inl (started, e) ↦
                  let more = record s {
                    active = s.active ++ started_task world phase task started ∷ [];
                    next_admission = world.now t4 + phase.start_interval;
                  } in
                  let ran : Yields (admit_tasks world phase pending more) t5 after u =
                    ground arith in
                  let longer =
                    length-append s.active (started_task world phase task started ∷ []) in
                  admit_tasks-IsSane pending more t5 after u (may.0, ground arith) ran
            ]
          ]
        ]
      ]
