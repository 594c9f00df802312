-- ===== src/Runtime/Phase/Account.antt =====
-- No task is lost by the loop of rust/src/runtime/execution/phase.rs while nothing has failed.
use scientific_workflow.Prelude.{
  ℕ, zero, suc, ◌+◌, ◌≡◌, refl, sym, ap, ◌∙◌, subst, inl, inr, Bool, true, false, not, ◌&&◌, ◌||◌,
  Bool-cases, some, Option-cases, is_some, ltb, ◌==◌, if◌then◌else◌, Result, ok, err, Result-cases,
  List, [], ◌∷◌, ◌++◌, sum_by, sum_by-append, length, All, All-append, arith,
}
use scientific_workflow.Prelude.Runs.{Run, ◌>>=◌, pure, Yields, >>=-Yields, pure-Yields}
use scientific_workflow.Runtime.Phase.{
  StudyTask, StudyPhase, RuntimeError, Event, asked_cancellation, asked_scheduler, asked_time,
  asked_paused, tried_resources, spawned, published_completed, World, ActiveTask, Scheduler,
  is_fail_fast, or_first, task_exceeded_timeout, stop_all, ask, ask_or_fail, poll_cancellation,
  is_waiting, poll_timeout, started_task, admit_tasks, flag_timeout, flag_timeouts, failure_event,
  settle_task, split_last, last_to_front, swap_remove,
}
use scientific_workflow.Runtime.Phase.Genuine.{AllActive, IsGenuine, flag_timeout-task}

abbrev pub one : ℕ → ℕ → ℕ
one n ordinal = if ordinal == n then 1 else 0

-- How many of the tasks have the ordinal `n`.
abbrev pub of_tasks : ℕ → List StudyTask → ℕ
of_tasks n tasks = sum_by (λ (task : StudyTask). one n task.output_ordinal) tasks

abbrev pub of_active : ℕ → List ActiveTask → ℕ
of_active n active = sum_by (λ (a : ActiveTask). one n a.task.output_ordinal) active

abbrev pub of_completed : {Summary : Type 0} → ℕ → List (ℕ × Summary) → ℕ
of_completed {Summary} n completed = sum_by (λ (c : ℕ × Summary). one n c.0) completed

abbrev pub has_failed : {Fault Summary : Type 0} → Scheduler Fault Summary → Bool
has_failed s = s.cancelled || (s.timed_out || is_some s.first_error)

-- While nothing has failed, the tasks with an ordinal are pending, active or completed, those that
-- are pending or active are among the ones that `P` admits, and each summary is its task's own.
abbrev pub IsAccounted :
    {Fault Summary : Type 0}
    → World Fault Summary
    → (StudyTask → Type 0)
    → (ℕ → ℕ)
    → Scheduler Fault Summary
    → Type 0
IsAccounted world P total s =
    has_failed s ≡ false
    → ((n : ℕ)
        → of_tasks n s.pending + (of_active n s.active + of_completed n s.completed) ≡ total n)
      × All P s.pending
      × AllActive P s.active
      × All (IsGenuine world P) s.completed

split_last-of_active :
    (n : ℕ) (a : ActiveTask) (rest : List ActiveTask)
    → of_active n ((split_last a rest).1 ∷ (split_last a rest).0) ≡ of_active n (a ∷ rest)
split_last-of_active n a [] = refl
split_last-of_active n a (b ∷ rest) = omega (arith, split_last-of_active n b rest)

last_to_front-of_active :
    (n : ℕ) (rest : List ActiveTask) → of_active n (last_to_front rest) ≡ of_active n rest
last_to_front-of_active n [] = refl
last_to_front-of_active n (a ∷ rest) = split_last-of_active n a rest

pub swap_remove-of_active :
    (n position : ℕ) (active : List ActiveTask) (a : ActiveTask) (rest : List ActiveTask)
    → swap_remove position active ≡ some (a, rest)
    → of_active n active ≡ one n a.task.output_ordinal + of_active n rest
unfolding swap_remove
swap_remove-of_active n position [] a rest h = absurd (ground arith)
swap_remove-of_active n zero (b ∷ active) a rest h =
    let same : last_to_front active ≡ rest = ground arith in
    let is_b : b ≡ a = ground arith in
    let front = last_to_front-of_active n active in
    omega (arith, ap (λ (x : ActiveTask). one n x.task.output_ordinal) is_b, ap (of_active n) same)
swap_remove-of_active n (suc position) (b ∷ active) a rest h =
    elim (Option-cases (swap_remove position active)) [
      | inl e ↦ absurd (ground arith)
      | inr ((c, others), e) ↦
          let same : b ∷ others ≡ rest = ground arith in
          let is_c : c ≡ a = ground arith in
          let ih = swap_remove-of_active n position active c others e in
          omega (
            arith,
            ap (λ (x : ActiveTask). one n x.task.output_ordinal) is_c,
            ap (of_active n) same,
          )
    ]

module _ {Fault Summary : Type 0} (world : World Fault Summary) (phase : StudyPhase)
    (P : StudyTask → Type 0) (total : ℕ → ℕ) where
  pub poll_cancellation-IsAccounted :
      (s : Scheduler Fault Summary) (t : List Event) (after : Scheduler Fault Summary)
      (u : List Event)
      → IsAccounted world P total s
      → Yields (poll_cancellation world phase s) t after u
      → IsAccounted world P total after
  unfolding poll_cancellation stop_all
  poll_cancellation-IsAccounted s t after u counted h =
      let cancelled = record (stop_all s) { cancelled = true } in
      let next : Bool → Run Event (RuntimeError Fault) (Scheduler Fault Summary) =
        λ wanted. pure (if wanted && not s.cancelled then cancelled else s) in
      let scheduler : Bool → Run Event (RuntimeError Fault) Bool = λ requested.
        if requested then pure true else ask asked_scheduler world.scheduler_cancelled in
      let (requested, v, h1, rest) =
        >>=-Yields (ask_or_fail asked_cancellation world.cancellation_requested)
          (λ requested. scheduler requested >>= next) t after u h in
      let (wanted, w, h2, rest2) = >>=-Yields (scheduler requested) next v after u rest in
      let (same, ended) =
        pure-Yields (if wanted && not s.cancelled then cancelled else s) w after u rest2 in
      elim (Bool-cases (wanted && not s.cancelled)) [
        | inl e ↦
            let is : after ≡ cancelled = ground arith in
            subst (IsAccounted world P total) (sym is) (λ ok_so_far. absurd (ground arith))
        | inr e ↦
            let is : after ≡ s = ground arith in subst (IsAccounted world P total) (sym is) counted
      ]

  pub poll_timeout-IsAccounted :
      (phase_started : ℕ) (s : Scheduler Fault Summary) (t : List Event)
      (after : Scheduler Fault Summary) (u : List Event)
      → IsAccounted world P total s
      → Yields (poll_timeout world phase phase_started s) t after u
      → IsAccounted world P total after
  unfolding poll_timeout stop_all
  poll_timeout-IsAccounted phase_started s t after u counted h =
      let late = record (stop_all s) { timed_out = true } in
      elim (Option-cases phase.timeout) [
        | inl e ↦
            let unchanged : Yields {E = RuntimeError Fault} (pure s) t after u = ground arith in
            subst (IsAccounted world P total) (sym (pure-Yields s t after u unchanged).0) counted
        | inr (timeout, e) ↦
            let waits : Run Event (RuntimeError Fault) Bool =
              if task_exceeded_timeout phase_started (world.now t) timeout
              then is_waiting world phase s
              else pure false in
            let next : Bool → Run Event (RuntimeError Fault) (Scheduler Fault Summary) =
              λ waiting. pure (if waiting then late else s) in
            let ran : Yields (waits >>= next) (asked_time ∷ t) after u = ground arith in
            let (waiting, v, h1, rest) = >>=-Yields waits next (asked_time ∷ t) after u ran in
            let (same, ended) = pure-Yields (if waiting then late else s) v after u rest in
            elim (Bool-cases waiting) [
              | inl e2 ↦
                  let is : after ≡ late = ground arith in
                  subst (IsAccounted world P total) (sym is) (λ ok_so_far. absurd (ground arith))
              | inr e2 ↦
                  let is : after ≡ s = ground arith in
                  subst (IsAccounted world P total) (sym is) counted
            ]
      ]

  pub pure-IsAccounted :
      (s : Scheduler Fault Summary) (t : List Event) (after : Scheduler Fault Summary)
      (u : List Event)
      → IsAccounted world P total s
      → Yields {E = RuntimeError Fault} (pure s) t after u
      → IsAccounted world P total after
  pure-IsAccounted s t after u counted h =
      subst (IsAccounted world P total) (sym (pure-Yields s t after u h).0) counted

  pub admit_tasks-IsAccounted :
      (pending : List StudyTask) (s : Scheduler Fault Summary) (t : List Event)
      (after : Scheduler Fault Summary) (u : List Event)
      → IsAccounted world P total (record s { pending = pending })
      → Yields (admit_tasks world phase pending s) t after u
      → IsAccounted world P total after
  unfolding admit_tasks stop_all
  admit_tasks-IsAccounted [] s t after u counted h =
      pure-IsAccounted (record s { pending = [] }) (asked_paused ∷ t) after u counted h
  admit_tasks-IsAccounted (task ∷ pending) s t after u counted h =
      let stopped = record s { pending = task ∷ pending } in
      let t1 = asked_paused ∷ t in
      let t2 = asked_time ∷ t1 in
      let t3 = tried_resources task.output_ordinal ∷ t2 in
      let t4 = spawned task.output_ordinal ∷ t3 in
      let t5 = asked_time ∷ t4 in
      elim (Bool-cases (world.paused t || not (ltb (length s.active) phase.max_concurrency))) [
        | inl full ↦ pure-IsAccounted stopped t1 after u counted (ground arith)
        | inr room ↦ elim (Bool-cases (ltb (world.now t1) s.next_admission)) [
          | inl early ↦ pure-IsAccounted stopped t2 after u counted (ground arith)
          | inr due ↦ elim (Bool-cases (not (world.try_acquire task t2))) [
            | inl refused ↦ pure-IsAccounted stopped t3 after u counted (ground arith)
            | inr granted ↦ elim (Result-cases (world.spawn_task task t3)) [
              | inr (error, failed) ↦
                  let ended = record (stop_all s) { first_error = some error } in
                  let vacuous : IsAccounted world P total ended =
                    λ ok_so_far. absurd (ground arith) in
                  pure-IsAccounted ended t4 after u vacuous (ground arith)
              | inl (started, e) ↦
                  let new_task = started_task world phase task started in
                  let more = record s {
                    active = s.active ++ new_task ∷ [];
                    next_admission = world.now t4 + phase.start_interval;
                  } in
                  let ran : Yields (admit_tasks world phase pending more) t5 after u =
                    ground arith in
                  let moved : IsAccounted world P total (record more { pending = pending }) =
                    λ ok_so_far.
                      let (counts, waiting, working, done) = counted ok_so_far in
                      (
                        λ n.
                            let appended =
                              sum_by-append (λ (a : ActiveTask). one n a.task.output_ordinal)
                                s.active (new_task ∷ []) in
                            omega (arith, counts n),
                        waiting.1,
                        All-append (λ (a : ActiveTask). P a.task) s.active (new_task ∷ []) working
                            (waiting.0, tt),
                        done,
                      ) in
                  admit_tasks-IsAccounted pending more t5 after u moved ran
            ]
          ]
        ]
      ]

  pub flag_timeouts-of_active :
      (n : ℕ) (active : List ActiveTask) (t : List Event) (after : List ActiveTask) (u : List Event)
      → Yields (flag_timeouts world phase active) t after u
      → of_active n after ≡ of_active n active
  unfolding flag_timeouts
  flag_timeouts-of_active n [] t after u h = ap (of_active n) (pure-Yields [] t after u h).0
  flag_timeouts-of_active n (a ∷ active) t after u h =
      let (b, v, h1, rest) =
        >>=-Yields (flag_timeout world phase a)
          (λ b. flag_timeouts world phase active >>= λ bs. pure (b ∷ bs)) t after u h in
      let (bs, w, h2, rest2) =
        >>=-Yields (flag_timeouts world phase active) (λ bs. pure (b ∷ bs)) v after u rest in
      let ih = flag_timeouts-of_active n active v bs w h2 in
      let same =
        ap (λ (k : StudyTask). one n k.output_ordinal) (flag_timeout-task world phase a t b v h1) in
      ap (of_active n) (pure-Yields (b ∷ bs) w after u rest2).0 ∙ omega (arith, ih, same)

  pub settle_task-IsAccounted :
      (a : ActiveTask) (result : Result (RuntimeError Fault) Summary) (s : Scheduler Fault Summary)
      (t : List Event) (after : Scheduler Fault Summary) (u : List Event)
      → (has_failed s ≡ false
          → ((n : ℕ)
              → of_tasks n s.pending
                  + (one n a.task.output_ordinal
                      + of_active n s.active
                      + of_completed n s.completed)
                ≡ total n)
            × All P s.pending
            × AllActive P s.active
            × All (IsGenuine world P) s.completed
            × ((summary : Summary)
                → result ≡ ok summary
                → IsGenuine world P (a.task.output_ordinal, summary)))
      → Yields (settle_task world phase a result s) t after u
      → IsAccounted world P total after
  unfolding settle_task stop_all
  settle_task-IsAccounted a (ok summary) s t after u counted h =
      let event = published_completed a.task.output_ordinal in
      let done = record s { completed = s.completed ++ (a.task.output_ordinal, summary) ∷ [] } in
      let (x, v, h1, rest) =
        >>=-Yields (ask_or_fail event (world.publish event)) (λ _. pure done) t after u h in
      let moved : IsAccounted world P total done = λ ok_so_far.
        let (counts, waiting, working, finished, own) = counted ok_so_far in
        (
          λ n.
              let appended =
                sum_by-append (λ (c : ℕ × Summary). one n c.0) s.completed
                  ((a.task.output_ordinal, summary) ∷ []) in
              omega (arith, counts n),
          waiting,
          working,
          All-append (IsGenuine world P) s.completed ((a.task.output_ordinal, summary) ∷ [])
              finished (own summary refl, tt),
        ) in
      pure-IsAccounted done v after u moved rest
  settle_task-IsAccounted a (err error) s t after u counted h =
      let event = failure_event world phase error a.task.output_ordinal in
      let failed = record s { first_error = or_first s.first_error error } in
      let ended = if is_fail_fast phase.failure_policy then stop_all failed else failed in
      let (x, v, h1, rest) =
        >>=-Yields (ask_or_fail event (world.publish event)) (λ _. pure ended) t after u h in
      let still : is_some failed.first_error ≡ true = elim (Option-cases s.first_error) [
        | inl e ↦ ground arith
        | inr (f, e) ↦ ground arith
      ] in
      let vacuous : IsAccounted world P total ended =
        elim (Bool-cases (is_fail_fast phase.failure_policy)) [
          | inl fast ↦ λ ok_so_far. absurd (ground arith)
          | inr slow ↦ λ ok_so_far. absurd (ground arith)
        ] in
      pure-IsAccounted ended v after u vacuous rest
