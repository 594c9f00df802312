-- ===== src/Runtime/Phase/Genuine.antt =====
-- Where the summaries of rust/src/runtime/execution/phase.rs come from: each is what the join of its
-- own task's worker gave.
use scientific_workflow.Prelude.{
  ℕ, zero, suc, ◌≡◌, refl, sym, ap, ◌∙◌, subst, inl, inr, Bool, not, Bool-cases, some, Option-cases,
  leb, if◌then◌else◌, ok, List, [], ◌∷◌, All, arith,
}
use scientific_workflow.Prelude.Runs.{◌>>=◌, pure, Yields, >>=-Yields, pure-Yields}
use scientific_workflow.Runtime.Phase.{
  StudyTask, StudyPhase, RuntimeError, Event, asked_time, asked_finished, World, TaskWorkerOutcome,
  ActiveTask, cancel_task, task_exceeded_timeout, flag_timeout, flag_timeouts, task_result,
  join_task, split_last, last_to_front, swap_remove, insert_by_ordinal, sort_by_ordinal,
}

-- The entry is of a task that `P` admits, under its ordinal, with a summary that joining this task's
-- worker gives, at some history of events.
abbrev pub IsGenuine :
    {Fault Summary : Type 0} → World Fault Summary → (StudyTask → Type 0) → ℕ × Summary → Type 0
IsGenuine {Fault} {Summary} world P (ordinal, summary) =
    (task : StudyTask) × P task
    × (task.output_ordinal ≡ ordinal)
    × (t : List Event) × (outcome : TaskWorkerOutcome Fault Summary) × (world.join task t
        ≡ some outcome)
    × (outcome.result ≡ ok summary)

module _ (P : StudyTask → Type 0) where
  abbrev pub AllActive : List ActiveTask → Type 0
  AllActive active = All (λ (a : ActiveTask). P a.task) active

  split_last-AllActive :
      (a : ActiveTask) (rest : List ActiveTask)
      → P a.task
      → AllActive rest
      → P (split_last a rest).1.task × AllActive (split_last a rest).0
  split_last-AllActive a [] h hs = (h, tt)
  split_last-AllActive a (b ∷ rest) h hs =
      let (last, others) = split_last-AllActive b rest hs.0 hs.1 in (last, (h, others))

  last_to_front-AllActive :
      (rest : List ActiveTask) → AllActive rest → AllActive (last_to_front rest)
  last_to_front-AllActive [] h = tt
  last_to_front-AllActive (a ∷ rest) h = split_last-AllActive a rest h.0 h.1

  pub swap_remove-AllActive :
      (position : ℕ) (active : List ActiveTask) (a : ActiveTask) (rest : List ActiveTask)
      → swap_remove position active ≡ some (a, rest)
      → AllActive active
      → P a.task × AllActive rest
  unfolding swap_remove
  swap_remove-AllActive position [] a rest e h = absurd (ground arith)
  swap_remove-AllActive zero (b ∷ active) a rest e h =
      let same : last_to_front active ≡ rest = ground arith in
      let is_b : b ≡ a = ground arith in
      (
        subst (λ (x : ActiveTask). P x.task) is_b h.0,
        subst AllActive same (last_to_front-AllActive active h.1),
      )
  swap_remove-AllActive (suc position) (b ∷ active) a rest e h =
      elim (Option-cases (swap_remove position active)) [
        | inl missing ↦ absurd (ground arith)
        | inr ((c, others), found) ↦
            let same : b ∷ others ≡ rest = ground arith in
            let is_c : c ≡ a = ground arith in
            let (taken, left) = swap_remove-AllActive position active c others found h.1 in
            (subst (λ (x : ActiveTask). P x.task) is_c taken, subst AllActive same (h.0, left))
      ]

module _ {Summary : Type 0} (Q : ℕ × Summary → Type 0) where
  insert_by_ordinal-All_of :
      (c : ℕ × Summary) (sorted : List (ℕ × Summary))
      → Q c
      → All Q sorted
      → All Q (insert_by_ordinal c sorted)
  unfolding insert_by_ordinal
  insert_by_ordinal-All_of c [] q h = (q, tt)
  insert_by_ordinal-All_of c (d ∷ sorted) q h =
      let goal : Bool → Type 0 =
        λ b. All Q (if b then c ∷ d ∷ sorted else d ∷ insert_by_ordinal c sorted) in
      elim (Bool-cases (leb c.0 d.0)) [
        | inl e ↦ subst goal (sym e) (q, h)
        | inr e ↦ subst goal (sym e) (h.0, insert_by_ordinal-All_of c sorted q h.1)
      ]

  pub sort_by_ordinal-All_of :
      (completed : List (ℕ × Summary)) → All Q completed → All Q (sort_by_ordinal completed)
  unfolding sort_by_ordinal
  sort_by_ordinal-All_of [] h = tt
  sort_by_ordinal-All_of (c ∷ completed) h =
      insert_by_ordinal-All_of c (sort_by_ordinal completed) h.0
        (sort_by_ordinal-All_of completed h.1)

module _ {Fault Summary : Type 0} (world : World Fault Summary) (phase : StudyPhase) where
  pub flag_timeout-task :
      (a : ActiveTask) (t : List Event) (b : ActiveTask) (u : List Event)
      → Yields (flag_timeout world phase a) t b u
      → b.task ≡ a.task
  unfolding flag_timeout
  flag_timeout-task a t b u h =
      let unchanged : (v : List Event)
          → Yields {E = RuntimeError Fault} (pure a) v b u
          → b.task ≡ a.task =
        λ v ran. ap (λ (x : ActiveTask). x.task) (pure-Yields a v b u ran).0 in
      let t1 = asked_time ∷ t in
      let t2 = asked_finished a.task.output_ordinal ∷ t1 in
      elim (Option-cases a.task.timeout) [
        | inl e ↦ unchanged t (ground arith)
        | inr (timeout, e) ↦
            elim (Bool-cases (not (task_exceeded_timeout a.started (world.now t) timeout))) [
              | inl early ↦ unchanged t1 (ground arith)
              | inr late ↦ elim (Bool-cases (world.is_finished a.task t1)) [
                | inl finished ↦ unchanged t2 (ground arith)
                | inr running ↦
                    let ran : Yields {E = RuntimeError Fault} (pure (cancel_task a)) t2 b u =
                      ground arith in
                    ap (λ (x : ActiveTask). x.task) (pure-Yields (cancel_task a) t2 b u ran).0
              ]
            ]
      ]

  pub flag_timeouts-AllActive :
      (P : StudyTask → Type 0) (active : List ActiveTask) (t : List Event) (after : List ActiveTask)
      (u : List Event)
      → Yields (flag_timeouts world phase active) t after u
      → AllActive P active
      → AllActive P after
  unfolding flag_timeouts
  flag_timeouts-AllActive P [] t after u h all =
      subst (AllActive P) (sym (pure-Yields [] t after u h).0) tt
  flag_timeouts-AllActive P (a ∷ active) t after u h all =
      let (b, v, h1, rest) =
        >>=-Yields (flag_timeout world phase a)
          (λ b. flag_timeouts world phase active >>= λ bs. pure (b ∷ bs)) t after u h in
      let (bs, w, h2, rest2) =
        >>=-Yields (flag_timeouts world phase active) (λ bs. pure (b ∷ bs)) v after u rest in
      subst (AllActive P) (sym (pure-Yields (b ∷ bs) w after u rest2).0) (
        subst P (sym (flag_timeout-task a t b v h1)) all.0,
        flag_timeouts-AllActive P active v bs w h2 all.1,
      )

  task_result-ok :
      (a : ActiveTask) (outcome : TaskWorkerOutcome Fault Summary) (summary : Summary)
      → task_result world phase a outcome ≡ ok summary
      → outcome.result ≡ ok summary
  unfolding task_result
  task_result-ok a outcome summary h = elim (Option-cases a.task.timeout) [
    | inl e ↦ ground arith
    | inr (timeout, e) ↦ ground arith
  ]

  -- A result that is fine, after a join, is the joined worker's own.
  pub join_task-IsGenuine :
      (P : StudyTask → Type 0) (a : ActiveTask) (t : List Event)
      (outcome : TaskWorkerOutcome Fault Summary) (u : List Event) (summary : Summary)
      → P a.task
      → Yields (join_task world phase a) t outcome u
      → task_result world phase a outcome ≡ ok summary
      → IsGenuine world P (a.task.output_ordinal, summary)
  unfolding join_task
  join_task-IsGenuine P a t outcome u summary p h fine =
      let own = task_result-ok a outcome summary fine in
      elim (Option-cases (world.join a.task t)) [
        | inl missing ↦ absurd (ground arith)
        | inr (given, found) ↦
            let same : given ≡ outcome = ground arith in
            (a.task, p, refl, t, outcome, found ∙ ap some same, own)
      ]
