-- ===== src/Runtime/Phase/Success.antt =====
-- What the summary of a phase that succeeds holds, for rust/src/runtime/execution/phase.rs.
use scientific_workflow.Prelude.{
  ℕ, zero, suc, ◌+◌, ◌≤◌, ◌≡◌, refl, sym, ap, ◌∙◌, subst, inl, inr, Bool, true, false, ◌&&◌,
  Bool-cases, Option, none, some, Option-cases, leb, if◌then◌else◌, List, [], ◌∷◌, All, All-map_of,
  map, arith,
}
use scientific_workflow.Prelude.Members.{In}
use scientific_workflow.Prelude.Runs.{Run, ◌>>=◌, ◌>>◌, pure, fail, Yields, >>=-Yields, pure-Yields}
use scientific_workflow.Runtime.Phase.{
  StudyTask, StudyPhase, RuntimeError, execution_cancelled, phase_timed_out, Event, asked_time,
  published_allocations, World, Scheduler, is_empty, or_zero, publish, schedule_round,
  schedule_rounds, summarize, active_tasks, new_scheduler, run_phase, insert_by_ordinal,
  sort_by_ordinal,
}
use scientific_workflow.Runtime.Phase.Account.{
  one, of_tasks, of_active, of_completed, has_failed, IsAccounted,
}
use scientific_workflow.Runtime.Phase.Genuine.{IsGenuine, sort_by_ordinal-All_of}
use scientific_workflow.Runtime.Phase.Completed.{schedule_round-IsAccounted}

-- Entries by their ordinals.
abbrev pub IsSorted : {Summary : Type 0} → List (ℕ × Summary) → Type 0
IsSorted [] = Unit
IsSorted {Summary} (c ∷ entries) = All (λ (d : ℕ × Summary). c.0 ≤ d.0) entries × IsSorted entries

is_empty-eq : {A : Type 0} (xs : List A) → is_empty xs ≡ true → xs ≡ []
is_empty-eq [] h = refl
is_empty-eq (x ∷ xs) h = absurd (ground arith)

All-In :
    (whole tasks : List StudyTask)
    → ((task : StudyTask) → In task tasks → In task whole)
    → All (λ task. In task whole) tasks
All-In whole [] sub = tt
All-In whole (task ∷ tasks) sub =
    (sub task (inl refl), All-In whole tasks (λ other h. sub other (inr h)))

module _ {Summary : Type 0} where
  insert_by_ordinal-of_completed :
      (n : ℕ) (c : ℕ × Summary) (sorted : List (ℕ × Summary))
      → of_completed n (insert_by_ordinal c sorted) ≡ one n c.0 + of_completed n sorted
  unfolding insert_by_ordinal
  insert_by_ordinal-of_completed n c [] = refl
  insert_by_ordinal-of_completed n c (d ∷ sorted) =
      let ih = insert_by_ordinal-of_completed n c sorted in
      elim (Bool-cases (leb c.0 d.0)) [
        | inl e ↦ ap (of_completed n) (
            subst
              (λ (b : Bool).
                (if b then c ∷ d ∷ sorted else d ∷ insert_by_ordinal c sorted) ≡ c ∷ d ∷ sorted)
              (sym e) refl)
        | inr e ↦
            ap (of_completed n) (
              subst
                (λ (b : Bool).
                  (if b then c ∷ d ∷ sorted else d ∷ insert_by_ordinal c sorted)
                  ≡ d ∷ insert_by_ordinal c sorted)
                (sym e) refl)
            ∙ omega (arith, ih)
      ]

  sort_by_ordinal-of_completed :
      (n : ℕ) (completed : List (ℕ × Summary))
      → of_completed n (sort_by_ordinal completed) ≡ of_completed n completed
  unfolding sort_by_ordinal
  sort_by_ordinal-of_completed n [] = refl
  sort_by_ordinal-of_completed n (c ∷ completed) =
      insert_by_ordinal-of_completed n c (sort_by_ordinal completed)
      ∙ ap (λ k. one n c.0 + k) (sort_by_ordinal-of_completed n completed)

  insert_by_ordinal-All :
      (bound : ℕ) (c : ℕ × Summary) (sorted : List (ℕ × Summary))
      → bound ≤ c.0
      → All (λ (d : ℕ × Summary). bound ≤ d.0) sorted
      → All (λ (d : ℕ × Summary). bound ≤ d.0) (insert_by_ordinal c sorted)
  unfolding insert_by_ordinal
  insert_by_ordinal-All bound c [] low h = (low, tt)
  insert_by_ordinal-All bound c (d ∷ sorted) low h =
      let rest = insert_by_ordinal-All bound c sorted low h.1 in
      let goal : Bool → Type 0 = λ b.
        All (λ (e : ℕ × Summary). bound ≤ e.0)
          (if b then c ∷ d ∷ sorted else d ∷ insert_by_ordinal c sorted) in
      elim (Bool-cases (leb c.0 d.0)) [
        | inl e ↦ subst goal (sym e) (low, h)
        | inr e ↦ subst goal (sym e) (h.0, rest)
      ]

  insert_by_ordinal-IsSorted :
      (c : ℕ × Summary) (sorted : List (ℕ × Summary))
      → IsSorted sorted
      → IsSorted (insert_by_ordinal c sorted)
  unfolding insert_by_ordinal
  insert_by_ordinal-IsSorted c [] h = (tt, tt)
  insert_by_ordinal-IsSorted c (d ∷ sorted) h =
      let goal : Bool → Type 0 =
        λ b. IsSorted (if b then c ∷ d ∷ sorted else d ∷ insert_by_ordinal c sorted) in
      elim (Bool-cases (leb c.0 d.0)) [
        | inl e ↦
            let low : c.0 ≤ d.0 = ground arith in
            subst goal (sym e) (
              (
                low,
                All-map_of (λ (x : ℕ × Summary). d.0 ≤ x.0) (λ (x : ℕ × Summary). c.0 ≤ x.0)
                    (λ x g. omega (arith, low, g)) sorted h.0,
              ),
              h,
            )
        | inr e ↦
            let low : d.0 ≤ c.0 = ground arith in
            subst goal (sym e)
              (insert_by_ordinal-All d.0 c sorted low h.0, insert_by_ordinal-IsSorted c sorted h.1)
      ]

  sort_by_ordinal-IsSorted : (completed : List (ℕ × Summary)) → IsSorted (sort_by_ordinal completed)
  unfolding sort_by_ordinal
  sort_by_ordinal-IsSorted [] = tt
  sort_by_ordinal-IsSorted (c ∷ completed) =
      insert_by_ordinal-IsSorted c (sort_by_ordinal completed) (sort_by_ordinal-IsSorted completed)

module _ {Fault Summary : Type 0} (world : World Fault Summary) (phase : StudyPhase) where
  schedule_rounds-lem :
      (P : StudyTask → Type 0) (total : ℕ → ℕ) (fuel phase_started : ℕ)
      (s : Scheduler Fault Summary) (t : List Event) (after : Scheduler Fault Summary)
      (u : List Event)
      → IsAccounted world P total s
      → Yields (schedule_rounds world phase fuel phase_started s) t (some after) u
      → IsAccounted world P total after × (after.pending ≡ []) × (after.active ≡ [])
  unfolding schedule_rounds
  schedule_rounds-lem P total zero phase_started s t after u counted h = absurd (ground arith)
  schedule_rounds-lem P total (suc fuel) phase_started s t after u counted h =
      let more : Run Event (RuntimeError Fault) (Option (Scheduler Fault Summary)) =
        schedule_round world phase phase_started s >>= λ next.
        schedule_rounds world phase fuel phase_started next in
      let branch : Bool → Type 0 =
        λ b. Yields (if b then pure (some s) else more) t (some after) u in
      elim (Bool-cases (is_empty s.pending && is_empty s.active)) [
        | inl e ↦
            let (same, ended) = pure-Yields (some s) t (some after) u (subst branch e h) in
            let is : after ≡ s = ground arith in
            let no_pending = is_empty-eq s.pending (ground arith) in
            let no_active = is_empty-eq s.active (ground arith) in
            subst
              (λ (x : Scheduler Fault Summary).
                IsAccounted world P total x × (x.pending ≡ []) × (x.active ≡ []))
              (sym is) (counted, no_pending, no_active)
        | inr e ↦
            let (next, v, h1, rest) =
              >>=-Yields (schedule_round world phase phase_started s)
                (λ next. schedule_rounds world phase fuel phase_started next) t (some after) u
                (subst branch e h) in
            schedule_rounds-lem P total fuel phase_started next v after u
              (schedule_round-IsAccounted world phase P total phase_started s t next v counted h1)
              rest
      ]

  guard-lem :
      {A : Type 0} (test : Bool) (e : RuntimeError Fault) (k : Run Event (RuntimeError Fault) A)
      (t : List Event) (b : A) (u : List Event)
      → Yields ((if test then fail e else pure tt) >> k) t b u
      → (test ≡ false) × Yields k t b u
  guard-lem test e k t b u h = elim (Bool-cases test) [
    | inl on ↦ absurd (ground arith)
    | inr off ↦ (off, ground arith)
  ]

  summarize-lem :
      (s : Scheduler Fault Summary) (t : List Event) (summaries : List Summary) (u : List Event)
      → Yields (summarize world phase s) t summaries u
      → (has_failed s ≡ false)
        × (summaries ≡ map (λ (c : ℕ × Summary). c.1) (sort_by_ordinal s.completed))
  unfolding summarize
  summarize-lem s t summaries u h =
      let sorted : List Summary = map (λ (c : ℕ × Summary). c.1) (sort_by_ordinal s.completed) in
      let Step : Type 0 = Run Event (RuntimeError Fault) (List Summary) in
      let last : Option (RuntimeError Fault) → Step =
        λ first. elim first [ some error ↦ fail error | none ↦ pure sorted ] in
      let timing : Step =
        (if s.timed_out then fail (phase_timed_out phase.name (or_zero phase.timeout)) else pure tt)
        >> last s.first_error in
      let cancelling : Step =
        (if s.cancelled then fail execution_cancelled else pure tt) >> timing in
      let (x, v, h1, rest) =
        >>=-Yields (publish world phase published_allocations) (λ _. cancelling) t summaries u h in
      let (not_cancelled, rest2) =
        guard-lem s.cancelled execution_cancelled timing v summaries u rest in
      let (in_time, rest3) =
        guard-lem s.timed_out (phase_timed_out phase.name (or_zero phase.timeout))
          (last s.first_error) v summaries u rest2 in
      elim (Option-cases s.first_error) [
        | inl e ↦ (
          ground arith,
          (pure-Yields sorted v summaries u (
              subst (λ (o : Option (RuntimeError Fault)). Yields (last o) v summaries u) e
                rest3)).0,
        )
        | inr (error, e) ↦
            let failed : Yields {E = RuntimeError Fault} (fail error) v summaries u =
              subst (λ (o : Option (RuntimeError Fault)). Yields (last o) v summaries u) e rest3 in
            absurd (ground arith)
      ]

  -- A phase that succeeds, on any number of rounds, returns the summaries of entries that are in
  -- the order of their ordinals. Every ordinal stands in as many entries as there are active tasks
  -- of the phase with it: no task is missing, and none is there twice. And each entry's summary is a
  -- result that joining the worker of an active task with this ordinal gives, at some history of
  -- events.
  pub run_phase_complete :
      (fuel : ℕ) (t : List Event) (summaries : List Summary) (u : List Event)
      → Yields (run_phase world phase fuel) t (some summaries) u
      → (entries : List (ℕ × Summary)) × (summaries ≡ map (λ (c : ℕ × Summary). c.1) entries)
        × IsSorted entries
        × ((n : ℕ) → of_completed n entries ≡ of_tasks n (active_tasks world phase phase.tasks))
        × All (IsGenuine world (λ task. In task (active_tasks world phase phase.tasks))) entries
  unfolding run_phase new_scheduler
  run_phase_complete fuel t summaries u h =
      let tasks = active_tasks world phase phase.tasks in
      let P : StudyTask → Type 0 = λ task. In task tasks in
      let total : ℕ → ℕ = λ n. of_tasks n tasks in
      let started = world.now t in
      let t1 = asked_time ∷ t in
      let first = new_scheduler world phase started in
      let ending : Scheduler Fault Summary
          → Run Event (RuntimeError Fault) (Option (List Summary)) =
        λ s. summarize world phase s >>= λ xs. pure (some xs) in
      let finish : Option (Scheduler Fault Summary)
          → Run Event (RuntimeError Fault) (Option (List Summary)) =
        λ ended. elim ended [ none ↦ pure none | some s ↦ ending s ] in
      let (ended, v, h1, rest) =
        >>=-Yields (schedule_rounds world phase fuel started first) finish t1 (some summaries) u
          h in
      let counted : IsAccounted world P total first =
        λ ok_so_far. (λ n. omega arith, All-In tasks tasks (λ task h. h), tt, tt) in
      elim (Option-cases ended) [
        | inl e ↦
            let nothing : Yields {E = RuntimeError Fault} (pure none) v (some summaries) u =
              subst
                (λ (o : Option (Scheduler Fault Summary)). Yields (finish o) v (some summaries) u) e
                rest in
            absurd (ground arith)
        | inr (s, e) ↦
            let g : Yields (ending s) v (some summaries) u =
              subst
                (λ (o : Option (Scheduler Fault Summary)). Yields (finish o) v (some summaries) u) e
                rest in
            let ran : Yields (schedule_rounds world phase fuel started first) t1 (some s) v =
              subst
                (λ (o : Option (Scheduler Fault Summary)).
                  Yields (schedule_rounds world phase fuel started first) t1 o v)
                e h1 in
            let (accounted, no_pending, no_active) =
              schedule_rounds-lem P total fuel started first t1 s v counted ran in
            let (xs, w, h2, g2) =
              >>=-Yields (summarize world phase s) (λ ys. pure (some ys)) v (some summaries) u g in
            let (no_failure, is_sorted) = summarize-lem s v xs w h2 in
            let (same, e3) = pure-Yields (some xs) w (some summaries) u g2 in
            let is_xs : summaries ≡ xs = ground arith in
            (
              sort_by_ordinal s.completed,
              is_xs ∙ is_sorted,
              sort_by_ordinal-IsSorted s.completed,
              λ n.
                  let all = (accounted no_failure).0 n in
                  let no_tasks = ap (of_tasks n) no_pending in
                  let no_workers = ap (of_active n) no_active in
                  sort_by_ordinal-of_completed n s.completed
                  ∙ omega (arith, all, no_tasks, no_workers),
              sort_by_ordinal-All_of (IsGenuine world P) s.completed (accounted no_failure).3,
            )
      ]
