-- ===== src/Config/Manifest/Bounds.antt =====
-- What the tasks and phases that rust/src/config/manifest.rs accepts keep to.
use scientific_workflow.Prelude.{
  ℕ, ◌+◌, ◌≤◌, ◌≡◌, refl, inl, inr, Bool, true, false, ◌&&◌, Bool-cases, Option, none, some,
  is_none, ltb, ok, List, [], ◌∷◌, ◌++◌, All, >>=-eq-ok, >>-eq-ok, ok-injective, subst, arith,
}
use scientific_workflow.Prelude.Texts.{Text}
use scientific_workflow.Config.Errors.{Pointer, index}
use scientific_workflow.Resources.Compute.{ComputeMode, auto, isolated}
use scientific_workflow.Config.Manifest.{
  StudyManifest, ParsedTask, execution_unit_task, program_task, python_task, npy_task, RawTask,
  Refusal,
}
use scientific_workflow.Config.Manifest.Tasks.{
  is_empty, validate_identifier, validate_task_threads, Subject, unit_subject, program_subject,
  python_subject, unclear, subject, requested_threads, parse_seed, validate_state,
  validate_allocation, parse_unit, parse_program, parse_python, parse_subject, parse_task,
}
use scientific_workflow.Config.Manifest.Phases.{refuse, parse_tasks}

-- A seed request is only kept where the study has a seed.
abbrev pub IsSeeded : {Percent : Type 0} → StudyManifest Percent → Option Text → Type 0
IsSeeded manifest none = Unit
IsSeeded manifest (some purpose) = is_none manifest.master_seed ≡ false

-- The threads of a unit suit the compute mode.
abbrev pub IsAllocated : ComputeMode → ℕ → Option ℕ → Type 0
IsAllocated auto available threads = threads ≡ none
IsAllocated isolated available none = ⊥
IsAllocated isolated available (some threads) = threads ≤ available

-- No task asks for more threads than the study has.
abbrev pub Fits : {Percent Python : Type 0} → StudyManifest Percent → ParsedTask Python → Type 0
Fits manifest (execution_unit_task execution_unit active state timeout threads) =
    IsAllocated manifest.compute_mode manifest.threads threads
Fits manifest (program_task program args seed_purpose timeout threads) =
    (threads ≤ manifest.threads) × IsSeeded manifest seed_purpose
Fits manifest (python_task declaration seed_purpose timeout threads) =
    (threads ≤ manifest.threads) × IsSeeded manifest seed_purpose
Fits manifest (npy_task exclude_streams threads is_all) = threads ≤ manifest.threads

pub refuse-eq-ok :
    (test : Bool) (pointer : Pointer) (refusal : Refusal)
    → refuse test pointer refusal ≡ ok tt
    → test ≡ false
refuse-eq-ok true pointer refusal h = absurd (ground arith)
refuse-eq-ok false pointer refusal h = refl

validate_task_threads-le :
    (pointer : Pointer) (requested available : ℕ)
    → validate_task_threads pointer requested available ≡ ok tt
    → requested ≤ available
unfolding validate_task_threads
validate_task_threads-le pointer requested available h =
    elim (Bool-cases (ltb available requested)) [
      | inl e ↦ absurd (ground arith)
      | inr e ↦ ground arith
    ]

validate_allocation-IsAllocated :
    (pointer : Pointer) (mode : ComputeMode) (available : ℕ) (threads : Option ℕ)
    → validate_allocation pointer mode available threads ≡ ok tt
    → IsAllocated mode available threads
unfolding validate_allocation
validate_allocation-IsAllocated pointer auto available none h = refl
validate_allocation-IsAllocated pointer auto available (some threads) h = absurd (ground arith)
validate_allocation-IsAllocated pointer isolated available none h = absurd (ground arith)
validate_allocation-IsAllocated pointer isolated available (some threads) h =
    validate_task_threads-le pointer threads available h

parse_seed-IsSeeded :
    {Percent : Type 0} (manifest : StudyManifest Percent) (pointer : Pointer)
    (seed parsed : Option Text)
    → parse_seed manifest pointer seed ≡ ok parsed
    → IsSeeded manifest parsed
unfolding parse_seed
parse_seed-IsSeeded manifest pointer none parsed h = subst (IsSeeded manifest) (ok-injective h) tt
parse_seed-IsSeeded manifest pointer (some purpose) parsed h =
    let (named, h1) = >>-eq-ok (validate_identifier _ purpose) _ h in
    elim (Bool-cases (is_none manifest.master_seed)) [
      | inl e ↦ absurd (ground arith)
      | inr e ↦ let same : some purpose ≡ parsed = ground arith in subst (IsSeeded manifest) same e
    ]

module _ {Percent Python : Type 0} (manifest : StudyManifest Percent) where
  parse_unit-Fits :
      (pointer : Pointer) (task : RawTask Python) (execution_unit : Text)
      (parsed : ParsedTask Python)
      → parse_unit manifest pointer task execution_unit ≡ ok parsed
      → Fits manifest parsed
  unfolding parse_unit
  parse_unit-Fits pointer task execution_unit parsed h =
      let (named, h1) = >>-eq-ok (validate_identifier _ execution_unit) _ h in
      let (stated, h2) = >>-eq-ok (validate_state pointer task.state) _ h1 in
      let (allocated, h3) =
        >>-eq-ok (validate_allocation pointer manifest.compute_mode manifest.threads task.resources)
          _ h2 in
      subst (Fits manifest) (ok-injective h3) (
        validate_allocation-IsAllocated pointer manifest.compute_mode manifest.threads
          task.resources allocated)

  parse_program-Fits :
      (pointer : Pointer) (task : RawTask Python) (seed_purpose : Option Text) (program : Text)
      (parsed : ParsedTask Python)
      → IsSeeded manifest seed_purpose
      → parse_program manifest pointer task seed_purpose program ≡ ok parsed
      → Fits manifest parsed
  unfolding parse_program
  parse_program-Fits pointer task seed_purpose program parsed seeded h =
      let (allowed, h1) =
        >>-eq-ok (validate_task_threads pointer (requested_threads task.resources) manifest.threads)
          _ h in
      let small =
        validate_task_threads-le pointer (requested_threads task.resources) manifest.threads
          allowed in
      elim (Bool-cases (is_empty program)) [
        | inl e ↦ absurd (ground arith)
        | inr e ↦
            let same : program_task program task.args seed_purpose task.timeout_ms
                  (requested_threads task.resources)
                ≡ parsed =
              ground arith in
            subst (Fits manifest) same (small, seeded)
      ]

  parse_python-Fits :
      (pointer : Pointer) (task : RawTask Python) (seed_purpose : Option Text)
      (declaration : Python) (parsed : ParsedTask Python)
      → IsSeeded manifest seed_purpose
      → parse_python manifest pointer task seed_purpose declaration ≡ ok parsed
      → Fits manifest parsed
  unfolding parse_python
  parse_python-Fits pointer task seed_purpose declaration parsed seeded h =
      let (allowed, h1) =
        >>-eq-ok (validate_task_threads pointer (requested_threads task.resources) manifest.threads)
          _ h in
      let small =
        validate_task_threads-le pointer (requested_threads task.resources) manifest.threads
          allowed in
      subst (Fits manifest) (ok-injective h1) (small, seeded)

  parse_subject-Fits :
      (pointer : Pointer) (task : RawTask Python) (seed_purpose : Option Text) (s : Subject Python)
      (parsed : ParsedTask Python)
      → IsSeeded manifest seed_purpose
      → parse_subject manifest pointer task seed_purpose s ≡ ok parsed
      → Fits manifest parsed
  unfolding parse_subject
  parse_subject-Fits pointer task seed_purpose (unit_subject execution_unit) parsed seeded h =
      elim (Bool-cases (is_empty task.args && is_none seed_purpose)) [
        | inl e ↦ parse_unit-Fits pointer task execution_unit parsed (ground arith)
        | inr e ↦ absurd (ground arith)
      ]
  parse_subject-Fits pointer task seed_purpose (program_subject program) parsed seeded h =
      elim (Bool-cases (is_none task.state && is_none task.active)) [
        | inl e ↦ parse_program-Fits pointer task seed_purpose program parsed seeded (ground arith)
        | inr e ↦ absurd (ground arith)
      ]
  parse_subject-Fits pointer task seed_purpose (python_subject declaration) parsed seeded h =
      elim (Bool-cases (is_none task.state && (is_empty task.args && is_none task.active))) [
        | inl e ↦
            parse_python-Fits pointer task seed_purpose declaration parsed seeded (ground arith)
        | inr e ↦ absurd (ground arith)
      ]
  parse_subject-Fits pointer task seed_purpose unclear parsed seeded h = absurd (ground arith)

  parse_task-Fits :
      (pointer : Pointer) (task : RawTask Python) (parsed : ParsedTask Python)
      → parse_task manifest pointer task ≡ ok parsed
      → Fits manifest parsed
  unfolding parse_task
  parse_task-Fits pointer task parsed h =
      let (seed_purpose, e, rest) =
        >>=-eq-ok (parse_seed manifest pointer task.seed)
          (λ purpose.
            parse_subject manifest pointer task purpose
              (subject task.execution_unit task.program task.python))
          h in
      parse_subject-Fits pointer task seed_purpose
        (subject task.execution_unit task.program task.python) parsed
        (parse_seed-IsSeeded manifest pointer task.seed seed_purpose e) rest

  pub parse_tasks-Fits :
      (pointer : Pointer) (position : ℕ) (tasks : List (RawTask Python))
      (parsed : List (ParsedTask Python))
      → parse_tasks manifest pointer position tasks ≡ ok parsed
      → All (Fits manifest) parsed
  unfolding parse_tasks
  parse_tasks-Fits pointer position [] parsed h = subst (All (Fits manifest)) (ok-injective h) tt
  parse_tasks-Fits pointer position (task ∷ tasks) parsed h =
      let (first, e, rest) =
        >>=-eq-ok (parse_task manifest (pointer ++ index position ∷ []) task) _ h in
      let (others, e2, same) =
        >>=-eq-ok (parse_tasks manifest pointer (position + 1) tasks) _ rest in
      subst (All (Fits manifest)) (ok-injective same) (
        parse_task-Fits (pointer ++ index position ∷ []) task first e,
        parse_tasks-Fits pointer (position + 1) tasks others e2,
      )
