-- ===== src/Config/Manifest/Tasks.antt =====
-- The checks on one task of a phase in rust/src/config/manifest.rs.
use scientific_workflow.Prelude.{
  ℕ, Bool, true, false, ◌&&◌, ◌||◌, not, Option, none, some, is_none, ltb, if◌then◌else◌, Result,
  ok, err, List, [], ◌∷◌, ◌>>=◌, ◌>>◌,
}
use scientific_workflow.Prelude.Texts.{Text, text, text_eq, trim}
use scientific_workflow.Config.Errors.{Pointer, child_pointer}
use scientific_workflow.Resources.Compute.{ComputeMode, auto, isolated}
use scientific_workflow.Config.Manifest.{
  StudyManifest, ParsedTask, execution_unit_task, program_task, python_task, RawTask, ManifestError,
  invalid, bad_identifier, seed_without_master, task_threads_exceed, auto_fixed_threads,
  isolated_without_threads, program_empty, task_unclear,
}

abbrev pub is_empty {ℓ} : {A : Type ℓ} → List A → Bool
is_empty [] = true
is_empty (x ∷ xs) = false

unfoldable pub validate_identifier : Pointer → Text → Result ManifestError (Unit {0})
validate_identifier pointer value =
    if is_empty value || not (text_eq (trim value) value)
    then err (invalid pointer bad_identifier)
    else ok tt

unfoldable pub validate_task_threads : Pointer → ℕ → ℕ → Result ManifestError (Unit {0})
validate_task_threads pointer requested available =
    if ltb available requested
    then err (
        invalid (child_pointer (child_pointer pointer (text "resources")) (text "threads"))
          (task_threads_exceed requested available))
    else ok tt

-- What the three optional keys of a task declare together.
pub data Subject (Python : Type 0) : Type 0 where
  unit_subject program_subject : Text → Subject Python
  python_subject : Python → Subject Python
  unclear : Subject Python

abbrev pub requested_threads : Option ℕ → ℕ
requested_threads none = 1
requested_threads (some threads) = threads

abbrev pub or_true : Option Bool → Bool
or_true none = true
or_true (some b) = b

abbrev pub subject : {Python : Type 0} → Option Text → Option Text → Option Python → Subject Python
subject (some e) none none = unit_subject e
subject none (some p) none = program_subject p
subject none none (some d) = python_subject d
subject none none none = unclear
subject none (some p) (some d) = unclear
subject (some e) none (some d) = unclear
subject (some e) (some p) none = unclear
subject (some e) (some p) (some d) = unclear

unfoldable pub parse_seed :
    {Percent : Type 0}
    → StudyManifest Percent
    → Pointer
    → Option Text
    → Result ManifestError (Option Text)
unfolding validate_identifier
parse_seed manifest pointer none = ok none
parse_seed manifest pointer (some purpose) = do
  validate_identifier (child_pointer (child_pointer pointer (text "seed")) (text "purpose")) purpose
  if is_none manifest.master_seed
      then err (invalid (child_pointer pointer (text "seed")) seed_without_master)
      else ok (some purpose)

abbrev pub validate_state : Pointer → Option Text → Result ManifestError (Unit {0})
unfolding validate_identifier
validate_state pointer none = ok tt
validate_state pointer (some state) =
    validate_identifier (child_pointer pointer (text "state")) state

-- The `match` on the compute mode.
unfoldable pub validate_allocation :
    Pointer → ComputeMode → ℕ → Option ℕ → Result ManifestError (Unit {0})
unfolding validate_task_threads
validate_allocation pointer auto available (some threads) =
    err (invalid (child_pointer pointer (text "resources")) auto_fixed_threads)
validate_allocation pointer auto available none = ok tt
validate_allocation pointer isolated available none =
    err (invalid (child_pointer pointer (text "resources")) isolated_without_threads)
validate_allocation pointer isolated available (some threads) =
    validate_task_threads pointer threads available

module _ {Percent Python : Type 0} where
  unfoldable pub parse_unit :
      StudyManifest Percent
      → Pointer
      → RawTask Python
      → Text
      → Result ManifestError (ParsedTask Python)
  unfolding validate_allocation
  parse_unit manifest pointer task execution_unit = do
    validate_identifier (child_pointer pointer (text "execution_unit")) execution_unit
    validate_state pointer task.state
    validate_allocation pointer manifest.compute_mode manifest.threads task.resources
    ok (
        execution_unit_task execution_unit (or_true task.active) task.state task.timeout_ms
          task.resources)

  unfoldable pub parse_program :
      StudyManifest Percent
      → Pointer
      → RawTask Python
      → Option Text
      → Text
      → Result ManifestError (ParsedTask Python)
  unfolding validate_task_threads
  parse_program manifest pointer task seed_purpose program = do
    validate_task_threads pointer (requested_threads task.resources) manifest.threads
    if is_empty program
        then err (invalid (child_pointer pointer (text "program")) program_empty)
        else ok (
            program_task program task.args seed_purpose task.timeout_ms
              (requested_threads task.resources))

  unfoldable pub parse_python :
      StudyManifest Percent
      → Pointer
      → RawTask Python
      → Option Text
      → Python
      → Result ManifestError (ParsedTask Python)
  unfolding validate_task_threads
  parse_python manifest pointer task seed_purpose declaration = do
    validate_task_threads pointer (requested_threads task.resources) manifest.threads
    ok (python_task declaration seed_purpose task.timeout_ms (requested_threads task.resources))

  unfoldable pub parse_subject :
      StudyManifest Percent
      → Pointer
      → RawTask Python
      → Option Text
      → Subject Python
      → Result ManifestError (ParsedTask Python)
  unfolding parse_unit parse_program parse_python
  parse_subject manifest pointer task seed_purpose (unit_subject execution_unit) =
      if is_empty task.args && is_none seed_purpose
      then parse_unit manifest pointer task execution_unit
      else err (invalid pointer task_unclear)
  parse_subject manifest pointer task seed_purpose (program_subject program) =
      if is_none task.state && is_none task.active
      then parse_program manifest pointer task seed_purpose program
      else err (invalid pointer task_unclear)
  parse_subject manifest pointer task seed_purpose (python_subject declaration) =
      if is_none task.state && (is_empty task.args && is_none task.active)
      then parse_python manifest pointer task seed_purpose declaration
      else err (invalid pointer task_unclear)
  parse_subject manifest pointer task seed_purpose unclear = err (invalid pointer task_unclear)

  -- One round of the loop over the tasks.
  unfoldable pub parse_task :
      StudyManifest Percent → Pointer → RawTask Python → Result ManifestError (ParsedTask Python)
  unfolding parse_seed parse_subject
  parse_task manifest pointer task = do
    seed_purpose ← parse_seed manifest pointer task.seed
    parse_subject manifest pointer task seed_purpose
        (subject task.execution_unit task.program task.python)
