-- ===== src/Config/Manifest/Phases.antt =====
-- The checks on one phase in rust/src/config/manifest.rs, `parse`'s loop over the phases.
use scientific_workflow.Prelude.{
  ℕ, ◌+◌, Bool, true, false, ◌&&◌, ◌||◌, not, Option, none, some, leb, ltb, ◌==◌, if◌then◌else◌,
  any, Result, ok, err, List, [], ◌∷◌, ◌++◌, ◌>>=◌, ◌>>◌,
}
use scientific_workflow.Prelude.Texts.{Text, text, text_eq, trim}
use scientific_workflow.Config.Errors.{Pointer, child_pointer, index}
use scientific_workflow.Config.Manifest.{
  StudyManifest, ParsedTask, npy_task, ParsedPhase, RawTask, RawPhase, RawNpyMode, fixed, auto,
  ManifestError, Refusal, invalid, unknown_dependency, malformed, npy_only, npy_threads_exceed,
  exclusions_npy_only, exclusions_repeated, no_task, npy_with_tasks, npy_without_after,
  no_concurrency, own_dependency, dependency_repeated, control_prefix,
}
use scientific_workflow.Config.Manifest.Tasks.{is_empty, validate_identifier, parse_task}

-- A phase as it is authored: which keys it has, and what serde reads it as.
pub record AuthoredPhase (Python : Type 0) : Type 0 where
  pub exclusions_authored : Bool
  pub npy_resources_authored : Bool
  pub read : Result Text (RawPhase Python)

abbrev pub npy_phase_name : Text
npy_phase_name = text "$npy"

abbrev pub refuse : Bool → Pointer → Refusal → Result ManifestError (Unit {0})
refuse test pointer refusal = if test then err (invalid pointer refusal) else ok tt

abbrev pub is_member : Text → List Text → Bool
is_member name names = any (text_eq name) names

abbrev pub is_control : ℕ → Bool
is_control c = ltb c 32 || (leb 127 c && leb c 159)

unfoldable pub validate_exclusions :
    Pointer → List Text → List Text → Result ManifestError (Unit {0})
unfolding validate_identifier
validate_exclusions pointer excluded [] = ok tt
validate_exclusions pointer excluded (stream ∷ streams) = do
  validate_identifier pointer stream
  refuse (is_member stream excluded) pointer exclusions_repeated
  validate_exclusions pointer (stream ∷ excluded) streams

-- `seen` are the dependencies before; those that pass are returned in their order.
unfoldable pub resolve_dependencies :
    Pointer → List Text → Text → List Text → List Text → Result ManifestError (List Text)
unfolding validate_identifier
resolve_dependencies pointer declared name seen [] = ok []
resolve_dependencies pointer declared name seen (dependency ∷ after) = do
  validate_identifier pointer dependency
  refuse (text_eq dependency name) pointer own_dependency
  if is_member dependency declared then ok tt else err (unknown_dependency name dependency)
  refuse (is_member dependency seen) pointer (dependency_repeated dependency)
  rest ← resolve_dependencies pointer declared name (dependency ∷ seen) after
  ok (dependency ∷ rest)

unfoldable pub read_phase :
    {Python : Type 0} → Pointer → AuthoredPhase Python → Result ManifestError (RawPhase Python)
read_phase pointer authored = elim authored.read [
  | err message ↦ err (invalid pointer (malformed message))
  | ok raw ↦ ok raw
]

abbrev pub or_threads : Option ℕ → ℕ → ℕ
or_threads none available = available
or_threads (some threads) available = threads

abbrev pub is_auto : RawNpyMode → Bool
is_auto fixed = false
is_auto auto = true

abbrev pub validate_prefix : Pointer → Option Text → Result ManifestError (Unit {0})
validate_prefix pointer none = ok tt
validate_prefix pointer (some prefix) =
    refuse (any is_control prefix)
      (child_pointer (child_pointer pointer (text "task_names")) (text "prefix")) control_prefix

abbrev pub trimmed_prefix : Option Text → Option Text
unfolding trim
trimmed_prefix none = none
trimmed_prefix (some prefix) = some (trim prefix)

abbrev pub parsed_phase :
    {Python : Type 0}
    → Text
    → List Text
    → List (ParsedTask Python)
    → RawPhase Python
    → ParsedPhase Python
unfolding trim
parsed_phase name dependencies tasks raw = record {
  auto_name_prefix = trimmed_prefix raw.task_names;
  name = name;
  dependencies = dependencies;
  tasks = tasks;
  max_concurrency = raw.max_concurrency;
  start_interval = raw.start_interval_ms;
  timeout = raw.timeout_ms;
  failure_policy = raw.failure_policy;
}

module _ {Percent Python : Type 0} where
  unfoldable pub parse_tasks :
      StudyManifest Percent
      → Pointer
      → ℕ
      → List (RawTask Python)
      → Result ManifestError (List (ParsedTask Python))
  unfolding parse_task
  parse_tasks manifest pointer position [] = ok []
  parse_tasks manifest pointer position (task ∷ tasks) = do
    parsed ← parse_task manifest (pointer ++ index position ∷ []) task
    rest ← parse_tasks manifest pointer (position + 1) tasks
    ok (parsed ∷ rest)

  -- The checks between serde's reading and the dependencies.
  unfoldable pub validate_phase :
      StudyManifest Percent
      → Pointer
      → Bool
      → AuthoredPhase Python
      → RawPhase Python
      → Result ManifestError (Unit {0})
  unfolding validate_exclusions
  validate_phase manifest pointer npy authored raw = do
    refuse (authored.npy_resources_authored && not npy) pointer npy_only
    refuse (ltb manifest.threads (or_threads raw.threads manifest.threads))
        (child_pointer pointer (text "threads")) npy_threads_exceed
    refuse (authored.exclusions_authored && not npy)
        (child_pointer pointer (text "exclude_streams")) exclusions_npy_only
    validate_exclusions (child_pointer pointer (text "exclude_streams")) [] raw.exclude_streams
    refuse (not npy && is_empty raw.tasks) (child_pointer pointer (text "tasks")) no_task
    refuse (npy && not (is_empty raw.tasks)) (child_pointer pointer (text "tasks")) npy_with_tasks
    refuse (npy && is_empty raw.after) (child_pointer pointer (text "after")) npy_without_after
    refuse (raw.max_concurrency == 0) (child_pointer pointer (text "max_concurrency"))
        no_concurrency

  abbrev pub npy_tasks : StudyManifest Percent → Bool → RawPhase Python → List (ParsedTask Python)
  npy_tasks manifest npy raw =
      if npy
      then npy_task raw.exclude_streams (or_threads raw.threads manifest.threads) (is_auto raw.mode)
        ∷ []
      else []

  -- One round of the loop over the phases.
  unfoldable pub parse_phase :
      StudyManifest Percent
      → List Text
      → Text
      → AuthoredPhase Python
      → Result ManifestError (ParsedPhase Python)
  unfolding validate_identifier read_phase validate_phase resolve_dependencies parse_tasks trim
  parse_phase manifest declared name authored = do
    let pointer = child_pointer (child_pointer [] (text "phases")) name
    let npy = text_eq name npy_phase_name
    validate_identifier pointer name
    raw ← read_phase pointer authored
    validate_phase manifest pointer npy authored raw
    dependencies ←
        resolve_dependencies (child_pointer pointer (text "after")) declared name [] raw.after
    tasks ← parse_tasks manifest (child_pointer pointer (text "tasks")) 0 raw.tasks
    validate_prefix pointer raw.task_names
    ok (parsed_phase name dependencies (tasks ++ npy_tasks manifest npy raw) raw)

  unfoldable pub parse_phases :
      StudyManifest Percent
      → List Text
      → List (Text × AuthoredPhase Python)
      → Result ManifestError (List (ParsedPhase Python))
  unfolding parse_phase
  parse_phases manifest declared [] = ok []
  parse_phases manifest declared ((name, authored) ∷ phases) = do
    parsed ← parse_phase manifest declared name authored
    rest ← parse_phases manifest declared phases
    ok (parsed ∷ rest)
