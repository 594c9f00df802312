-- ===== src/Config/Manifest/Parse.antt =====
-- `parse` of rust/src/config/manifest.rs. Serde's reading of the document, paths, the file system
-- and floats are parameters.
use scientific_workflow.Prelude.{
  ℕ, ◌*◌, Bool, false, ◌&&◌, ◌||◌, not, Option, none, some, leb, ltb, ◌==◌, if◌then◌else◌, any,
  Result, ok, err, List, [], ◌∷◌, map, length, ◌>>=◌, ◌>>◌,
}
use scientific_workflow.Prelude.Texts.{Text, text}
use scientific_workflow.Resources.Compute.{ComputeMode}
use scientific_workflow.Study.{
  PhaseKeys, Search, cycle, clear, crashed, out_of_fuel, range, validate_acyclic,
}
use scientific_workflow.Config.Errors.{Pointer, child_pointer}
use scientific_workflow.Config.Manifest.{
  StudyManifest, ReplicatePolicy, ParsedPhase, workflow_schema_version, ManifestError, invalid,
  panicked, malformed, schema_unsupported, no_phase, phase_indices, source_empty,
  source_not_directory, source_unreadable, no_threads, no_replicates, size_overflow,
  pause_threshold, state_path_empty, state_path_absolute, state_path_extension, dependency_cycle,
}
use scientific_workflow.Config.Manifest.Tasks.{is_empty, validate_identifier}
use scientific_workflow.Config.Manifest.Phases.{AuthoredPhase, refuse, parse_phases}

pub record RawStudy (Percent Python : Type 0) : Type 0 where
  pub pause_at_percent : Option Percent
  pub workflow_schema : ℕ
  pub active_phases : Option (List ℕ)
  pub reuse_from : Option Text
  pub threads : ℕ
  pub compute : ComputeMode
  pub states : List (Text × Text)
  pub seed : Option ℕ
  pub replicates : ReplicatePolicy
  pub chunk_target_mb : ℕ
  pub queue_capacity_mb : ℕ
  pub phases : List (Text × AuthoredPhase Python)

-- `find_source` joins a relative path to the project's root and makes it canonical.
pub record Platform (Percent : Type 0) : Type 0 where
  pub is_finite : Percent → Bool
  pub is_at_most_zero : Percent → Bool
  pub is_above_hundred : Percent → Bool
  pub is_absolute : Text → Bool
  pub has_json_extension : Text → Bool
  pub find_source : Text → Result Text Text
  pub is_utf8_directory : Text → Bool

pub record ParsedManifest (Percent Python : Type 0) : Type 0 where
  pub manifest : StudyManifest Percent
  pub state_paths : List (Text × Text)
  pub phases : List (ParsedPhase Python)

abbrev pub bytes_per_megabyte : ℕ
bytes_per_megabyte = 1000000

abbrev pub u64_limit : ℕ
u64_limit = 18446744073709551616

abbrev pub top : Text → Pointer
top name = child_pointer [] name

unfoldable pub megabytes_to_bytes : Pointer → ℕ → Result ManifestError ℕ
megabytes_to_bytes pointer megabytes =
    if ltb (megabytes * bytes_per_megabyte) u64_limit && ltb 0 (megabytes * bytes_per_megabyte)
    then ok (megabytes * bytes_per_megabyte)
    else err (invalid pointer size_overflow)

unfoldable pub validate_active : ℕ → List ℕ → List ℕ → Result ManifestError (Unit {0})
validate_active count selected [] = ok tt
validate_active count selected (position ∷ positions) = do
  refuse (leb count position || any (λ other. other == position) selected)
      (top (text "active_phases")) phase_indices
  validate_active count (position ∷ selected) positions

abbrev pub or_all : ℕ → Option (List ℕ) → List ℕ
or_all count none = range 0 count
or_all count (some positions) = positions

unfoldable pub phase_keys : {Python : Type 0} → List (ParsedPhase Python) → List PhaseKeys
phase_keys [] = []
phase_keys (p ∷ phases) =
    record { name = p.name; dependencies = p.dependencies } ∷ phase_keys phases

abbrev pub no_cycle : Search → Result ManifestError (Unit {0})
no_cycle (clear states) = ok tt
no_cycle (cycle phase) = err (invalid (top (text "phases")) (dependency_cycle phase))
no_cycle crashed = err panicked
no_cycle out_of_fuel = err panicked

module _ {Percent : Type 0} (platform : Platform Percent) where
  unfoldable pub resolve_source : Option Text → Result ManifestError (Option Text)
  resolve_source none = ok none
  resolve_source (some authored) = do
    refuse (is_empty authored) (top (text "reuse_from")) source_empty
    source ← elim (platform.find_source authored) [
      | err message ↦ err (invalid (top (text "reuse_from")) (source_unreadable message))
      | ok source ↦ ok source
    ]
    refuse (not (platform.is_utf8_directory source)) (top (text "reuse_from")) source_not_directory
    ok (some source)

  abbrev pub is_refused_threshold : Option Percent → Bool
  is_refused_threshold none = false
  is_refused_threshold (some value) =
      not (platform.is_finite value)
      || (platform.is_at_most_zero value || platform.is_above_hundred value)

  unfoldable pub validate_state_paths : List (Text × Text) → Result ManifestError (Unit {0})
  unfolding validate_identifier
  validate_state_paths [] = ok tt
  validate_state_paths ((name, path) ∷ states) = do
    let pointer = child_pointer (child_pointer (top (text "paths")) (text "states")) name
    validate_identifier pointer name
    refuse (is_empty path) pointer state_path_empty
    refuse (platform.is_absolute path) pointer state_path_absolute
    refuse (not (platform.has_json_extension path)) pointer state_path_extension
    validate_state_paths states

  -- The checks and the fields of the study, without its states and phases.
  unfoldable pub parse_study :
      {Python : Type 0} → RawStudy Percent Python → Result ManifestError (StudyManifest Percent)
  unfolding validate_active resolve_source megabytes_to_bytes
  parse_study raw = do
    let active_phases = or_all (length raw.phases) raw.active_phases
    refuse (not (raw.workflow_schema == workflow_schema_version)) (top (text "workflow_schema"))
        (schema_unsupported raw.workflow_schema)
    refuse (is_empty raw.phases) (top (text "phases")) no_phase
    validate_active (length raw.phases) [] active_phases
    reuse_from ← resolve_source raw.reuse_from
    refuse (raw.threads == 0) (top (text "threads")) no_threads
    refuse (raw.replicates.count == 0) (child_pointer (top (text "replicates")) (text "count"))
        no_replicates
    chunk_target_bytes ←
        megabytes_to_bytes (child_pointer (top (text "persistence")) (text "chunk_target_mb"))
          raw.chunk_target_mb
    queue_capacity_bytes ←
        megabytes_to_bytes (child_pointer (top (text "persistence")) (text "queue_capacity_mb"))
          raw.queue_capacity_mb
    refuse (is_refused_threshold raw.pause_at_percent)
        (child_pointer (top (text "disk")) (text "pause_at_percent")) pause_threshold
    ok (record {
      disk_pause_at = raw.pause_at_percent;
      workflow_schema = raw.workflow_schema;
      active_phases = active_phases;
      reuse_from = reuse_from;
      threads = raw.threads;
      compute_mode = raw.compute;
      master_seed = raw.seed;
      replicates = raw.replicates;
      persistence = record {
        chunk_target_bytes = chunk_target_bytes;
        queue_capacity_bytes = queue_capacity_bytes;
      };
    })

  -- The states and the phases, and the test for cycles.
  unfoldable pub parse_study_phases :
      {Python : Type 0}
      → StudyManifest Percent
      → RawStudy Percent Python
      → Result ManifestError (ParsedManifest Percent Python)
  unfolding validate_state_paths parse_phases phase_keys validate_acyclic
  parse_study_phases manifest raw = do
    validate_state_paths raw.states
    phases ← parse_phases manifest (map (λ p. p.0) raw.phases) raw.phases
    no_cycle (validate_acyclic (phase_keys phases))
    ok (record { manifest = manifest; state_paths = raw.states; phases = phases })

  unfoldable pub parse :
      {Python : Type 0}
      → Result Text (RawStudy Percent Python)
      → Result ManifestError (ParsedManifest Percent Python)
  unfolding parse_study parse_study_phases
  parse (err message) = err (invalid [] (malformed message))
  parse (ok raw) = do manifest ← parse_study raw; parse_study_phases manifest raw
