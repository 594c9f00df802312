-- ===== src/Config/Manifest.antt =====
-- The study's manifest, rust/src/config/manifest.rs: the document as serde gives it, what it is
-- parsed to, and the errors of rust/src/config/error.rs that the parser raises. Durations are
-- their milliseconds and paths are texts. A task's Python declaration is read elsewhere.
pub mod Tasks
pub mod Phases
pub mod Parse
pub mod Bounds
pub mod Names
pub mod Lookup
pub mod Valid
pub mod Tests
use scientific_workflow.Prelude.{ℕ, Bool, Option, List}
use scientific_workflow.Prelude.Texts.{Text}
use scientific_workflow.Config.Errors.{Pointer}
use scientific_workflow.Resources.Compute.{ComputeMode}

abbrev pub workflow_schema_version : ℕ
workflow_schema_version = 1

pub data ReplicateScheduling : Type 0 where
  sequential parallel : ReplicateScheduling

pub data FailurePolicy : Type 0 where
  fail_fast finish_all : FailurePolicy

pub record ReplicatePolicy : Type 0 where
  pub count : ℕ
  pub scheduling : ReplicateScheduling
  pub failure_policy : FailurePolicy

pub record PersistenceSpecification : Type 0 where
  pub chunk_target_bytes : ℕ
  pub queue_capacity_bytes : ℕ

-- `Percent` is the type of the threshold, a 64-bit float.
pub record StudyManifest (Percent : Type 0) : Type 0 where
  pub disk_pause_at : Option Percent
  pub workflow_schema : ℕ
  pub active_phases : List ℕ
  pub reuse_from : Option Text
  pub threads : ℕ
  pub compute_mode : ComputeMode
  pub master_seed : Option ℕ
  pub replicates : ReplicatePolicy
  pub persistence : PersistenceSpecification

pub data ParsedTask (Python : Type 0) : Type 0 where
  execution_unit_task :
      (execution_unit : Text) (active : Bool) (state : Option Text) (timeout threads : Option ℕ)
      → ParsedTask Python
  program_task :
      (program : Text) (args : List Text) (seed_purpose : Option Text) (timeout : Option ℕ)
      (threads : ℕ)
      → ParsedTask Python
  python_task :
      (declaration : Python) (seed_purpose : Option Text) (timeout : Option ℕ) (threads : ℕ)
      → ParsedTask Python
  npy_task : (exclude_streams : List Text) (threads : ℕ) (auto : Bool) → ParsedTask Python

pub record ParsedPhase (Python : Type 0) : Type 0 where
  pub auto_name_prefix : Option Text
  pub name : Text
  pub dependencies : List Text
  pub tasks : List (ParsedTask Python)
  pub max_concurrency : ℕ
  pub start_interval : ℕ
  pub timeout : Option ℕ
  pub failure_policy : FailurePolicy

pub record RawTask (Python : Type 0) : Type 0 where
  pub execution_unit : Option Text
  pub active : Option Bool
  pub state : Option Text
  pub program : Option Text
  pub python : Option Python
  pub args : List Text
  pub timeout_ms : Option ℕ
  pub seed : Option Text
  pub resources : Option ℕ

pub data RawNpyMode : Type 0 where
  fixed auto : RawNpyMode

pub record RawPhase (Python : Type 0) : Type 0 where
  pub task_names : Option Text
  pub threads : Option ℕ
  pub mode : RawNpyMode
  pub exclude_streams : List Text
  pub after : List Text
  pub tasks : List (RawTask Python)
  pub max_concurrency : ℕ
  pub start_interval_ms : ℕ
  pub timeout_ms : Option ℕ
  pub failure_policy : FailurePolicy

pub data Refusal : Type 0 where
  malformed : Text → Refusal
  schema_unsupported : ℕ → Refusal
  no_phase phase_indices : Refusal
  source_empty source_not_directory : Refusal
  source_unreadable : Text → Refusal
  no_threads no_replicates size_overflow pause_threshold : Refusal
  state_path_empty state_path_absolute state_path_extension : Refusal
  bad_identifier : Refusal
  npy_only npy_threads_exceed exclusions_npy_only exclusions_repeated : Refusal
  no_task npy_with_tasks npy_without_after no_concurrency : Refusal
  own_dependency control_prefix seed_without_master : Refusal
  dependency_repeated dependency_cycle : Text → Refusal
  task_threads_exceed : ℕ → ℕ → Refusal
  auto_fixed_threads isolated_without_threads program_empty task_unclear : Refusal

-- `panicked` is a failed index of the test for cycles.
pub data ManifestError : Type 0 where
  invalid : Pointer → Refusal → ManifestError
  unknown_dependency : (phase dependency : Text) → ManifestError
  panicked : ManifestError
