-- ===== src/Config/Manifest/Tests.antt =====
-- A small manifest, for rust/src/config/manifest.rs.
use scientific_workflow.Prelude.{
  ℕ, ◌<◌, ◌≡◌, ◌↔◌, refl, true, false, none, some, ok, List, [], ◌∷◌, All, map,
}
use scientific_workflow.Prelude.Texts.{Text, text, trim, trim_start, trim_end}
use scientific_workflow.Prelude.Members.{In}
use scientific_workflow.Resources.Compute.{isolated}
use scientific_workflow.Study.{
  States, clear, topological_positions, validate_acyclic, index_from, by_name, find_each,
  find_cycle, find_all, visit_each, visit_phase, visit_all,
}
use scientific_workflow.Study.Order.{IsSettled, HasNoRepeat, IsAcyclic}
use scientific_workflow.Study.Accepted.{validate_acyclic_iff}
use scientific_workflow.Config.Manifest.Lookup.{accepted-IsResolved}
use scientific_workflow.Config.Manifest.{
  sequential, fail_fast, finish_all, fixed, RawTask, ParsedPhase, execution_unit_task, program_task,
}
use scientific_workflow.Config.Manifest.Tasks.{
  validate_identifier, validate_task_threads, parse_seed, validate_allocation, parse_unit,
  parse_program, parse_python, parse_subject, parse_task,
}
use scientific_workflow.Config.Manifest.Phases.{
  AuthoredPhase, validate_exclusions, resolve_dependencies, read_phase, parse_tasks, validate_phase,
  parse_phase, parse_phases,
}
use scientific_workflow.Config.Manifest.Names.{IsAccepted}
use scientific_workflow.Config.Manifest.Parse.{
  RawStudy, Platform, ParsedManifest, megabytes_to_bytes, validate_active, phase_keys,
  resolve_source, validate_state_paths, parse_study, parse_study_phases, parse,
}
use scientific_workflow.Config.Manifest.Valid.{IsStudy, parse-IsValid, parse-positions}

abbrev platform : Platform (Unit {0})
platform = record {
  is_finite = λ p. true;
  is_at_most_zero = λ p. false;
  is_above_hundred = λ p. false;
  is_absolute = λ path. false;
  has_json_extension = λ path. true;
  find_source = λ path. ok path;
  is_utf8_directory = λ path. true;
}

abbrev unit_task : RawTask (Unit {0})
unit_task = record {
  execution_unit = some (text "walk");
  active = none;
  state = none;
  program = none;
  python = none;
  args = [];
  timeout_ms = none;
  seed = none;
  resources = some 3;
}

abbrev plot_task : RawTask (Unit {0})
plot_task = record unit_task {
  execution_unit = none;
  program = some (text "plot");
  resources = none;
  seed = some (text "noise");
}

abbrev phase_of : List Text → RawTask (Unit {0}) → AuthoredPhase (Unit {0})
phase_of after task = record {
  exclusions_authored = false;
  npy_resources_authored = false;
  read = ok (record {
    task_names = none;
    threads = none;
    mode = fixed;
    exclude_streams = [];
    after = after;
    tasks = task ∷ [];
    max_concurrency = 2;
    start_interval_ms = 0;
    timeout_ms = some 100;
    failure_policy = finish_all;
  });
}

abbrev raw : RawStudy (Unit {0}) (Unit {0})
raw = record {
  pause_at_percent = some tt;
  workflow_schema = 1;
  active_phases = some (1 ∷ 0 ∷ []);
  reuse_from = none;
  threads = 4;
  compute = isolated;
  states = [];
  seed = some 7;
  replicates = record { count = 2; scheduling = sequential; failure_policy = fail_fast };
  chunk_target_mb = 64;
  queue_capacity_mb = 64;
  phases =
      (text "plot", phase_of (text "walk" ∷ []) plot_task)
      ∷ (text "walk", phase_of [] unit_task)
      ∷ [];
}

abbrev parsed_of : Text → List Text → RawTask (Unit {0}) → ParsedPhase (Unit {0})
parsed_of name after task = record {
  auto_name_prefix = none;
  name = name;
  dependencies = after;
  tasks = [];
  max_concurrency = 2;
  start_interval = 0;
  timeout = some 100;
  failure_policy = finish_all;
}

abbrev parsed : ParsedManifest (Unit {0}) (Unit {0})
parsed = record {
  manifest = record {
    disk_pause_at = some tt;
    workflow_schema = 1;
    active_phases = 1 ∷ 0 ∷ [];
    reuse_from = none;
    threads = 4;
    compute_mode = isolated;
    master_seed = some 7;
    replicates = record { count = 2; scheduling = sequential; failure_policy = fail_fast };
    persistence = record { chunk_target_bytes = 64000000; queue_capacity_bytes = 64000000 };
  };
  state_paths = [];
  phases =
      (record (parsed_of (text "plot") (text "walk" ∷ []) plot_task) {
        tasks = program_task (text "plot") [] (some (text "noise")) none 1 ∷ [];
      })
      ∷ (record (parsed_of (text "walk") [] unit_task) {
        tasks = execution_unit_task (text "walk") true none none (some 3) ∷ [];
      })
      ∷ [];
}

parses : parse platform (ok raw) ≡ ok parsed
unfolding parse parse_study parse_study_phases validate_active resolve_source megabytes_to_bytes
    validate_state_paths parse_phases parse_phase validate_identifier read_phase validate_phase
    validate_exclusions resolve_dependencies parse_tasks parse_task parse_seed parse_subject
    parse_unit parse_program parse_python validate_allocation validate_task_threads trim trim_start
    trim_end phase_keys validate_acyclic find_all find_cycle find_each by_name index_from
parses = refl

parse-IsValid_example :
    IsStudy raw parsed.manifest
    × (map (λ (p : ParsedPhase (Unit {0})). p.name) parsed.phases ≡ text "plot" ∷ text "walk" ∷ [])
    × All (IsAccepted parsed.manifest (text "plot" ∷ text "walk" ∷ [])) parsed.phases
parse-IsValid_example = parse-IsValid platform raw parsed parses

parse-positions_example :
    (positions : List ℕ) × (topological_positions (phase_keys parsed.phases) ≡ some positions)
    × IsSettled (phase_keys parsed.phases) [] positions
    × HasNoRepeat positions
    × ((position : ℕ) → In position positions ↔ (position < 2))
parse-positions_example = parse-positions platform (ok raw) parsed parses

positions_of_parsed : topological_positions (phase_keys parsed.phases) ≡ some (1 ∷ 0 ∷ [])
unfolding topological_positions visit_all visit_phase visit_each by_name index_from phase_keys
positions_of_parsed = refl

-- The phases of the small manifest can look up their dependencies, and pass the test for cycles.
validate_acyclic_iff_example :
    ((after : States) × (validate_acyclic (phase_keys parsed.phases) ≡ clear after))
    ↔ IsAcyclic (phase_keys parsed.phases)
validate_acyclic_iff_example = validate_acyclic_iff (phase_keys parsed.phases) (
    accepted-IsResolved parsed.manifest (text "plot" ∷ text "walk" ∷ []) parsed.phases
      parse-IsValid_example.2 parse-IsValid_example.1)
