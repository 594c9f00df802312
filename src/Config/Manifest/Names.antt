-- ===== src/Config/Manifest/Names.antt =====
-- The dependencies and phases that rust/src/config/manifest.rs accepts.
use scientific_workflow.Prelude.{
  ◌<◌, ◌≤◌, ◌≡◌, refl, inl, inr, Bool, true, false, ◌&&◌, not, Bool-cases, ltb, ◌==◌, if◌then◌else◌,
  ok, err, List, [], ◌∷◌, ◌++◌, All, All-append, map, >>=-eq-ok, >>-eq-ok, ok-injective, subst,
  arith,
}
use scientific_workflow.Prelude.Texts.{Text, text, text_eq}
use scientific_workflow.Config.Errors.{Pointer, child_pointer}
use scientific_workflow.Config.Manifest.{
  StudyManifest, ParsedPhase, RawPhase, unknown_dependency, own_dependency, dependency_repeated,
  no_concurrency, npy_only, npy_threads_exceed, exclusions_npy_only, no_task, npy_with_tasks,
  npy_without_after,
}
use scientific_workflow.Config.Manifest.Tasks.{is_empty, validate_identifier}
use scientific_workflow.Config.Manifest.Phases.{
  AuthoredPhase, refuse, is_member, npy_phase_name, validate_exclusions, resolve_dependencies,
  read_phase, or_threads, validate_prefix, parse_tasks, validate_phase, npy_tasks, parsed_phase,
  parse_phase, parse_phases,
}
use scientific_workflow.Config.Manifest.Bounds.{Fits, refuse-eq-ok, parse_tasks-Fits}

abbrev pub IsDeclared : List Text → Text → Type 0
IsDeclared declared d = is_member d declared ≡ true

pub resolve_dependencies-IsDeclared :
    (pointer : Pointer) (declared : List Text) (name : Text) (seen after dependencies : List Text)
    → resolve_dependencies pointer declared name seen after ≡ ok dependencies
    → All (IsDeclared declared) dependencies
unfolding resolve_dependencies
resolve_dependencies-IsDeclared pointer declared name seen [] dependencies h =
    subst (All (IsDeclared declared)) (ok-injective h) tt
resolve_dependencies-IsDeclared pointer declared name seen (d ∷ after) dependencies h =
    let (named, h1) = >>-eq-ok (validate_identifier pointer d) _ h in
    let (other, h2) = >>-eq-ok (refuse (text_eq d name) pointer own_dependency) _ h1 in
    let (known, h3) =
      >>-eq-ok (if is_member d declared then ok tt else err (unknown_dependency name d)) _ h2 in
    let (new, h4) = >>-eq-ok (refuse (is_member d seen) pointer (dependency_repeated d)) _ h3 in
    let (rest, e, same) =
      >>=-eq-ok (resolve_dependencies pointer declared name (d ∷ seen) after) _ h4 in
    let is_declared : is_member d declared ≡ true = elim (Bool-cases (is_member d declared)) [
      | inl known_name ↦ known_name
      | inr unknown_name ↦ absurd (ground arith)
    ] in
    subst (All (IsDeclared declared)) (ok-injective same)
      (is_declared, resolve_dependencies-IsDeclared pointer declared name (d ∷ seen) after rest e)

abbrev pub IsAccepted :
    {Percent Python : Type 0} → StudyManifest Percent → List Text → ParsedPhase Python → Type 0
IsAccepted manifest declared p =
    (0 < p.max_concurrency) × All (Fits manifest) p.tasks × All (IsDeclared declared) p.dependencies

module _ {Percent Python : Type 0} (manifest : StudyManifest Percent) where
  validate_phase-lem :
      (pointer : Pointer) (npy : Bool) (authored : AuthoredPhase Python) (raw : RawPhase Python)
      → validate_phase manifest pointer npy authored raw ≡ ok tt
      → (0 < raw.max_concurrency) × (or_threads raw.threads manifest.threads ≤ manifest.threads)
  unfolding validate_phase
  validate_phase-lem pointer npy authored raw h =
      let (a, h1) =
        >>-eq-ok (refuse (authored.npy_resources_authored && not npy) pointer npy_only) _ h in
      let (b, h2) =
        >>-eq-ok
          (refuse (ltb manifest.threads (or_threads raw.threads manifest.threads)) _
            npy_threads_exceed)
          _ h1 in
      let (c, h3) =
        >>-eq-ok (refuse (authored.exclusions_authored && not npy) _ exclusions_npy_only) _ h2 in
      let (d, h4) = >>-eq-ok (validate_exclusions _ [] raw.exclude_streams) _ h3 in
      let (e, h5) = >>-eq-ok (refuse (not npy && is_empty raw.tasks) _ no_task) _ h4 in
      let (f, h6) = >>-eq-ok (refuse (npy && not (is_empty raw.tasks)) _ npy_with_tasks) _ h5 in
      let (g, h7) = >>-eq-ok (refuse (npy && is_empty raw.after) _ npy_without_after) _ h6 in
      let positive = refuse-eq-ok (raw.max_concurrency == 0) _ no_concurrency h7 in
      let bounded =
        refuse-eq-ok (ltb manifest.threads (or_threads raw.threads manifest.threads)) _
          npy_threads_exceed b in
      (ground arith, ground arith)

  npy_tasks-Fits :
      (npy : Bool) (raw : RawPhase Python)
      → or_threads raw.threads manifest.threads ≤ manifest.threads
      → All (Fits manifest) (npy_tasks manifest npy raw)
  npy_tasks-Fits true raw h = (h, tt)
  npy_tasks-Fits false raw h = tt

  parse_phase-IsAccepted :
      (declared : List Text) (name : Text) (authored : AuthoredPhase Python)
      (parsed : ParsedPhase Python)
      → parse_phase manifest declared name authored ≡ ok parsed
      → IsAccepted manifest declared parsed × (parsed.name ≡ name)
  unfolding parse_phase
  parse_phase-IsAccepted declared name authored parsed h =
      let pointer = child_pointer (child_pointer [] (text "phases")) name in
      let npy = text_eq name npy_phase_name in
      let (named, h1) = >>-eq-ok (validate_identifier pointer name) _ h in
      let (raw, read, h2) = >>=-eq-ok (read_phase pointer authored) _ h1 in
      let (valid, h3) = >>-eq-ok (validate_phase manifest pointer npy authored raw) _ h2 in
      let (dependencies, resolved, h4) =
        >>=-eq-ok
          (resolve_dependencies (child_pointer pointer (text "after")) declared name [] raw.after) _
          h3 in
      let (tasks, tasked, h5) =
        >>=-eq-ok (parse_tasks manifest (child_pointer pointer (text "tasks")) 0 raw.tasks) _ h4 in
      let (prefixed, h6) = >>-eq-ok (validate_prefix pointer raw.task_names) _ h5 in
      let (positive, bounded) = validate_phase-lem pointer npy authored raw valid in
      let result : ParsedPhase Python =
        parsed_phase name dependencies (tasks ++ npy_tasks manifest npy raw) raw in
      let same : result ≡ parsed = ok-injective h6 in
      subst (λ (p : ParsedPhase Python). IsAccepted manifest declared p × (p.name ≡ name)) same
        (
          (
            positive,
            All-append (Fits manifest) tasks (npy_tasks manifest npy raw)
                (parse_tasks-Fits manifest (child_pointer pointer (text "tasks")) 0 raw.tasks tasks
                  tasked)
                (npy_tasks-Fits npy raw bounded),
            resolve_dependencies-IsDeclared (child_pointer pointer (text "after")) declared name []
                raw.after dependencies resolved,
          ),
          refl,
        )

  pub parse_phases-IsAccepted :
      (declared : List Text) (phases : List (Text × AuthoredPhase Python))
      (parsed : List (ParsedPhase Python))
      → parse_phases manifest declared phases ≡ ok parsed
      → All (IsAccepted manifest declared) parsed
        × (map (λ (p : ParsedPhase Python). p.name) parsed
            ≡ map (λ (p : Text × AuthoredPhase Python). p.0) phases)
  unfolding parse_phases
  parse_phases-IsAccepted declared [] parsed h =
      subst
        (λ (ps : List (ParsedPhase Python)).
          All (IsAccepted manifest declared) ps
          × (map (λ (p : ParsedPhase Python). p.name) ps ≡ []))
        (ok-injective h) (tt, refl)
  parse_phases-IsAccepted declared ((name, authored) ∷ phases) parsed h =
      let (first, e, rest) = >>=-eq-ok (parse_phase manifest declared name authored) _ h in
      let (others, e2, same) = >>=-eq-ok (parse_phases manifest declared phases) _ rest in
      let (accepted, is_name) = parse_phase-IsAccepted declared name authored first e in
      let (all_accepted, are_names) = parse_phases-IsAccepted declared phases others e2 in
      let names : List Text = map (λ (p : Text × AuthoredPhase Python). p.0) phases in
      subst
        (λ (ps : List (ParsedPhase Python)).
          All (IsAccepted manifest declared) ps
          × (map (λ (p : ParsedPhase Python). p.name) ps ≡ name ∷ names))
        (ok-injective same) ((accepted, all_accepted), cc)
