-- ===== src/Config/Manifest/Valid.antt =====
-- What a manifest that `parse` of rust/src/config/manifest.rs accepts keeps to, and that its phases
-- can be put in an order.
use scientific_workflow.Prelude.{
  ℕ, ◌*◌, ◌<◌, ◌≡◌, ◌↔◌, refl, sym, inl, inr, false, ◌&&◌, ◌||◌, not, Bool-cases, some, leb, ltb,
  ◌==◌, any, Result, ok, err, List, [], ◌∷◌, All, length, map, >>=-eq-ok, >>-eq-ok, ok-injective,
  subst, arith,
}
use scientific_workflow.Prelude.Texts.{Text}
use scientific_workflow.Prelude.Members.{In}
use scientific_workflow.Study.{
  Search, States, clear, cycle, crashed, out_of_fuel, validate_acyclic, topological_positions,
}
use scientific_workflow.Study.Order.{IsSettled, HasNoRepeat}
use scientific_workflow.Study.Positions.{validated-positions}
use scientific_workflow.Config.Errors.{Pointer}
use scientific_workflow.Config.Manifest.{
  StudyManifest, ParsedPhase, workflow_schema_version, schema_unsupported, no_phase, phase_indices,
  no_threads, no_replicates, pause_threshold,
}
use scientific_workflow.Config.Manifest.Tasks.{is_empty}
use scientific_workflow.Config.Manifest.Phases.{AuthoredPhase, refuse, parse_phases}
use scientific_workflow.Config.Manifest.Bounds.{refuse-eq-ok}
use scientific_workflow.Config.Manifest.Names.{IsAccepted, parse_phases-IsAccepted}
use scientific_workflow.Config.Manifest.Lookup.{accepted-IsResolved, phase_keys-length}
use scientific_workflow.Config.Manifest.Parse.{
  RawStudy, Platform, ParsedManifest, bytes_per_megabyte, u64_limit, megabytes_to_bytes,
  validate_active, or_all, phase_keys, no_cycle, resolve_source, is_refused_threshold,
  validate_state_paths, parse_study, parse_study_phases, parse,
}

no_member :
    (position : ℕ) (selected : List ℕ)
    → any (λ other. other == position) selected ≡ false
    → In position selected
    → ⊥
no_member position [] h m = m
no_member position (x ∷ selected) h (inl e) = absurd (ground arith)
no_member position (x ∷ selected) h (inr m) = no_member position selected (ground arith) m

validate_active-lem :
    (count : ℕ) (selected positions : List ℕ)
    → validate_active count selected positions ≡ ok tt
    → All (λ position. position < count) positions
      × HasNoRepeat positions
      × ((x : ℕ) → In x selected → In x positions → ⊥)
unfolding validate_active
validate_active-lem count selected [] h = (tt, tt, λ x m n. n)
validate_active-lem count selected (position ∷ positions) h =
    let (passed, rest) =
      >>-eq-ok
        (refuse (leb count position || any (λ other. other == position) selected) _ phase_indices) _
        h in
    let clean =
      refuse-eq-ok (leb count position || any (λ other. other == position) selected) _ phase_indices
        passed in
    let (bounded, once, apart) = validate_active-lem count (position ∷ selected) positions rest in
    (
      (ground arith, bounded),
      (λ m. apart position (inl refl) m, once),
      λ x m n. elim n [
        | inl e ↦ no_member position selected (ground arith) (subst (λ i. In i selected) e m)
        | inr k ↦ apart x (inr m) k
      ],
    )

-- The sizes are those of whole megabytes, and fit in 64 bits.
abbrev pub IsSize : ℕ → ℕ → Type 0
IsSize megabytes bytes =
    (bytes ≡ megabytes * bytes_per_megabyte) × (0 < bytes) × (bytes < u64_limit)

megabytes_to_bytes-IsSize :
    (pointer : Pointer) (megabytes bytes : ℕ)
    → megabytes_to_bytes pointer megabytes ≡ ok bytes
    → IsSize megabytes bytes
unfolding megabytes_to_bytes
megabytes_to_bytes-IsSize pointer megabytes bytes h =
    elim (Bool-cases
      (ltb (megabytes * bytes_per_megabyte) u64_limit && ltb 0 (megabytes * bytes_per_megabyte))) [
        | inr e ↦ absurd (ground arith)
        | inl e ↦
            let same : megabytes * bytes_per_megabyte ≡ bytes = ground arith in
            (sym same, ground arith, ground arith)
      ]

-- The fields of a study that are checked: threads and replicates, at least one each, the sizes of
-- chunks and queues, and the active phases, distinct indices below the number of phases.
abbrev pub IsStudy :
    {Percent Python : Type 0} → RawStudy Percent Python → StudyManifest Percent → Type 0
IsStudy raw m =
    (m.workflow_schema ≡ workflow_schema_version)
    × (0 < m.threads)
    × (0 < m.replicates.count)
    × IsSize raw.chunk_target_mb m.persistence.chunk_target_bytes
    × IsSize raw.queue_capacity_mb m.persistence.queue_capacity_bytes
    × All (λ position. position < length raw.phases) m.active_phases
    × HasNoRepeat m.active_phases

no_cycle-clear : (s : Search) → no_cycle s ≡ ok tt → (states : States) × (s ≡ clear states)
no_cycle-clear (cycle phase) h = absurd (ground arith)
no_cycle-clear (clear states) h = (states, refl)
no_cycle-clear crashed h = absurd (ground arith)
no_cycle-clear out_of_fuel h = absurd (ground arith)

module _ {Percent Python : Type 0} (platform : Platform Percent) where
  parse_study-IsStudy :
      (raw : RawStudy Percent Python) (m : StudyManifest Percent)
      → parse_study platform raw ≡ ok m
      → IsStudy raw m
  unfolding parse_study
  parse_study-IsStudy raw m h =
      let active = or_all (length raw.phases) raw.active_phases in
      let (a, h1) =
        >>-eq-ok
          (refuse (not (raw.workflow_schema == workflow_schema_version)) _
            (schema_unsupported raw.workflow_schema))
          _ h in
      let (b, h2) = >>-eq-ok (refuse (is_empty raw.phases) _ no_phase) _ h1 in
      let (c, h3) = >>-eq-ok (validate_active (length raw.phases) [] active) _ h2 in
      let (source, d, h4) = >>=-eq-ok (resolve_source platform raw.reuse_from) _ h3 in
      let (e, h5) = >>-eq-ok (refuse (raw.threads == 0) _ no_threads) _ h4 in
      let (f, h6) = >>-eq-ok (refuse (raw.replicates.count == 0) _ no_replicates) _ h5 in
      let (chunk, g, h7) = >>=-eq-ok (megabytes_to_bytes _ raw.chunk_target_mb) _ h6 in
      let (queue, i, h8) = >>=-eq-ok (megabytes_to_bytes _ raw.queue_capacity_mb) _ h7 in
      let (j, h9) =
        >>-eq-ok (refuse (is_refused_threshold platform raw.pause_at_percent) _ pause_threshold) _
          h8 in
      let schema =
        refuse-eq-ok (not (raw.workflow_schema == workflow_schema_version)) _
          (schema_unsupported raw.workflow_schema) a in
      let threads = refuse-eq-ok (raw.threads == 0) _ no_threads e in
      let replicates = refuse-eq-ok (raw.replicates.count == 0) _ no_replicates f in
      let (bounded, once, apart) = validate_active-lem (length raw.phases) [] active c in
      subst (IsStudy raw) (ok-injective h9) (
        ground arith,
        ground arith,
        ground arith,
        megabytes_to_bytes-IsSize _ raw.chunk_target_mb chunk g,
        megabytes_to_bytes-IsSize _ raw.queue_capacity_mb queue i,
        bounded,
        once,
      )

  parse-parts :
      (document : Result Text (RawStudy Percent Python)) (m : ParsedManifest Percent Python)
      → parse platform document ≡ ok m
      → (raw : RawStudy Percent Python) × (document ≡ ok raw)
        × (parse_study platform raw ≡ ok m.manifest)
        × (parse_phases m.manifest (map (λ p. p.0) raw.phases) raw.phases ≡ ok m.phases)
        × ((states : States) × (validate_acyclic (phase_keys m.phases) ≡ clear states))
  unfolding parse parse_study_phases
  parse-parts (err message) m h = absurd (ground arith)
  parse-parts (ok raw) m h =
      let (study, e, rest) = >>=-eq-ok (parse_study platform raw) _ h in
      let (stated, h1) = >>-eq-ok (validate_state_paths platform raw.states) _ rest in
      let (phases, e2, h2) =
        >>=-eq-ok (parse_phases study (map (λ p. p.0) raw.phases) raw.phases) _ h1 in
      let (acyclic, h3) = >>-eq-ok (no_cycle (validate_acyclic (phase_keys phases))) _ h2 in
      let same : (record { manifest = study; state_paths = raw.states; phases = phases }) ≡ m =
        ok-injective h3 in
      let has_parts : ParsedManifest Percent Python → Type 0 = λ p.
        (parse_study platform raw ≡ ok p.manifest)
        × (parse_phases p.manifest (map (λ q. q.0) raw.phases) raw.phases ≡ ok p.phases)
        × ((states : States) × (validate_acyclic (phase_keys p.phases) ≡ clear states)) in
      let (x, y, z) =
        subst has_parts same
          (e, e2, no_cycle-clear (validate_acyclic (phase_keys phases)) acyclic) in
      (raw, refl, x, y, z)

  -- A manifest that parses has threads and replicates, at least one each; its chunk and queue
  -- sizes are the authored megabytes in bytes, not zero and below 2 ^ 64; its active phases are
  -- distinct indices below the number of phases; its phases are those of the document in their
  -- order; each phase admits at least one task at a time, and depends on phases of the document
  -- only; and no task asks for more threads than the study has, for a number of threads that the
  -- compute mode does not allow, or for a seed that the study does not have.
  pub parse-IsValid :
      (raw : RawStudy Percent Python) (m : ParsedManifest Percent Python)
      → parse platform (ok raw) ≡ ok m
      → let names : List Text = map (λ (p : Text × AuthoredPhase Python). p.0) raw.phases in
        IsStudy raw m.manifest
        × (map (λ (p : ParsedPhase Python). p.name) m.phases ≡ names)
        × All (IsAccepted m.manifest names) m.phases
  parse-IsValid raw m h =
      let (other, e, study, phases, acyclic) = parse-parts (ok raw) m h in
      let same : other ≡ raw = ok-injective (sym e) in
      let names : List Text = map (λ (p : Text × AuthoredPhase Python). p.0) other.phases in
      let (accepted, same_names) =
        parse_phases-IsAccepted m.manifest names other.phases m.phases phases in
      subst
        (λ (r : RawStudy Percent Python).
          IsStudy r m.manifest
          × (map (λ (p : ParsedPhase Python). p.name) m.phases
              ≡ map (λ (p : Text × AuthoredPhase Python). p.0) r.phases)
          × All (IsAccepted m.manifest (map (λ (p : Text × AuthoredPhase Python). p.0) r.phases))
              m.phases)
        same (parse_study-IsStudy other m.manifest study, same_names, accepted)

  -- The phases of a manifest that parses are put in an order: it holds every phase exactly once,
  -- and none before a phase that it depends on. Neither the lookup of a name nor the depth of the
  -- search can fail.
  pub parse-positions :
      (document : Result Text (RawStudy Percent Python)) (m : ParsedManifest Percent Python)
      → parse platform document ≡ ok m
      → (positions : List ℕ) × (topological_positions (phase_keys m.phases) ≡ some positions)
        × IsSettled (phase_keys m.phases) [] positions
        × HasNoRepeat positions
        × ((position : ℕ) → In position positions ↔ (position < length m.phases))
  parse-positions document m h =
      let (raw, e, study, phases, (states, acyclic)) = parse-parts document m h in
      let names : List Text = map (λ (p : Text × AuthoredPhase Python). p.0) raw.phases in
      let (accepted, same_names) =
        parse_phases-IsAccepted m.manifest names raw.phases m.phases phases in
      let resolved = accepted-IsResolved m.manifest names m.phases accepted same_names in
      let (positions, ran, settled, once, members) =
        validated-positions (phase_keys m.phases) resolved states acyclic in
      (
        positions,
        ran,
        settled,
        once,
        subst (λ count. (position : ℕ) → In position positions ↔ (position < count))
            (phase_keys-length m.phases) members,
      )
