-- ===== src/Study.antt =====
-- The order of the phases of a study: `validate_acyclic` of rust/src/config/manifest.rs, which
-- refuses a cycle when the manifest is read, and `topological_positions` of
-- rust/src/study/plan.rs, which orders the phases of the compiled study.
pub mod Order
pub mod Pigeons
pub mod Cycles
pub mod Accepted
pub mod Positions
use scientific_workflow.Prelude.{
  ℕ, zero, suc, ◌+◌, Bool, true, false, Option, none, some, ◌==◌, if◌then◌else◌, List, [], ◌∷◌,
  ◌++◌, length, get_elem?,
}
use scientific_workflow.Prelude.Texts.{Text, text_eq}

-- The name and the dependencies of a `ParsedPhase` or a `StudyPhase`; its other fields have no
-- part in the order.
pub record PhaseKeys : Type 0 where
  pub name : Text
  pub dependencies : List Text

abbrev pub range : ℕ → ℕ → List ℕ
range start zero = []
range start (suc count) = start ∷ range (start + 1) count

-- The map `by_name`, filled from the index on: a later phase of the same name takes the place.
abbrev pub or_index : Option ℕ → Bool → ℕ → Option ℕ
or_index (some later) same index = some later
or_index none same index = if same then some index else none

unfoldable pub index_from : ℕ → List PhaseKeys → Text → Option ℕ
index_from index [] name = none
index_from index (p ∷ phases) name =
    or_index (index_from (index + 1) phases name) (text_eq p.name name) index

unfoldable pub by_name : List PhaseKeys → Text → Option ℕ
unfolding index_from
by_name phases name = index_from 0 phases name

abbrev pub put : {A : Type 0} → ℕ → A → (ℕ → A) → ℕ → A
put index a states other = if other == index then a else states other

-- The states of the phases: 0 fresh, 1 entered, 2 left.
abbrev pub States : Type 0
States = ℕ → ℕ

-- `crashed` is a failed index; `out_of_fuel` is not an outcome of the code.
pub data Search : Type 0 where
  cycle : Text → Search
  clear : States → Search
  crashed out_of_fuel : Search

-- The loop over the dependencies, for any search from one phase.
unfoldable pub find_each : List PhaseKeys → (ℕ → States → Search) → List Text → States → Search
find_each phases find_cycle [] states = clear states
find_each phases find_cycle (d ∷ dependencies) states = elim (by_name phases d) [
  | none ↦ crashed
  | some index ↦ elim (find_cycle index states) [
    | cycle phase ↦ cycle phase
    | clear after ↦ find_each phases find_cycle dependencies after
    | crashed ↦ crashed
    | out_of_fuel ↦ out_of_fuel
  ]
]

abbrev pub leave : ℕ → Search → Search
leave index (cycle phase) = cycle phase
leave index (clear after) = clear (put index 2 after)
leave index crashed = crashed
leave index out_of_fuel = out_of_fuel

-- `visit` of `validate_acyclic`.
unfoldable pub find_cycle : List PhaseKeys → ℕ → ℕ → States → Search
unfolding find_each
find_cycle phases zero index states = out_of_fuel
find_cycle phases (suc fuel) index states = elim (get_elem? phases index) [
  | none ↦ crashed
  | some p ↦
      if states index == 1
      then cycle p.name
      else if states index == 2
      then clear states
      else leave index
          (find_each phases (find_cycle phases fuel) p.dependencies (put index 1 states))
]

unfoldable pub find_all : List PhaseKeys → ℕ → List ℕ → States → Search
unfolding find_cycle
find_all phases fuel [] states = clear states
find_all phases fuel (index ∷ indices) states = elim (find_cycle phases fuel index states) [
  | cycle phase ↦ cycle phase
  | clear after ↦ find_all phases fuel indices after
  | crashed ↦ crashed
  | out_of_fuel ↦ out_of_fuel
]

-- A search enters a phase at most once, so that it is nowhere deeper than there are phases.
unfoldable pub validate_acyclic : List PhaseKeys → Search
unfolding find_all
validate_acyclic phases = find_all phases (length phases + 1) (range 0 (length phases)) (λ index. 0)

-- What `topological_positions` has visited, and its positions.
pub record Visits : Type 0 where
  pub visited : ℕ → Bool
  pub positions : List ℕ

unfoldable pub visit_each :
    List PhaseKeys → (ℕ → Visits → Option Visits) → List Text → Visits → Option Visits
visit_each phases visit [] visits = some visits
visit_each phases visit (d ∷ dependencies) visits = elim (by_name phases d) [
  | none ↦ none
  | some index ↦ elim (visit index visits) [
    | none ↦ none
    | some after ↦ visit_each phases visit dependencies after
  ]
]

abbrev pub push_position : ℕ → Option Visits → Option Visits
push_position index none = none
push_position index (some after) =
    some
      (record { visited = put index true after.visited; positions = after.positions ++ index ∷ [] })

-- `visit` of `topological_positions`; none is a failed index or the end of the fuel.
unfoldable pub visit_phase : List PhaseKeys → ℕ → ℕ → Visits → Option Visits
unfolding visit_each
visit_phase phases zero index visits = none
visit_phase phases (suc fuel) index visits = elim (get_elem? phases index) [
  | none ↦ none
  | some p ↦
      if visits.visited index
      then some visits
      else push_position index (visit_each phases (visit_phase phases fuel) p.dependencies visits)
]

unfoldable pub visit_all : List PhaseKeys → ℕ → List ℕ → Visits → Option Visits
unfolding visit_phase
visit_all phases fuel [] visits = some visits
visit_all phases fuel (index ∷ indices) visits = elim (visit_phase phases fuel index visits) [
  | none ↦ none
  | some after ↦ visit_all phases fuel indices after
]

unfoldable pub topological_positions : List PhaseKeys → Option (List ℕ)
unfolding visit_all
topological_positions phases =
    elim (visit_all phases (length phases + 1) (range 0 (length phases))
      (record { visited = λ index. false; positions = [] })) [
        | none ↦ none
        | some after ↦ some after.positions
      ]
