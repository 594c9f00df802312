-- ===== src/Task/Execution.antt =====
-- `ExecutionUnitDefinition::execute` of rust/src/task/execution.rs. The unit is application code
-- and the host is the runtime: both are parameters. The host answers by the calls that it has
-- had, so any behaviour over time is covered; the newest call is the head of a trace.
use scientific_workflow.Prelude.{
  ℕ, zero, suc, ◌+◌, Bool, not, ◌||◌, Option, none, some, is_some, ltb, ◌==◌, if◌then◌else◌, Result,
  ok, err, List, [], ◌∷◌, any, ◌>>=◌, ◌>>◌,
}
use scientific_workflow.Prelude.Texts.{Text, text_eq, trim}

pub record MemberView (Reason : Type 0) : Type 0 where
  pub identity : Text
  pub owner : ℕ
  pub schema : ℕ
  pub iteration : ℕ
  pub target_iteration : Option ℕ
  pub completion : Option (Option Reason)

-- `initialize` also yields the member identities for which it asked for seeds.
pub record ExecutionUnit : Type 1 where
  pub U : Type 0
  pub Fault : Type 0
  pub Reason : Type 0
  pub initialize : Result Fault (U × List Text)
  pub member_count : U → ℕ
  pub member : U → ℕ → Option (MemberView Reason)
  pub step : U → Result Fault U

-- The calls of `TaskExecutionHost` that one task makes.
pub data Event (Reason : Type 0) : Type 0 where
  checkpoint asked computing : Event Reason
  began : (index iteration : ℕ) → Text → Option ℕ → Event Reason
  stepped : (index iteration : ℕ) → Option ℕ → Event Reason
  finished : (index iteration : ℕ) → Option ℕ → Option Reason → Event Reason

abbrev pub Trace : Type 0 → Type 0
Trace Reason = List (Event Reason)

pub record Host (Fault Reason : Type 0) : Type 0 where
  pub cancellation_requested : Trace Reason → Bool
  pub reply : Event Reason → Trace Reason → Result Fault (Unit {0})

pub data ContractError : Type 0 where
  empty_execution_unit non_advancing_step state_owner_changed : ContractError
  missing_member member_outside_declared_count invalid_identity : (index : ℕ) → ContractError
  shared_state_owner : (index : ℕ) → ContractError
  member_count_changed target_before_current target_decreased : ℕ → ℕ → ContractError
  duplicate_identity completion_reversed unknown_member_identity : Text → ContractError
  identity_changed : ℕ → Text → Text → ContractError
  schema_changed target_removed : ℕ → ContractError
  iteration_regressed completed_member_advanced : Text → ℕ → ℕ → ContractError

-- `panicked` is a failed `expect`; `out_of_fuel` is no error of the program.
pub data TaskError (Fault : Type 0) : Type 0 where
  fault : Fault → TaskError Fault
  contract : ContractError → TaskError Fault
  panicked out_of_fuel : TaskError Fault

pub record MemberSnapshot : Type 0 where
  pub identity : Text
  pub state_address : ℕ
  pub iteration : ℕ
  pub complete : Bool
  pub target : Option ℕ

unfoldable pub validate_identity : Text → ℕ → Result ContractError (Unit {0})
validate_identity identity i =
    if text_eq identity [] || not (text_eq (trim identity) identity)
    then err (invalid_identity i)
    else ok tt

unfoldable pub validate_target_progress : Option ℕ → Option ℕ → Result ContractError (Unit {0})
validate_target_progress none next = ok tt
validate_target_progress (some previous) none = err (target_removed previous)
validate_target_progress (some previous) (some next) =
    if ltb next previous then err (target_decreased previous next) else ok tt

abbrev pub guard : Bool → ContractError → Result ContractError (Unit {0})
guard test e = if test then ok tt else err e

abbrev pub contains_text : Text → List Text → Bool
contains_text s = any (text_eq s)

unfoldable pub validate_member_identities : List Text → List Text → Result ContractError (Unit {0})
validate_member_identities identities [] = ok tt
validate_member_identities identities (r ∷ requests) =
    if contains_text r identities
    then validate_member_identities identities requests
    else err (unknown_member_identity r)

module _ {Reason : Type 0} where
  unfoldable pub validate_state : MemberView Reason → ℕ → ℕ → Result ContractError (Unit {0})
  validate_state view schema expected_address =
      if view.owner == expected_address
      then (if view.schema == schema then ok tt else err (schema_changed view.iteration))
      else err state_owner_changed

  unfoldable pub validate_target : MemberView Reason → Result ContractError (Option ℕ)
  validate_target view = elim view.target_iteration [
    | none ↦ ok none
    | some target ↦
        if ltb target view.iteration
        then err (target_before_current target view.iteration)
        else ok (some target)
  ]

  abbrev pub snapshot : MemberView Reason → Option ℕ → MemberSnapshot
  snapshot view target = record {
    identity = view.identity;
    state_address = view.owner;
    iteration = view.iteration;
    complete = is_some view.completion;
    target = target;
  }

module _ (unit : ExecutionUnit) where
  open unit use {U, Fault, Reason, member}

  unfoldable pub required_member : U → ℕ → Result ContractError (MemberView Reason)
  required_member u i = elim (member u i) [ none ↦ err (missing_member i) | some v ↦ ok v ]

  -- `for index in 0..member_count` with the rounds that are left; the two sets are lists.
  unfoldable pub inspect_initial_members :
      U → ℕ → ℕ → ℕ → List Text → List ℕ → Result ContractError (List MemberSnapshot)
  unfolding required_member
  inspect_initial_members u schema i zero identities states = ok []
  inspect_initial_members u schema i (suc left) identities states = do
    view ← required_member u i
    validate_identity view.identity i
    guard (not (contains_text view.identity identities)) (duplicate_identity view.identity)
    validate_state view schema view.owner
    guard (not (any (λ a. a == view.owner) states)) (shared_state_owner i)
    target ← validate_target view
    rest ←
        inspect_initial_members u schema (i + 1) left (view.identity ∷ identities)
          (view.owner ∷ states)
    ok (snapshot view target ∷ rest)

  unfoldable pub inspect_members :
      U → ℕ → ℕ → List MemberSnapshot → Result ContractError (List MemberSnapshot)
  unfolding required_member
  inspect_members u schema i [] = ok []
  inspect_members u schema i (expected ∷ previous) = do
    view ← required_member u i
    guard (text_eq view.identity expected.identity)
        (identity_changed i expected.identity view.identity)
    validate_state view schema expected.state_address
    target ← validate_target view
    validate_target_progress expected.target target
    rest ← inspect_members u schema (i + 1) previous
    ok (
        record (snapshot view target) {
          identity = expected.identity;
          state_address = expected.state_address;
        }
        ∷ rest)
