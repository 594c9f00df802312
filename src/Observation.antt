-- ===== src/Observation.antt =====
-- rust/src/observation/session.rs, with the sampling of rust/src/observation/stream.rs: which
-- streams record a state. Writing the fields as JSON bytes is serde's work and a parameter here.
pub mod Records
pub mod History
pub mod Tests
use scientific_workflow.Prelude.{
  ℕ, ◌%◌, Bool, true, false, not, ◌&&◌, ◌||◌, Option, none, some, is_none, ltb, ◌==◌, if◌then◌else◌,
  Result, ok, err, List, [], ◌∷◌, map, ◌>>=◌, ◌>>◌,
}
use scientific_workflow.Prelude.Texts.{Text}

pub data IterationSampling : Type 0 where
  iterations : (interval : ℕ) → IterationSampling
  initial_and_final : IterationSampling

pub record BoundObservationStream : Type 0 where
  pub name : Text
  pub sampling : IterationSampling

-- A state as the session reads it; `schema` is the address of its schema instance.
pub record Observed (Payload : Type 0) : Type 0 where
  pub iteration : ℕ
  pub schema : ℕ
  pub payload : Payload

pub data ObservationError (Fault : Type 0) : Type 0 where
  non_increasing_observation : Text → (previous next : ℕ) → ObservationError Fault
  schema_mismatch : (iteration : ℕ) → ObservationError Fault
  encoding : Fault → ObservationError Fault

-- The bytes of a record of one stream, or what refuses them.
pub record Encoder : Type 1 where
  pub Payload : Type 0
  pub Fault : Type 0
  pub Bytes : Type 0
  pub to_vec : Observed Payload → BoundObservationStream → Result (ObservationError Fault) Bytes

-- A record that is returned: whose it is, the iteration of its time, and its bytes.
pub record EncodedObservation (Bytes : Type 0) : Type 0 where
  pub stream : Text
  pub iteration : ℕ
  pub bytes : Bytes

-- The two lists run in parallel: one last iteration for each stream.
pub record ObservationSession : Type 0 where
  pub schema : ℕ
  pub streams : List BoundObservationStream
  pub last_iterations : List (Option ℕ)

-- An interval is a `NonZeroU64`.
unfoldable pub includes : ℕ → IterationSampling → Bool
includes iteration (iterations interval) = iteration % interval == 0
includes iteration initial_and_final = false

unfoldable pub every_iterations : IterationSampling → Option ℕ
every_iterations (iterations interval) = some interval
every_iterations initial_and_final = none

unfoldable pub new_session : ℕ → List BoundObservationStream → ObservationSession
new_session schema streams = record {
  schema = schema;
  streams = streams;
  last_iterations = map (λ s. none) streams;
}

abbrev pub is_last : ℕ → Option ℕ → Bool
is_last iteration none = false
is_last iteration (some previous) = previous == iteration

unfoldable pub is_selected : Bool → ℕ → BoundObservationStream → Option ℕ → Bool
unfolding includes every_iterations
is_selected terminal iteration stream last =
    not (is_last iteration last)
    && (terminal
        || (includes iteration stream.sampling
            || (is_none (every_iterations stream.sampling) && is_none last)))

-- The first loop: no stream goes back.
unfoldable pub check_order :
    {Fault : Type 0}
    → ℕ
    → List BoundObservationStream
    → List (Option ℕ)
    → Result (ObservationError Fault) (Unit {0})
check_order iteration [] lasts = ok tt
check_order iteration (stream ∷ streams) [] = ok tt
check_order iteration (stream ∷ streams) (none ∷ lasts) = check_order iteration streams lasts
check_order iteration (stream ∷ streams) (some previous ∷ lasts) =
    if ltb iteration previous
    then err (non_increasing_observation stream.name previous iteration)
    else check_order iteration streams lasts

unfoldable pub selected :
    Bool → ℕ → List BoundObservationStream → List (Option ℕ) → List BoundObservationStream
unfolding is_selected
selected terminal iteration [] lasts = []
selected terminal iteration (stream ∷ streams) [] = []
selected terminal iteration (stream ∷ streams) (last ∷ lasts) =
    let rest = selected terminal iteration streams lasts in
    if is_selected terminal iteration stream last then stream ∷ rest else rest

-- `last_iterations[index] = Some(iteration)` for the selected ones.
unfoldable pub record_iteration :
    Bool → ℕ → List BoundObservationStream → List (Option ℕ) → List (Option ℕ)
unfolding is_selected
record_iteration terminal iteration [] lasts = lasts
record_iteration terminal iteration (stream ∷ streams) [] = []
record_iteration terminal iteration (stream ∷ streams) (last ∷ lasts) =
    (if is_selected terminal iteration stream last then some iteration else last)
    ∷ record_iteration terminal iteration streams lasts

module _ (encoder : Encoder) where
  open encoder use {Payload, Fault, Bytes, to_vec}

  unfoldable pub encode :
      Observed Payload
      → BoundObservationStream
      → Result (ObservationError Fault) (EncodedObservation Bytes)
  encode state stream = do
    bytes ← to_vec state stream
    ok (record { stream = stream.name; iteration = state.iteration; bytes = bytes })

  unfoldable pub encode_all :
      Observed Payload
      → List BoundObservationStream
      → Result (ObservationError Fault) (List (EncodedObservation Bytes))
  unfolding encode
  encode_all state [] = ok []
  encode_all state (stream ∷ streams) = do
    first ← encode state stream
    rest ← encode_all state streams
    ok (first ∷ rest)

  -- Everything that can fail, before anything changes.
  unfoldable pub encoded :
      Bool
      → Observed Payload
      → ObservationSession
      → Result (ObservationError Fault) (List (EncodedObservation Bytes))
  unfolding check_order selected encode_all
  encoded terminal state session = do
    check_order state.iteration session.streams session.last_iterations
    if session.schema == state.schema then ok tt else err (schema_mismatch state.iteration)
    encode_all state (selected terminal state.iteration session.streams session.last_iterations)

  unfoldable pub encode_selected :
      Bool
      → Observed Payload
      → ObservationSession
      → Result (ObservationError Fault) (List (EncodedObservation Bytes)) × ObservationSession
  unfolding encoded record_iteration
  encode_selected terminal state session = elim (encoded terminal state session) [
    | err e ↦ (err e, session)
    | ok records ↦ (
      ok records,
      record session {
        last_iterations =
            record_iteration terminal state.iteration session.streams session.last_iterations;
      },
    )
  ]

  unfoldable pub observe :
      Observed Payload
      → ObservationSession
      → Result (ObservationError Fault) (List (EncodedObservation Bytes)) × ObservationSession
  unfolding encode_selected
  observe = encode_selected false

  unfoldable pub observe_final :
      Observed Payload
      → ObservationSession
      → Result (ObservationError Fault) (List (EncodedObservation Bytes)) × ObservationSession
  unfolding encode_selected
  observe_final = encode_selected true
