-- ===== src/Series.antt =====
-- rust/src/state/series.rs: states in strictly growing iterations that share one schema instance.
pub mod Order
pub mod Tests
use scientific_workflow.Prelude.{
  ℕ, zero, suc, ◌+◌, ◌<◌, ◌≡◌, Bool, true, false, not, Option, none, some, leb, ◌==◌, if◌then◌else◌,
  Result, ok, err, List, [], ◌∷◌, ◌++◌, length,
}

-- What the series reads of a state; `schema` is the address of its schema instance.
pub record SystemState (Payload : Type 0) : Type 0 where
  pub schema : ℕ
  pub iteration : ℕ
  pub payload : Payload

pub data StateSeriesError (Fault : Type 0) : Type 0 where
  schema_mismatch : (iteration : ℕ) → StateSeriesError Fault
  non_increasing_iteration : (previous next : ℕ) → StateSeriesError Fault
  position_out_of_bounds : (position len : ℕ) → StateSeriesError Fault
  payload_access : (position : ℕ) → Fault → StateSeriesError Fault

pub record StateSeries (Payload : Type 0) : Type 0 where
  pub spec : ℕ
  pub states : List (SystemState Payload)

module _ {Payload : Type 0} where
  unfoldable pub new_series : ℕ → StateSeries Payload
  new_series spec = record { spec = spec; states = [] }

  unfoldable pub last_state : List (SystemState Payload) → Option (SystemState Payload)
  last_state [] = none
  last_state (s ∷ []) = some s
  last_state (s ∷ t ∷ states) = last_state (t ∷ states)

  unfoldable pub state_at : List (SystemState Payload) → ℕ → Option (SystemState Payload)
  state_at [] position = none
  state_at (s ∷ states) zero = some s
  state_at (s ∷ states) (suc position) = state_at states position

  -- `Vec::pop`: the states that are left, and the last.
  unfoldable pub pop_last :
      List (SystemState Payload) → List (SystemState Payload) × Option (SystemState Payload)
  pop_last [] = ([], none)
  pop_last (s ∷ []) = ([], some s)
  pop_last (s ∷ t ∷ states) = let (rest, last) = pop_last (t ∷ states) in (s ∷ rest, last)

  unfoldable pub pop_state :
      StateSeries Payload → Option (SystemState Payload) × StateSeries Payload
  unfolding pop_last
  pop_state series =
      let (rest, last) = pop_last series.states in (last, record series { states = rest })

  unfoldable pub clear_states : StateSeries Payload → StateSeries Payload
  clear_states series = record series { states = [] }

module _ {Payload Fault : Type 0} where
  -- The refused state goes back to the caller, who has it here anyhow.
  unfoldable pub push_state :
      SystemState Payload
      → StateSeries Payload
      → Result (StateSeriesError Fault) (Unit {0}) × StateSeries Payload
  push_state state series =
      let pushed = record series { states = series.states ++ state ∷ [] } in
      if not (series.spec == state.schema)
      then (err (schema_mismatch state.iteration), series)
      else elim (last_state series.states) [
        | none ↦ (ok tt, pushed)
        | some previous ↦
            if leb state.iteration previous.iteration
            then (err (non_increasing_iteration previous.iteration state.iteration), series)
            else (ok tt, pushed)
      ]

  -- The caller's change of one payload through the reference, or the state's refusal of access.
  unfoldable pub write_at :
      (Payload → Result Fault Payload)
      → ℕ
      → List (SystemState Payload)
      → Option (Result Fault (List (SystemState Payload)))
  write_at change position [] = none
  write_at change zero (s ∷ states) = elim (change s.payload) [
    | err e ↦ some (err e)
    | ok p ↦ some (ok (record s { payload = p } ∷ states))
  ]
  write_at change (suc position) (s ∷ states) = elim (write_at change position states) [
    | none ↦ none
    | some (err e) ↦ some (err e)
    | some (ok rest) ↦ some (ok (s ∷ rest))
  ]

  unfoldable pub payload_mut_at :
      (Payload → Result Fault Payload)
      → ℕ
      → StateSeries Payload
      → Result (StateSeriesError Fault) (Unit {0}) × StateSeries Payload
  unfolding write_at
  payload_mut_at change position series = elim (write_at change position series.states) [
    | none ↦ (err (position_out_of_bounds position (length series.states)), series)
    | some (err e) ↦ (err (payload_access position e), series)
    | some (ok states) ↦ (ok tt, record series { states = states })
  ]
