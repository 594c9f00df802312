-- ===== src/Series/Tests.antt =====
-- A series of schema 7 with the iterations 1 and 4.
use scientific_workflow.Prelude.{ℕ, ◌≡◌, ◌↔◌, refl, true, some, ok, [], ◌∷◌, ◌==◌, arith}
use scientific_workflow.Series.{SystemState, StateSeries, last_state, push_state, pop_state}
use scientific_workflow.Series.Order.{
  is_after, IsValid, pushes, Step-IsValid, push_state_iff, pop_state-push_state,
}

abbrev state_of : ℕ → SystemState ℕ
state_of n = record { schema = 7; iteration = n; payload = 0 }

abbrev first_two : StateSeries ℕ
first_two = record { spec = 7; states = state_of 1 ∷ state_of 4 ∷ [] }

first_two-IsValid : IsValid first_two
first_two-IsValid = (refl, omega arith, refl)

taken : (push_state {Fault = ℕ} (state_of 6) first_two).0 ≡ ok tt
unfolding push_state last_state
taken = refl

Step-IsValid_example : IsValid (push_state {Fault = ℕ} (state_of 6) first_two).1
Step-IsValid_example =
    Step-IsValid ℕ first_two (push_state {Fault = ℕ} (state_of 6) first_two).1
      (pushes (state_of 6) first_two) first_two-IsValid

push_state_iff_example : ((push_state {Fault = ℕ} (state_of 4) first_two).0 ≡ ok tt) ↔ (
    ((first_two.spec == (state_of 4).schema) ≡ true)
    × (is_after first_two.states (state_of 4).iteration ≡ true))
push_state_iff_example = push_state_iff ℕ (state_of 4) first_two

pop_state-push_state_example :
    pop_state (push_state {Fault = ℕ} (state_of 6) first_two).1 ≡ (some (state_of 6), first_two)
pop_state-push_state_example = pop_state-push_state ℕ (state_of 6) first_two taken
