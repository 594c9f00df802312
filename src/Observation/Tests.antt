-- ===== src/Observation/Tests.antt =====
-- A session with a stream for every second iteration and one for the first and the last.
use scientific_workflow.Prelude.{ℕ, ◌≡◌, refl, false, ok, List, [], ◌∷◌}
use scientific_workflow.Prelude.Texts.{text}
use scientific_workflow.Observation.{
  iterations, initial_and_final, BoundObservationStream, Observed, Encoder, ObservationSession,
  EncodedObservation, new_session, is_selected, includes, every_iterations, check_order, selected,
  record_iteration, encode, encode_all, encoded, encode_selected, observe_final,
}
use scientific_workflow.Observation.Records.{iterations_of}
use scientific_workflow.Observation.History.{
  Trace, opened, observed, AllOrdered, Trace-AllOrdered, IsCompleted, observe_final-IsCompleted,
}

abbrev plain : Encoder
plain = record { Payload = ℕ; Fault = ℕ; Bytes = ℕ; to_vec = λ state stream. ok state.payload }

abbrev two_streams : List BoundObservationStream
two_streams =
    record { name = text "even"; sampling = iterations 2 }
    ∷ record { name = text "ends"; sampling = initial_and_final }
    ∷ []

abbrev at_iteration : ℕ → Observed ℕ
at_iteration n = record { iteration = n; schema = 7; payload = 0 }

abbrev fresh : ObservationSession
fresh = new_session 7 two_streams

abbrev begun : ObservationSession
begun = (encode_selected plain false (at_iteration 0) fresh).1

abbrev even_at : ℕ → EncodedObservation ℕ
even_at n = record { stream = text "even"; iteration = n; bytes = 0 }

abbrev ends_at : ℕ → EncodedObservation ℕ
ends_at n = record { stream = text "ends"; iteration = n; bytes = 0 }

abbrev begun_records : List (EncodedObservation ℕ)
begun_records = even_at 0 ∷ ends_at 0 ∷ []

opened_all : Unit {0}
unfolding observe_final encode_selected encoded check_order selected encode encode_all
    record_iteration new_session is_selected includes every_iterations
opened_all = tt

begun-Trace : Trace plain begun begun_records
unfolding opened_all
begun-Trace = observed false (at_iteration 0) fresh begun_records [] refl (opened 7 two_streams)

-- The second call at an iteration returns nothing.
again : (encode_selected plain false (at_iteration 0) begun).0 ≡ ok []
unfolding opened_all
again = refl

Trace-AllOrdered_example :
    AllOrdered (λ n. iterations_of n begun_records) begun.streams begun.last_iterations
unfolding new_session encode_selected
Trace-AllOrdered_example =
    Trace-AllOrdered plain begun begun_records begun-Trace ((refl, tt), (tt, tt))

-- At the final iteration 3 both streams record; at 0 neither would again.
observe_final-IsCompleted_example :
    IsCompleted 3
      (λ n. iterations_of n (even_at 3 ∷ ends_at 3 ∷ []))
      (λ n. iterations_of n begun_records)
      begun.streams
unfolding opened_all
observe_final-IsCompleted_example =
    observe_final-IsCompleted plain (at_iteration 3) begun (even_at 3 ∷ ends_at 3 ∷ [])
      begun_records begun-Trace ((refl, tt), (tt, tt)) refl
