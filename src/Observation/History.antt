-- ===== src/Observation/History.antt =====
-- The records of a session of rust/src/observation/session.rs over a sequence of calls.
use scientific_workflow.Prelude.{
  ℕ, ◌<◌, ◌≡◌, refl, sym, subst, Bool, true, false, Option, none, some, ltb, ◌==◌, if◌then◌else◌,
  All, ok, err, List, [], ◌∷◌, ◌++◌, map, arith, Bool-cases, Result-cases, inl, inr, >>-eq-ok,
}
use scientific_workflow.Prelude.Texts.{Text}
use scientific_workflow.Observation.{
  BoundObservationStream, Observed, Encoder, EncodedObservation, ObservationSession,
  ObservationError, new_session, is_last, is_selected, selected, check_order, record_iteration,
  encode_selected, encoded, observe_final,
}
use scientific_workflow.Observation.Records.{
  iterations_of, iterations_of-append, IsDistinct, hits, encode_all-hits, Gives, selected-Gives,
  Gives-ext,
}

-- A stream's records: strictly growing, and `last` is the newest.
abbrev pub IsOrdered : Option ℕ → List ℕ → Type 0
IsOrdered none [] = Unit
IsOrdered none (n ∷ r) = ⊥
IsOrdered (some last) [] = ⊥
IsOrdered (some last) (n ∷ []) = last ≡ n
IsOrdered (some last) (n ∷ m ∷ r) = (last ≡ n) × (m < n) × IsOrdered (some m) (m ∷ r)

-- So it is for each stream, with the iterations `made` of the records under its name.
abbrev pub AllOrdered : (Text → List ℕ) → List BoundObservationStream → List (Option ℕ) → Type 0
AllOrdered made [] [] = Unit
AllOrdered made (s ∷ streams) (last ∷ lasts) =
    IsOrdered last (made s.name) × AllOrdered made streams lasts
AllOrdered made _ _ = ⊥

AllOrdered-ext :
    (f g : Text → List ℕ) (streams : List BoundObservationStream) (lasts : List (Option ℕ))
    → ((name : Text) → g name ≡ f name)
    → AllOrdered f streams lasts
    → AllOrdered g streams lasts
AllOrdered-ext f g [] [] same h = tt
AllOrdered-ext f g [] (last ∷ lasts) same h = absurd h
AllOrdered-ext f g (s ∷ streams) [] same h = absurd h
AllOrdered-ext f g (s ∷ streams) (last ∷ lasts) same (here, later) =
    (rw (same s.name) here, AllOrdered-ext f g streams lasts same later)

IsOrdered-add :
    (iteration : ℕ) (last : Option ℕ) (r : List ℕ)
    → ((previous : ℕ) → last ≡ some previous → previous < iteration)
    → IsOrdered last r
    → IsOrdered (some iteration) (iteration ∷ r)
IsOrdered-add iteration none [] newer h = refl
IsOrdered-add iteration none (n ∷ r) newer h = absurd h
IsOrdered-add iteration (some last) [] newer h = absurd h
IsOrdered-add iteration (some last) (n ∷ []) newer h =
    (refl, let lt = newer last refl in omega arith, refl)
IsOrdered-add iteration (some last) (n ∷ m ∷ r) newer (same, lt, h) =
    (refl, let le = newer last refl in omega arith, (refl, lt, h))

selected-newer :
    (terminal : Bool) (iteration : ℕ) (s : BoundObservationStream) (last : Option ℕ) (previous : ℕ)
    → is_selected terminal iteration s last ≡ true
    → ((n : ℕ) → last ≡ some n → ltb iteration n ≡ false)
    → last ≡ some previous
    → previous < iteration
unfolding is_selected
selected-newer terminal iteration s last previous chosen le e =
    let order = le previous e in ground arith

check-AllOrdered :
    {Fault : Type 0} (terminal : Bool) (iteration : ℕ) (given made : Text → List ℕ)
    (streams : List BoundObservationStream) (lasts : List (Option ℕ))
    → check_order {Fault = Fault} iteration streams lasts ≡ ok tt
    → Gives terminal iteration given streams lasts
    → AllOrdered made streams lasts
    → AllOrdered
        (λ n. given n ++ made n)
        streams
        (record_iteration terminal iteration streams lasts)
unfolding check_order record_iteration
check-AllOrdered terminal iteration given made [] [] e g h = tt
check-AllOrdered terminal iteration given made [] (last ∷ lasts) e g h = absurd h
check-AllOrdered terminal iteration given made (s ∷ streams) [] e g h = absurd h
check-AllOrdered {Fault = Fault} terminal iteration given made (s ∷ streams) (none ∷ lasts) e
      (gives, g) (here, later) =
    let rest =
      check-AllOrdered {Fault = Fault} terminal iteration given made streams lasts e g later in
    elim (Bool-cases (is_selected terminal iteration s none)) [
      | inr skipped ↦ rw (gives, skipped) (here, rest)
      | inl chosen ↦
          rw (gives, chosen)
            (IsOrdered-add iteration none (made s.name) (λ previous q. cc) here, rest)
    ]
check-AllOrdered {Fault = Fault} terminal iteration given made (s ∷ streams) (some last ∷ lasts) e
      (gives, g) (here, later) =
    let order : ltb iteration last ≡ false = ground arith in
    let rest =
      check-AllOrdered {Fault = Fault} terminal iteration given made streams lasts (ground arith) g
        later in
    elim (Bool-cases (is_selected terminal iteration s (some last))) [
      | inr skipped ↦ rw (gives, skipped) (here, rest)
      | inl chosen ↦
          rw (gives, chosen)
            (
              IsOrdered-add iteration (some last) (made s.name)
                  (λ previous q.
                    selected-newer terminal iteration s (some last) previous chosen
                      (λ n r. ground arith) q)
                  here,
              rest,
            )
    ]

abbrev pub is_newest : ℕ → List ℕ → Bool
is_newest iteration [] = false
is_newest iteration (n ∷ r) = n == iteration

-- Each stream gets, by the records of a final call at `iteration`, what its earlier ones lack: one of
-- that iteration, unless the newest earlier one is of it.
abbrev pub IsCompleted : ℕ → (given made : Text → List ℕ) → List BoundObservationStream → Type 0
IsCompleted iteration given made streams =
    All
      (λ (s : BoundObservationStream).
        given s.name ≡ (if is_newest iteration (made s.name) then [] else iteration ∷ []))
      streams

is_newest-is_last :
    (iteration : ℕ) (last : Option ℕ) (r : List ℕ)
    → IsOrdered last r
    → is_newest iteration r ≡ is_last iteration last
is_newest-is_last iteration none [] h = refl
is_newest-is_last iteration none (n ∷ r) h = absurd h
is_newest-is_last iteration (some last) [] h = absurd h
is_newest-is_last iteration (some last) (n ∷ []) h = rw h refl
is_newest-is_last iteration (some last) (n ∷ m ∷ r) (same, lt, h) = rw same refl

Gives-IsCompleted :
    (iteration : ℕ) (given made : Text → List ℕ) (streams : List BoundObservationStream)
    (lasts : List (Option ℕ))
    → Gives true iteration given streams lasts
    → AllOrdered made streams lasts
    → IsCompleted iteration given made streams
unfolding is_selected
Gives-IsCompleted iteration given made [] [] g h = tt
Gives-IsCompleted iteration given made [] (last ∷ lasts) g h = absurd h
Gives-IsCompleted iteration given made (s ∷ streams) [] g h = absurd h
Gives-IsCompleted iteration given made (s ∷ streams) (last ∷ lasts) (gives, g) (here, later) =
    let newest = is_newest-is_last iteration last (made s.name) here in
    let rest = Gives-IsCompleted iteration given made streams lasts g later in (ground arith, rest)

module _ (encoder : Encoder) where
  open encoder use {Payload, Fault, Bytes}

  -- A session after any calls, each of which may fail, with all records that they returned, those
  -- of the last call first.
  pub data Trace : ObservationSession → List (EncodedObservation Bytes) → Type 0 where
    opened :
        (schema : ℕ) (streams : List BoundObservationStream) → Trace (new_session schema streams) []
    observed :
        (terminal : Bool) (state : Observed Payload) (session : ObservationSession)
        (records returned : List (EncodedObservation Bytes))
        → (encode_selected encoder terminal state session).0 ≡ ok records
        → Trace session returned
        → Trace (encode_selected encoder terminal state session).1 (records ++ returned)
    refused :
        (terminal : Bool) (state : Observed Payload) (session : ObservationSession)
        (e : ObservationError Fault) (returned : List (EncodedObservation Bytes))
        → (encode_selected encoder terminal state session).0 ≡ err e
        → Trace session returned
        → Trace (encode_selected encoder terminal state session).1 returned

  new_session-AllOrdered :
      (streams : List BoundObservationStream)
      → AllOrdered (λ n. []) streams (map (λ s. none) streams)
  new_session-AllOrdered [] = tt
  new_session-AllOrdered (s ∷ streams) = (tt, new_session-AllOrdered streams)

  module _ (terminal : Bool) (state : Observed Payload) (session : ObservationSession) where
    abbrev marked : List (Option ℕ)
    marked = record_iteration terminal state.iteration session.streams session.last_iterations

    encode_selected-ok :
        (records : List (EncodedObservation Bytes))
        → (encode_selected encoder terminal state session).0 ≡ ok records
        → (encoded encoder terminal state session ≡ ok records)
          × ((encode_selected encoder terminal state session).1
              ≡ record session { last_iterations = marked })
    unfolding encode_selected
    encode_selected-ok records e = elim (Result-cases (encoded encoder terminal state session)) [
      | inl (given, fine) ↦ (ground arith, ground arith)
      | inr (error, failed) ↦ absurd (ground arith)
    ]

    encode_selected-err :
        (e : ObservationError Fault)
        → (encode_selected encoder terminal state session).0 ≡ err e
        → (encode_selected encoder terminal state session).1 ≡ session
    unfolding encode_selected
    encode_selected-err e failed = elim (Result-cases (encoded encoder terminal state session)) [
      | inl (given, fine) ↦ absurd (ground arith)
      | inr (error, same) ↦ ground arith
    ]

    encode_selected-streams :
        (encode_selected encoder terminal state session).1.streams ≡ session.streams
    unfolding encode_selected
    encode_selected-streams = ground arith

    encoded-order :
        (records : List (EncodedObservation Bytes))
        → encoded encoder terminal state session ≡ ok records
        → check_order {Fault = Fault} state.iteration session.streams session.last_iterations
          ≡ ok tt
    unfolding encoded
    encoded-order records e =
        (>>-eq-ok (check_order state.iteration session.streams session.last_iterations) _ e).0

    encoded-Gives :
        (records : List (EncodedObservation Bytes))
        → IsDistinct session.streams
        → encoded encoder terminal state session ≡ ok records
        → Gives terminal state.iteration
            (λ n. iterations_of n records)
            session.streams
            session.last_iterations
    unfolding encoded
    encoded-Gives records d e =
        let (order, rest) =
          >>-eq-ok (check_order state.iteration session.streams session.last_iterations) _ e in
        let (schema, written) = >>-eq-ok _ _ rest in
        let chosen = selected terminal state.iteration session.streams session.last_iterations in
        Gives-ext terminal state.iteration (λ n. hits state.iteration n chosen)
          (λ n. iterations_of n records) session.streams session.last_iterations
          (λ n. encode_all-hits encoder state n chosen records written)
          (selected-Gives terminal state.iteration session.streams session.last_iterations d)

    encode_selected-AllOrdered :
        (records returned : List (EncodedObservation Bytes))
        → IsDistinct session.streams
        → (encode_selected encoder terminal state session).0 ≡ ok records
        → AllOrdered (λ n. iterations_of n returned) session.streams session.last_iterations
        → AllOrdered (λ n. iterations_of n (records ++ returned)) session.streams marked
    encode_selected-AllOrdered records returned d e h =
        let (fine, after) = encode_selected-ok records e in
        AllOrdered-ext (λ n. iterations_of n records ++ iterations_of n returned) _ session.streams
          marked (λ n. iterations_of-append n records returned)
          (check-AllOrdered {Fault = Fault} terminal state.iteration (λ n. iterations_of n records)
            (λ n. iterations_of n returned) session.streams session.last_iterations
            (encoded-order records fine) (encoded-Gives records d fine) h)

  -- After any calls on streams of distinct names, failed calls too, the records that were returned
  -- under each stream's name are of strictly growing iterations, none twice, and the session
  -- remembers the newest.
  pub Trace-AllOrdered :
      (session : ObservationSession) (returned : List (EncodedObservation Bytes))
      → Trace session returned
      → IsDistinct session.streams
      → AllOrdered (λ n. iterations_of n returned) session.streams session.last_iterations
  unfolding new_session
  Trace-AllOrdered session returned (opened schema streams) d = new_session-AllOrdered streams
  Trace-AllOrdered session returned (observed terminal state before records kept e trace) d =
      let distinct = subst IsDistinct (encode_selected-streams terminal state before) d in
      let (fine, after) = encode_selected-ok terminal state before records e in
      subst
        (λ (t : ObservationSession).
          AllOrdered (λ n. iterations_of n (records ++ kept)) t.streams t.last_iterations)
        (sym after)
        (encode_selected-AllOrdered terminal state before records kept distinct e
          (Trace-AllOrdered before kept trace distinct))
  Trace-AllOrdered session returned (refused terminal state before e kept failed trace) d =
      let distinct = subst IsDistinct (encode_selected-streams terminal state before) d in
      subst
        (λ (t : ObservationSession).
          AllOrdered (λ n. iterations_of n kept) t.streams t.last_iterations)
        (sym (encode_selected-err terminal state before e failed))
        (Trace-AllOrdered before kept trace distinct)

  -- A final observation that succeeds, after any calls on streams of distinct names, returns for
  -- every stream, whatever its sampling, exactly one record of the final iteration, and none for
  -- those whose newest record is already of it.
  pub observe_final-IsCompleted :
      (state : Observed Payload) (session : ObservationSession)
      (records returned : List (EncodedObservation Bytes))
      → Trace session returned
      → IsDistinct session.streams
      → (observe_final encoder state session).0 ≡ ok records
      → IsCompleted state.iteration
          (λ n. iterations_of n records)
          (λ n. iterations_of n returned)
          session.streams
  unfolding observe_final
  observe_final-IsCompleted state session records returned trace d e =
      Gives-IsCompleted state.iteration _ _ session.streams session.last_iterations
        (encoded-Gives true state session records d
          (encode_selected-ok true state session records e).0)
        (Trace-AllOrdered session returned trace d)
