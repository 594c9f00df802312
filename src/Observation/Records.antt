-- ===== src/Observation/Records.antt =====
-- Which iterations the records that rust/src/observation/session.rs returns are of, stream by stream.
use scientific_workflow.Prelude.{
  ℕ, ◌≡◌, refl, sym, ◌∙◌, ap, Bool, false, Option, if◌then◌else◌, ok, List, [], ◌∷◌, ◌++◌, All,
  arith, Bool-cases, inl, inr, >>=-eq-ok, ok-injective,
}
use scientific_workflow.Prelude.Texts.{Text, text_eq, text_eq_refl, text_eq_comm}
use scientific_workflow.Observation.{
  BoundObservationStream, Observed, Encoder, EncodedObservation, is_selected, selected, encode,
  encode_all,
}

-- The iterations of the records that bear one stream's name.
abbrev pub iterations_of : {Bytes : Type 0} → Text → List (EncodedObservation Bytes) → List ℕ
iterations_of name [] = []
iterations_of name (r ∷ records) =
    let rest = iterations_of name records in
    if text_eq r.stream name then r.iteration ∷ rest else rest

pub iterations_of-append :
    {Bytes : Type 0} (name : Text) (xs ys : List (EncodedObservation Bytes))
    → iterations_of name (xs ++ ys) ≡ iterations_of name xs ++ iterations_of name ys
iterations_of-append name [] ys = refl
iterations_of-append name (r ∷ xs) ys = elim (Bool-cases (text_eq r.stream name)) [
  | inl hit ↦ rw hit (ap (λ rest. r.iteration ∷ rest) (iterations_of-append name xs ys))
  | inr miss ↦ rw miss (iterations_of-append name xs ys)
]

-- No other stream has the name.
abbrev IsAbsent : Text → List BoundObservationStream → Type 0
IsAbsent name streams = All (λ (s : BoundObservationStream). text_eq name s.name ≡ false) streams

-- No two streams have the same name: `ObservationPlan::streams` refuses a plan in which two do.
abbrev pub IsDistinct : List BoundObservationStream → Type 0
IsDistinct [] = Unit
IsDistinct (s ∷ streams) = IsAbsent s.name streams × IsDistinct streams

-- The iteration, once for each stream with the name.
abbrev pub hits : ℕ → Text → List BoundObservationStream → List ℕ
hits iteration name [] = []
hits iteration name (s ∷ streams) =
    let rest = hits iteration name streams in if text_eq s.name name then iteration ∷ rest else rest

module _ (encoder : Encoder) where
  open encoder use {Payload, Fault, Bytes}

  encode_cases :
      (state : Observed Payload) (s : BoundObservationStream) (r : EncodedObservation Bytes)
      → encode encoder state s ≡ ok r
      → (r.stream ≡ s.name) × (r.iteration ≡ state.iteration)
  unfolding encode
  encode_cases state s r e =
      let (bytes, written, same) = >>=-eq-ok (encoder.to_vec state s) _ e in
      (ground arith, ground arith)

  cons-hits :
      (iteration : ℕ) (name : Text) (s : BoundObservationStream) (first : EncodedObservation Bytes)
      (rest : List (EncodedObservation Bytes)) (streams : List BoundObservationStream)
      → first.stream ≡ s.name
      → first.iteration ≡ iteration
      → iterations_of name rest ≡ hits iteration name streams
      → iterations_of name (first ∷ rest) ≡ hits iteration name (s ∷ streams)
  cons-hits iteration name s first rest streams named timed tail = rw (named, timed, tail) refl

  pub encode_all-hits :
      (state : Observed Payload) (name : Text) (streams : List BoundObservationStream)
      (records : List (EncodedObservation Bytes))
      → encode_all encoder state streams ≡ ok records
      → iterations_of name records ≡ hits state.iteration name streams
  unfolding encode_all
  encode_all-hits state name [] [] e = refl
  encode_all-hits state name [] (r ∷ records) e = cc
  encode_all-hits state name (s ∷ streams) records e =
      let (first, here, more) = >>=-eq-ok (encode encoder state s) _ e in
      let (rest, later, same) = >>=-eq-ok (encode_all encoder state streams) _ more in
      let (named, timed) = encode_cases state s first here in
      let tail = encode_all-hits state name streams rest later in
      ap (iterations_of name) (sym (ok-injective same))
      ∙ cons-hits state.iteration name s first rest streams named timed tail

-- What one call gives each stream: the iteration once if it is selected, else nothing.
abbrev pub Gives :
    Bool → ℕ → (Text → List ℕ) → List BoundObservationStream → List (Option ℕ) → Type 0
Gives terminal iteration given [] lasts = Unit
Gives terminal iteration given (s ∷ streams) [] = Unit
Gives terminal iteration given (s ∷ streams) (last ∷ lasts) =
    (given s.name ≡ (if is_selected terminal iteration s last then iteration ∷ [] else []))
    × Gives terminal iteration given streams lasts

module _ (terminal : Bool) (iteration : ℕ) where
  hits-absent :
      (name : Text) (streams : List BoundObservationStream) (lasts : List (Option ℕ))
      → IsAbsent name streams
      → hits iteration name (selected terminal iteration streams lasts) ≡ []
  unfolding selected
  hits-absent name [] lasts h = refl
  hits-absent name (s ∷ streams) [] h = refl
  hits-absent name (s ∷ streams) (last ∷ lasts) h =
      let rest = hits-absent name streams lasts h.1 in
      let other : text_eq s.name name ≡ false = text_eq_comm s.name name ∙ h.0 in
      elim (Bool-cases (is_selected terminal iteration s last)) [
        | inl chosen ↦ rw (chosen, other) rest
        | inr skipped ↦ rw skipped rest
      ]

  Gives-cons :
      (s : BoundObservationStream) (chosen streams : List BoundObservationStream)
      (lasts : List (Option ℕ))
      → IsAbsent s.name streams
      → Gives terminal iteration (λ n. hits iteration n chosen) streams lasts
      → Gives terminal iteration (λ n. hits iteration n (s ∷ chosen)) streams lasts
  Gives-cons s chosen [] lasts h g = tt
  Gives-cons s chosen (u ∷ streams) [] h g = tt
  Gives-cons s chosen (u ∷ streams) (last ∷ lasts) h g =
      (rw h.0 g.0, Gives-cons s chosen streams lasts h.1 g.1)

  pub Gives-ext :
      (f g : Text → List ℕ) (streams : List BoundObservationStream) (lasts : List (Option ℕ))
      → ((name : Text) → g name ≡ f name)
      → Gives terminal iteration f streams lasts
      → Gives terminal iteration g streams lasts
  Gives-ext f g [] lasts same h = tt
  Gives-ext f g (s ∷ streams) [] same h = tt
  Gives-ext f g (s ∷ streams) (last ∷ lasts) same (here, later) =
      (same s.name ∙ here, Gives-ext f g streams lasts same later)

  pub selected-Gives :
      (streams : List BoundObservationStream) (lasts : List (Option ℕ))
      → IsDistinct streams
      → Gives terminal iteration
          (λ n. hits iteration n (selected terminal iteration streams lasts))
          streams
          lasts
  unfolding selected
  selected-Gives [] lasts d = tt
  selected-Gives (s ∷ streams) [] d = tt
  selected-Gives (s ∷ streams) (last ∷ lasts) d =
      let none_here = hits-absent s.name streams lasts d.0 in
      let later = selected-Gives streams lasts d.1 in
      let rest = selected terminal iteration streams lasts in
      elim (Bool-cases (is_selected terminal iteration s last)) [
        | inl chosen ↦
            let whole : selected terminal iteration (s ∷ streams) (last ∷ lasts) ≡ s ∷ rest =
              rw chosen refl in
            (
              ap (hits iteration s.name) whole ∙ rw (chosen, text_eq_refl s.name, none_here) refl,
              Gives-ext _ _ streams lasts (λ n. ap (hits iteration n) whole)
                  (Gives-cons s rest streams lasts d.0 later),
            )
        | inr skipped ↦
            let whole : selected terminal iteration (s ∷ streams) (last ∷ lasts) ≡ rest =
              rw skipped refl in
            (
              ap (hits iteration s.name) whole ∙ rw (skipped, none_here) refl,
              Gives-ext _ _ streams lasts (λ n. ap (hits iteration n) whole) later,
            )
      ]
