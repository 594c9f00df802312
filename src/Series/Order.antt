-- ===== src/Series/Order.antt =====
-- The order of the states in a series of rust/src/state/series.rs.
use scientific_workflow.Prelude.{
  ℕ, zero, suc, ◌<◌, ◌≡◌, refl, sym, subst, ap, ◌∙◌, ◌↔◌, ◌⊎◌, Bool, true, Option, none, some, leb,
  ltb, ◌==◌, Result, ok, err, List, [], ◌∷◌, ◌++◌, arith, Bool-cases, Option-cases, Result-cases,
  inl, inr,
}
use scientific_workflow.Series.{
  SystemState, StateSeries, last_state, push_state, pop_last, pop_state, clear_states, write_at,
  payload_mut_at,
}

module _ {Payload : Type 0} where
  -- States of schema `spec` in strictly growing iterations.
  abbrev pub IsGrowing : ℕ → List (SystemState Payload) → Type 0
  IsGrowing spec [] = Unit
  IsGrowing spec (s ∷ []) = spec ≡ s.schema
  IsGrowing spec (s ∷ t ∷ states) =
      (spec ≡ s.schema) × (s.iteration < t.iteration) × IsGrowing spec (t ∷ states)

  abbrev pub is_after : List (SystemState Payload) → ℕ → Bool
  is_after states n = elim (last_state states) [ none ↦ true | some s ↦ ltb s.iteration n ]

  append-IsGrowing :
      (spec : ℕ) (states : List (SystemState Payload)) (s : SystemState Payload)
      → IsGrowing spec states
      → spec ≡ s.schema
      → is_after states s.iteration ≡ true
      → IsGrowing spec (states ++ s ∷ [])
  unfolding last_state
  append-IsGrowing spec [] s h same after = same
  append-IsGrowing spec (a ∷ []) s h same after = (h, ground arith, same)
  append-IsGrowing spec (a ∷ b ∷ []) s (x, y, z) same after = (x, y, (z, ground arith, same))
  append-IsGrowing spec (a ∷ b ∷ c ∷ states) s (x, y, z) same after =
      (x, y, append-IsGrowing spec (b ∷ c ∷ states) s z same after)

  pop_last-IsGrowing :
      (spec : ℕ) (states : List (SystemState Payload))
      → IsGrowing spec states
      → IsGrowing spec (pop_last states).0
  unfolding pop_last
  pop_last-IsGrowing spec [] h = tt
  pop_last-IsGrowing spec (a ∷ []) h = tt
  pop_last-IsGrowing spec (a ∷ b ∷ []) (x, y, z) = x
  pop_last-IsGrowing spec (a ∷ b ∷ c ∷ states) (x, y, z) =
      (x, y, pop_last-IsGrowing spec (b ∷ c ∷ states) z)

  pop_last-append :
      (states : List (SystemState Payload)) (s : SystemState Payload)
      → pop_last (states ++ s ∷ []) ≡ (states, some s)
  unfolding pop_last
  pop_last-append [] s = refl
  pop_last-append (a ∷ []) s = refl
  pop_last-append (a ∷ b ∷ states) s =
      let rest = pop_last-append (b ∷ states) s in
      ap (λ (out : List (SystemState Payload) × Option (SystemState Payload)). (a ∷ out.0, out.1))
        rest

  abbrev first_iteration : List (SystemState Payload) → Option ℕ
  first_iteration [] = none
  first_iteration (s ∷ states) = some s.iteration

  tail-IsGrowing :
      (spec : ℕ) (s : SystemState Payload) (states : List (SystemState Payload))
      → IsGrowing spec (s ∷ states)
      → IsGrowing spec states
  tail-IsGrowing spec s [] h = tt
  tail-IsGrowing spec s (t ∷ states) h = h.2

  cons-IsGrowing :
      (spec : ℕ) (s : SystemState Payload) (states out : List (SystemState Payload))
      → IsGrowing spec (s ∷ states)
      → first_iteration out ≡ first_iteration states
      → IsGrowing spec out
      → IsGrowing spec (s ∷ out)
  cons-IsGrowing spec s [] [] h same rest = h
  cons-IsGrowing spec s [] (u ∷ out) h same rest = absurd (ground arith)
  cons-IsGrowing spec s (t ∷ states) [] h same rest = absurd (ground arith)
  cons-IsGrowing spec s (t ∷ states) (u ∷ out) (x, y, z) same rest = (x, ground arith, rest)

  replace-IsGrowing :
      (spec : ℕ) (s : SystemState Payload) (p : Payload) (states : List (SystemState Payload))
      → IsGrowing spec (s ∷ states)
      → IsGrowing spec (record s { payload = p } ∷ states)
  replace-IsGrowing spec s p [] h = h
  replace-IsGrowing spec s p (t ∷ states) h = h

module _ {Payload Fault : Type 0} where
  write_at-IsGrowing :
      (change : Payload → Result Fault Payload) (spec position : ℕ)
      (states out : List (SystemState Payload))
      → write_at change position states ≡ some (ok out)
      → IsGrowing spec states
      → IsGrowing spec out × (first_iteration out ≡ first_iteration states)
  unfolding write_at
  write_at-IsGrowing change spec position [] out e h = absurd (ground arith)
  write_at-IsGrowing change spec zero (s ∷ states) out e h =
      elim (Result-cases (change s.payload)) [
        | inr (f, failed) ↦ absurd (ground arith)
        | inl (p, done) ↦
            let same : record s { payload = p } ∷ states ≡ out = ground arith in
            subst (λ o. IsGrowing spec o × (first_iteration o ≡ some s.iteration)) same
              (replace-IsGrowing spec s p states h, refl)
      ]
  write_at-IsGrowing change spec (suc position) (s ∷ states) out e h =
      elim (Option-cases (write_at change position states)) [
        | inl missing ↦ absurd (ground arith)
        | inr (r, there) ↦ elim (Result-cases r) [
          | inr (f, failed) ↦ absurd (ground arith)
          | inl (rest, done) ↦
              let same : s ∷ rest ≡ out = ground arith in
              let (grown, head) =
                write_at-IsGrowing change spec position states rest (there ∙ ap some done)
                  (tail-IsGrowing spec s states h) in
              subst (λ o. IsGrowing spec o × (first_iteration o ≡ some s.iteration)) same
                (cons-IsGrowing spec s states rest h head grown, refl)
        ]
      ]

abbrev pub IsValid : {Payload : Type 0} → StateSeries Payload → Type 0
IsValid series = IsGrowing series.spec series.states

module _ {Payload : Type 0} (Fault : Type 0) where
  -- The calls that change a series, failed ones too.
  pub data Step : StateSeries Payload → StateSeries Payload → Type 0 where
    pushes :
        (state : SystemState Payload) (series : StateSeries Payload)
        → Step series (push_state {Fault = Fault} state series).1
    pops : (series : StateSeries Payload) → Step series (pop_state series).1
    clears : (series : StateSeries Payload) → Step series (clear_states series)
    writes :
        (change : Payload → Result Fault Payload) (position : ℕ) (series : StateSeries Payload)
        → Step series (payload_mut_at change position series).1

  -- A state is taken exactly when it shares the series' schema instance and comes after the last
  -- state.
  pub push_state_iff :
      (state : SystemState Payload) (series : StateSeries Payload)
      → ((push_state {Fault = Fault} state series).0 ≡ ok tt)
        ↔ (((series.spec == state.schema) ≡ true) × (is_after series.states state.iteration ≡ true))
  unfolding push_state
  push_state_iff state series = elim (Option-cases (last_state series.states)) [
    | inl e ↦ (λ q. (ground arith, ground arith), λ (a, b). ground arith)
    | inr (s, e) ↦ (λ q. (ground arith, ground arith), λ (a, b). ground arith)
  ]

  -- The series that a push leaves is one state longer if the push succeeds, and else the same.
  push_state-left :
      (state : SystemState Payload) (series : StateSeries Payload)
      → ((push_state {Fault = Fault} state series).0 ≡ ok tt)
          × ((push_state {Fault = Fault} state series).1
              ≡ record series { states = series.states ++ state ∷ [] })
        ⊎ ((push_state {Fault = Fault} state series).1 ≡ series)
  unfolding push_state
  push_state-left state series = elim (Option-cases (last_state series.states)) [
    | inl e ↦ elim (Bool-cases (series.spec == state.schema)) [
      | inl same ↦ inl (ground arith, ground arith)
      | inr other ↦ inr (ground arith)
    ]
    | inr (s, e) ↦ elim (Bool-cases (series.spec == state.schema)) [
      | inr other ↦ inr (ground arith)
      | inl same ↦ elim (Bool-cases (leb state.iteration s.iteration)) [
        | inl back ↦ inr (ground arith)
        | inr later ↦ inl (ground arith, ground arith)
      ]
    ]
  ]

  push_state-ok :
      (state : SystemState Payload) (series : StateSeries Payload)
      → (push_state {Fault = Fault} state series).0 ≡ ok tt
      → (push_state {Fault = Fault} state series).1
        ≡ record series { states = series.states ++ state ∷ [] }
  unfolding push_state
  push_state-ok state series e = ground arith

  payload_mut_at-left :
      (change : Payload → Result Fault Payload) (position : ℕ) (series : StateSeries Payload)
      → ((out : List (SystemState Payload)) × (write_at change position series.states
            ≡ some (ok out))
          × ((payload_mut_at change position series).1 ≡ record series { states = out }))
        ⊎ ((payload_mut_at change position series).1 ≡ series)
  unfolding payload_mut_at
  payload_mut_at-left change position series =
      elim (Option-cases (write_at change position series.states)) [
        | inl missing ↦ inr (ground arith)
        | inr (err f, there) ↦ inr (ground arith)
        | inr (ok out, there) ↦ inl (out, there, ground arith)
      ]

  payload_mut_at-IsValid :
      (change : Payload → Result Fault Payload) (position : ℕ) (series : StateSeries Payload)
      → IsValid series
      → IsValid (payload_mut_at change position series).1
  payload_mut_at-IsValid change position series valid =
      elim (payload_mut_at-left change position series) [
        | inr same ↦ subst (λ (t : StateSeries Payload). IsValid t) (sym same) valid
        | inl (out, there, left) ↦
            subst (λ (t : StateSeries Payload). IsValid t) (sym left)
              ((write_at-IsGrowing change series.spec position series.states out there valid).0)
      ]

  -- Every call, also one that fails, keeps a series in strictly growing iterations and one schema
  -- instance.
  pub Step-IsValid :
      (series next : StateSeries Payload) → Step series next → IsValid series → IsValid next
  unfolding pop_state clear_states
  Step-IsValid series next (pushes state _) valid = elim (push_state-left state series) [
    | inr same ↦ subst (λ (t : StateSeries Payload). IsValid t) (sym same) valid
    | inl (taken, longer) ↦
        let (shared, after) = (push_state_iff state series).0 taken in
        subst (λ (t : StateSeries Payload). IsValid t) (sym longer)
          (append-IsGrowing series.spec series.states state valid (grind arith) after)
  ]
  Step-IsValid series next (pops _) valid = pop_last-IsGrowing series.spec series.states valid
  Step-IsValid series next (clears _) valid = tt
  Step-IsValid series next (writes change position _) valid =
      payload_mut_at-IsValid change position series valid

  -- After a push that succeeds, a pop gives the state back and leaves the series as it was.
  pub pop_state-push_state :
      (state : SystemState Payload) (series : StateSeries Payload)
      → (push_state {Fault = Fault} state series).0 ≡ ok tt
      → pop_state (push_state {Fault = Fault} state series).1 ≡ (some state, series)
  unfolding pop_state
  pop_state-push_state state series e =
      let popped = pop_last-append series.states state in
      subst (λ (t : StateSeries Payload). pop_state t ≡ (some state, series))
        (sym (push_state-ok state series e))
        (ap
          (λ (out : List (SystemState Payload) × Option (SystemState Payload)).
            (out.1, record series { states = out.0 }))
          popped)
