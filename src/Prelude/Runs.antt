-- ===== src/Prelude/Runs.antt =====
-- Programs that call on their surroundings: the trace of the calls so far, the newest first, is
-- passed on, and a call that fails ends the program.
use mathlib.Core.Path.{◌≡◌, sym, ap, subst}
use mathlib.Core.List.{List}
use mathlib.Core.Logic.{inl, inr}
use native.Mathlib.Omega.{arith}
use scientific_workflow.Prelude.Results.{Result, ok, err, Result-cases}

abbrev pub Run : Type 0 → Type 0 → Type 0 → Type 0
Run Event E A = List Event → Result E A × List Event

module _ {Event E : Type 0} where
  infixl 5 ◌>>=◌ ◌>>◌
  abbrev pub ◌>>=◌ : {A B : Type 0} → Run Event E A → (A → Run Event E B) → Run Event E B
  ◌>>=◌ m k t = let (r, u) = m t in elim r [ ok a ↦ k a u | err e ↦ (err e, u) ]

  abbrev pub ◌>>◌ : {B : Type 0} → Run Event E (Unit {0}) → Run Event E B → Run Event E B
  m >> k = m >>= λ _. k

  abbrev pub pure : {A : Type 0} → A → Run Event E A
  pure a t = (ok a, t)

  abbrev pub fail : {A : Type 0} → E → Run Event E A
  fail e t = (err e, t)

  -- The run goes on with `a` and the trace `u`.
  abbrev pub Yields : {A : Type 0} → Run Event E A → List Event → A → List Event → Type 0
  Yields m t a u = m t ≡ (ok a, u)

  pub >>=-Yields :
      {A B : Type 0} (m : Run Event E A) (k : A → Run Event E B) (t : List Event) (b : B)
      (u : List Event)
      → Yields (m >>= k) t b u
      → (a : A) × (v : List Event) × Yields m t a v × Yields (k a) v b u
  >>=-Yields {A = A} {B = B} m k t b u h =
      let step : Result E A → Result E B × List Event =
        λ r. elim r [ ok a ↦ k a (m t).1 | err e ↦ (err e, (m t).1) ] in
      let result : Result E B × List Event = (ok b, u) in
      elim (Result-cases (m t).0) [
        | inl (a, e) ↦ (
          a,
          (m t).1,
          ap (λ (r : Result E A). let p : Result E A × List Event = (r, (m t).1) in p) e,
          subst (λ r. step r ≡ result) e h,
        )
        | inr (e, failed) ↦
            let stopped : step (err e) ≡ result = subst (λ r. step r ≡ result) failed h in
            absurd (ground arith)
      ]

  pub pure-Yields :
      {A : Type 0} (a : A) (t : List Event) (b : A) (u : List Event)
      → Yields (pure a) t b u
      → (b ≡ a) × (u ≡ t)
  pure-Yields {A = A} a t b u h =
      let kept : Result E A → A = λ r. elim r [ ok c ↦ c | err e ↦ a ] in
      (
        ap (λ (p : Result E A × List Event). kept p.0) (sym h),
        ap (λ (p : Result E A × List Event). p.1) (sym h),
      )
