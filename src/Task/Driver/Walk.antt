-- ===== src/Task/Driver/Walk.antt =====
-- The two loops over members of rust/src/task/execution.rs: what the calls make of each member.
use scientific_workflow.Prelude.{
  ℕ, ◌+◌, ◌<◌, ◌≤◌, ◌≡◌, ◌≢◌, refl, sym, subst, ap, ◌∙◌, Bool, false, ◌||◌, is_some, ltb, ◌==◌,
  Result, ok, err, List, [], ◌∷◌, arith, Bool-cases, Result-cases, inl, inr,
}
use scientific_workflow.Task.Execution.{
  MemberView, ExecutionUnit, Trace, Host, TaskError, panicked, contract, iteration_regressed,
  completed_member_advanced, completion_reversed, MemberSnapshot, required_member,
}
use scientific_workflow.Task.Driver.{Run, ◌>>◌, begin_member, begin_members, observe_member, walk}
use scientific_workflow.Task.Driver.Lifecycle.{
  absent, at, status, is_broken, IsSound, phase, phase-open, phase-same, SameBut, begin_member-same,
  begin_member-status, begin_member-phase, begin_member-ne-panicked, observe_member-same,
  observe_member-status, observe_member-phase, observe_member-ne-panicked,
}

-- Each member's status is that of its snapshot.
abbrev pub IsTracked : {Reason : Type 0} → ℕ → List MemberSnapshot → Trace Reason → Type 0
IsTracked i [] t = Unit
IsTracked i (m ∷ members) t = (status i t ≡ phase m) × IsTracked (i + 1) members t

pub IsTracked-later :
    {Reason : Type 0} (i : ℕ) (members : List MemberSnapshot) (t u : Trace Reason)
    → ((j : ℕ) → i ≤ j → status j u ≡ status j t)
    → IsTracked i members t
    → IsTracked i members u
IsTracked-later i [] t u same h = tt
IsTracked-later i (m ∷ members) t u same h = (
  same i (omega arith) ∙ h.0,
  IsTracked-later (i + 1) members t u (λ j le. same j (omega arith)) h.1,
)

abbrev pub IsPaired : List MemberSnapshot → List MemberSnapshot → Type 0
IsPaired [] [] = Unit
IsPaired [] (n ∷ next) = ⊥
IsPaired (p ∷ previous) [] = ⊥
IsPaired (p ∷ previous) (n ∷ next) = IsPaired previous next

module _ (unit : ExecutionUnit) (host : Host unit.Fault unit.Reason) where
  open unit use {U, Fault, Reason}

  -- The snapshots were taken of the members that `u` exposes now.
  abbrev pub IsSeen : U → ℕ → List MemberSnapshot → Type 0
  IsSeen u i [] = Unit
  IsSeen u i (n ∷ next) =
      ((view : MemberView Reason) × (required_member unit u i ≡ ok view)
        × (view.iteration ≡ n.iteration)
        × (is_some view.completion ≡ n.complete))
      × IsSeen u (i + 1) next

  -- What a loop over members from `i` on leaves.
  abbrev pub IsWalked :
      {A : Type 0}
      → ℕ
      → List MemberSnapshot
      → Trace Reason
      → Result (TaskError Fault) A × Trace Reason
      → Type 0
  IsWalked {A} i next t (r, u) =
      IsSound u
      × ((j : ℕ) → j < i → status j u ≡ status j t)
      × ((a : A) → r ≡ ok a → IsTracked i next u)
      × (r ≢ err panicked)

  IsWalked-cons :
      {A : Type 0} (i : ℕ) (n : MemberSnapshot) (next : List MemberSnapshot) (t u : Trace Reason)
      (out : Result (TaskError Fault) A × Trace Reason)
      → SameBut i t u
      → status i u ≡ phase n
      → IsWalked (i + 1) next u out
      → IsWalked i (n ∷ next) t out
  IsWalked-cons i n next t u out same here (sound, before, tracked, safe) = (
    sound,
    λ j h. before j (omega arith) ∙ same j (grind arith),
    λ a e. (before i (omega arith) ∙ here, tracked a e),
    safe,
  )

  IsWalked-bind :
      {A : Type 0} (i : ℕ) (next : List MemberSnapshot) (t : Trace Reason)
      (m : Run Fault Reason (Unit {0})) (k : Run Fault Reason A)
      → ((f : TaskError Fault) → (m t).0 ≡ err f → IsWalked {A = A} i next t (err f, (m t).1))
      → ((x : Unit {0}) → (m t).0 ≡ ok x → IsWalked i next t (k (m t).1))
      → IsWalked i next t ((m >> k) t)
  IsWalked-bind {A = A} i next t m k failed done_ = elim (Result-cases (m t).0) [
    | inr (f, e) ↦
        subst
          (λ r. IsWalked {A = A} i next t (elim r [ ok x ↦ k (m t).1 | err g ↦ (err g, (m t).1) ]))
          (sym e) (failed f e)
    | inl (x, e) ↦
        subst
          (λ r. IsWalked {A = A} i next t (elim r [ ok x ↦ k (m t).1 | err g ↦ (err g, (m t).1) ]))
          (sym e) (done_ x e)
  ]

  -- One member and then the rest, in front of a sound trace.
  IsWalked-member :
      {A : Type 0} (i : ℕ) (n : MemberSnapshot) (next : List MemberSnapshot) (t : Trace Reason)
      (m : Run Fault Reason (Unit {0})) (k : Run Fault Reason A)
      → SameBut i t (m t).1
      → IsSound t
      → is_broken (status i (m t).1) ≡ false
      → ((x : Unit {0}) → (m t).0 ≡ ok x → status i (m t).1 ≡ phase n)
      → (m t).0 ≢ err panicked
      → (IsSound (m t).1 → IsWalked (i + 1) next (m t).1 (k (m t).1))
      → IsWalked i (n ∷ next) t ((m >> k) t)
  IsWalked-member i n next t m k others sound whole_ reached safe rest =
      let out : Trace Reason = (m t).1 in
      let sound_out : IsSound out = λ j. elim (Bool-cases (i == j)) [
        | inl same_ ↦ subst (λ l. is_broken (status l out) ≡ false) (grind arith) whole_
        | inr other ↦ ap is_broken (others j other) ∙ sound j
      ] in
      IsWalked-bind i (n ∷ next) t m k
        (λ f q. (
          sound_out,
          λ j h. others j (grind arith),
          λ a r. cc,
          λ r. let fatal : f ≡ panicked = cc in safe (q ∙ ap err fatal),
        ))
        (λ x e. IsWalked-cons i n next t out (k out) others (reached x e) (rest sound_out))

  pub walk-IsWalked :
      (u : U) (i : ℕ) (advanced : Bool) (previous next : List MemberSnapshot) (t : Trace Reason)
      → IsPaired previous next
      → IsSeen u i next
      → IsTracked i previous t
      → IsSound t
      → IsWalked i next t (walk unit host u i advanced previous next t)
  unfolding walk
  walk-IsWalked u i advanced [] [] t paired seen tracked sound =
      (sound, λ j h. refl, λ a e. tt, λ e. cc)
  walk-IsWalked u i advanced [] (n ∷ next) t paired seen tracked sound = absurd paired
  walk-IsWalked u i advanced (p ∷ previous) [] t paired seen tracked sound = absurd paired
  walk-IsWalked u i advanced (p ∷ previous) (n ∷ next) t paired seen tracked sound =
      let (view, exposed, same, completed) = seen.0 in
      let failed : (e : TaskError Fault)
          → e ≢ panicked
          → IsWalked {A = Bool} i (n ∷ next) t (err e, t) =
        λ e other. (sound, λ j h. refl, λ a q. cc, λ q. other (cc)) in
      rw exposed (elim (Bool-cases p.complete) [
        | inl was ↦ simp was (elim (Bool-cases n.complete) [
          | inr undone ↦ simp undone (failed (contract (completion_reversed n.identity)) (λ q. cc))
          | inl done_ ↦ simp done_ (elim (Bool-cases (n.iteration == p.iteration)) [
            | inr moved ↦ simp moved (
                failed (contract (completed_member_advanced n.identity p.iteration n.iteration))
                  (λ q. cc))
            | inl still ↦ simp still (
                IsWalked-cons i n next t t _ (λ j o. refl)
                  (tracked.0 ∙ phase-same p n was done_ still)
                  (walk-IsWalked u (i + 1) advanced previous next t paired seen.1 tracked.1 sound))
          ])
        ])
        | inr open_ ↦ simp open_ (elim (Bool-cases (ltb n.iteration p.iteration)) [
          | inl back ↦
              simp back (
                failed (contract (iteration_regressed n.identity p.iteration n.iteration))
                  (λ q. cc))
          | inr grows ↦ simp grows (
              let here : status i t ≡ at p.iteration = tracked.0 ∙ phase-open p open_ in
              let le : p.iteration ≤ n.iteration = grind arith in
              IsWalked-member i n next t (observe_member unit host i view p n)
                (walk unit host u (i + 1) (advanced || ltb p.iteration n.iteration) previous next)
                (observe_member-same unit host i view p n t here le same completed) sound
                (observe_member-status unit host i view p n t here le same completed)
                (observe_member-phase unit host i view p n t here le same completed)
                (observe_member-ne-panicked unit host i view p n t here le same completed)
                (λ sound_out.
                  walk-IsWalked u (i + 1) (advanced || ltb p.iteration n.iteration) previous next
                    (observe_member unit host i view p n t).1 paired seen.1
                    (IsTracked-later (i + 1) previous t (observe_member unit host i view p n t).1
                      (λ j h.
                        observe_member-same unit host i view p n t here le same completed j
                          (grind arith))
                      tracked.1)
                    sound_out))
        ])
      ])

  pub begin_members-IsWalked :
      (u : U) (i : ℕ) (members : List MemberSnapshot) (t : Trace Reason)
      → IsSeen u i members
      → ((j : ℕ) → i ≤ j → status j t ≡ absent)
      → IsSound t
      → IsWalked i members t (begin_members unit host u i members t)
  unfolding begin_members
  begin_members-IsWalked u i [] t seen fresh sound = (sound, λ j h. refl, λ a e. tt, λ e. cc)
  begin_members-IsWalked u i (m ∷ members) t seen fresh sound =
      let (view, exposed, same, completed) = seen.0 in
      let here : status i t ≡ absent = fresh i (omega arith) in
      simp exposed (
        IsWalked-member i m members t (begin_member unit host i view m)
          (begin_members unit host u (i + 1) members)
          (begin_member-same unit host i view m t here same completed) sound
          (begin_member-status unit host i view m t here same completed)
          (begin_member-phase unit host i view m t here same completed)
          (begin_member-ne-panicked unit host i view m t here same completed)
          (λ sound_out.
            begin_members-IsWalked u (i + 1) members (begin_member unit host i view m t).1 seen.1
              (λ j h.
                begin_member-same unit host i view m t here same completed j (grind arith)
                ∙ fresh j (omega arith))
              sound_out))
