-- ===== src/Task/Driver/Protocol.antt =====
-- The whole run of a task by rust/src/task/execution.rs, as its members' lives.
use scientific_workflow.Prelude.{
  ok-injective, ℕ, zero, suc, ◌<◌, ◌≡◌, ◌≢◌, refl, sym, subst, ap, ◌∙◌, Bool, true, false, not,
  Result, ok, err, List, [], ◌∷◌, any, length, arith, Bool-cases, Result-cases, inl, inr,
}
use scientific_workflow.Task.Execution.{
  ExecutionUnit, checkpoint, asked, Trace, Host, TaskError, panicked, out_of_fuel, MemberSnapshot,
}
use scientific_workflow.Task.Driver.{
  Run, ◌>>=◌, walk, compute_step, checked_members, settle, compare_members, after_step, round,
  drive,
}
use scientific_workflow.Task.Driver.Lifecycle.{status, is_broken, IsSound}
use scientific_workflow.Task.Driver.Walk.{
  IsTracked, IsTracked-later, IsPaired, IsSeen, walk-IsWalked,
}
use scientific_workflow.Task.Driver.Inspection.{
  is_done, tracked-is_done, inspect_members-IsSeen, IsSilent, compute_step-IsSilent,
  checked_members-IsSilent, checked_members-inspected,
}

module _ (unit : ExecutionUnit) (host : Host unit.Fault unit.Reason) where
  open unit use {U, Fault, Reason, member, member_count, initialize}

  -- How a run that began with `n` members ends.
  abbrev pub IsLived : ℕ → Result (TaskError Fault) (Unit {0}) × Trace Reason → Type 0
  IsLived n (r, u) =
      IsSound u
      × (r ≢ err panicked)
      × (((t : Trace Reason) → host.cancellation_requested t ≡ false)
          → (x : Unit {0}) → r ≡ ok x
          → (j : ℕ) → j < n
          → is_done (status j u) ≡ true)

  pub IsLived-err :
      (n : ℕ) (e : TaskError Fault) (t : Trace Reason)
      → IsSound t
      → e ≢ panicked
      → IsLived n (err e, t)
  IsLived-err n e t sound other = (sound, λ q. other cc, λ quiet x q. cc)

  -- A property of what a run leaves holds of two runs in a row, if it holds of a first that fails
  -- and of the second after a first that does not.
  pub bind-elim :
      {A B : Type 0} (P : Result (TaskError Fault) B × Trace Reason → Type 0) (t : Trace Reason)
      (m : Run Fault Reason A) (k : A → Run Fault Reason B)
      → ((f : TaskError Fault) → (m t).0 ≡ err f → P (err f, (m t).1))
      → ((a : A) → (m t).0 ≡ ok a → P (k a (m t).1))
      → P ((m >>= k) t)
  bind-elim {A = A} {B = B} P t m k failed done_ =
      let step : Result (TaskError Fault) A → Result (TaskError Fault) B × Trace Reason =
        λ r. elim r [ ok a ↦ k a (m t).1 | err g ↦ (err g, (m t).1) ] in
      elim (Result-cases (m t).0) [
        | inr (f, e) ↦ subst (λ r. P (step r)) (sym e) (failed f e)
        | inl (a, e) ↦ subst (λ r. P (step r)) (sym e) (done_ a e)
      ]

  pub err-injective :
      {A B : Type 0} {e f : TaskError Fault}
      → ◌≡◌ {A = Result (TaskError Fault) A} (err e) (err f)
      → ◌≡◌ {A = Result (TaskError Fault) B} (err e) (err f)
  err-injective q = cc

  IsPaired-length :
      (previous next : List MemberSnapshot) → IsPaired previous next → length next ≡ length previous
  IsPaired-length [] [] h = refl
  IsPaired-length [] (n ∷ next) h = absurd h
  IsPaired-length (p ∷ previous) [] h = absurd h
  IsPaired-length (p ∷ previous) (n ∷ next) h = ap suc (IsPaired-length previous next h)

  pub silent-IsSound :
      {A : Type 0} (t : Trace Reason) (out : Result (TaskError Fault) A × Trace Reason)
      → IsSilent unit host t out
      → IsSound t
      → IsSound out.1
  silent-IsSound t out (same, safe) sound j = ap is_broken (same j) ∙ sound j

  -- A round leaves a sound trace and, if it succeeds, snapshots that its calls agree with.
  abbrev pub IsTurned :
      ℕ → Result (TaskError Fault) (U × List MemberSnapshot) × Trace Reason → Type 0
  IsTurned n (r, u) =
      IsSound u
      × (r ≢ err panicked)
      × ((turn : U × List MemberSnapshot)
          → r ≡ ok turn
          → IsTracked 0 turn.1 u × (length turn.1 ≡ n))

  settle-IsTurned :
      (v : U) (next : List MemberSnapshot) (advanced : Bool) (t : Trace Reason)
      → IsTracked 0 next t
      → IsSound t
      → IsTurned (length next) (settle unit host v next advanced t)
  unfolding settle
  settle-IsTurned v next true t tracked sound = (
    sound,
    λ q. cc,
    λ turn e.
        let same : (v, next) ≡ turn = ok-injective e in
        subst (λ (w : U × List MemberSnapshot). IsTracked 0 w.1 t × (length w.1 ≡ length next)) same
          (tracked, refl),
  )
  settle-IsTurned v next false t tracked sound = (sound, λ q. cc, λ turn e. cc)

  compare_members-IsTurned :
      (v : U) (members next : List MemberSnapshot) (t : Trace Reason)
      → IsPaired members next
      → IsSeen unit host v 0 next
      → IsTracked 0 members t
      → IsSound t
      → IsTurned (length next) (compare_members unit host v members next t)
  unfolding compare_members
  compare_members-IsTurned v members next t paired seen tracked sound =
      let (sound_out, before, then_, safe) =
        walk-IsWalked unit host v 0 false members next t paired seen tracked sound in
      bind-elim (IsTurned (length next)) t (walk unit host v 0 false members next)
        (settle unit host v next)
        (λ f e. (sound_out, λ q. safe (e ∙ err-injective q), λ turn q. cc))
        (λ advanced e.
          settle-IsTurned v next advanced (walk unit host v 0 false members next t).1
            (then_ advanced e) sound_out)

  after_step-IsTurned :
      (schema count : ℕ) (members : List MemberSnapshot) (v : U) (t : Trace Reason)
      → IsTracked 0 members t
      → IsSound t
      → IsTurned (length members) (after_step unit host schema count members v t)
  unfolding after_step
  after_step-IsTurned schema count members v t tracked sound =
      let checks : Run Fault Reason (List MemberSnapshot) =
        checked_members unit host schema count v members in
      let silent = checked_members-IsSilent unit host schema count v members t in
      let sound_out = silent-IsSound t (checks t) silent sound in
      bind-elim (IsTurned (length members)) t checks
        (λ next. compare_members unit host v members next)
        (λ f e. (sound_out, λ q. silent.1 (e ∙ err-injective q), λ turn q. cc))
        (λ next e.
          let (paired, seen) =
            inspect_members-IsSeen unit host v schema 0 members next
              (checked_members-inspected unit host schema count v members next t e) in
          subst (λ n. IsTurned n (compare_members unit host v members next (checks t).1))
            (IsPaired-length members next paired)
            (compare_members-IsTurned v members next (checks t).1 paired seen
              (IsTracked-later 0 members t (checks t).1 (λ j h. silent.0 j) tracked) sound_out))

  round-IsTurned :
      (schema count : ℕ) (u : U) (members : List MemberSnapshot) (t : Trace Reason)
      → IsTracked 0 members t
      → IsSound t
      → IsTurned (length members) (round unit host schema count u members t)
  unfolding round
  round-IsTurned schema count u members t tracked sound =
      let silent = compute_step-IsSilent unit host u t in
      let sound_out = silent-IsSound t (compute_step unit host u t) silent sound in
      bind-elim (IsTurned (length members)) t (compute_step unit host u)
        (after_step unit host schema count members)
        (λ f e. (sound_out, λ q. silent.1 (e ∙ err-injective q), λ turn q. cc))
        (λ v e.
          after_step-IsTurned schema count members v (compute_step unit host u t).1
            (IsTracked-later 0 members t (compute_step unit host u t).1 (λ j h. silent.0 j) tracked)
            sound_out)

  pub drive-IsLived :
      (fuel schema count : ℕ) (u : U) (members : List MemberSnapshot) (t : Trace Reason)
      → IsTracked 0 members t
      → IsSound t
      → IsLived (length members) (drive unit host fuel schema count u members t)
  unfolding drive
  drive-IsLived zero schema count u members t tracked sound =
      IsLived-err (length members) out_of_fuel t sound (λ q. cc)
  drive-IsLived (suc fuel) schema count u members t tracked sound =
      let n = length members in
      let t1 : Trace Reason = asked ∷ checkpoint ∷ t in
      elim (Bool-cases (any (λ m. not m.complete) members)) [
        | inr over ↦ rw over (
          sound,
          λ q. cc,
          λ quiet x q j lt. tracked-is_done 0 members t tracked over j (omega arith) (omega arith),
        )
        | inl more ↦ rw more (elim (Bool-cases (host.cancellation_requested (checkpoint ∷ t))) [
          | inl stop ↦
              rw stop
                (sound, λ q. cc, λ quiet x q j lt. let never = quiet (checkpoint ∷ t) in absurd cc)
          | inr go ↦ rw go (
              let (sound_out, safe, turned) =
                round-IsTurned schema count u members t1
                  (IsTracked-later 0 members t t1 (λ j h. refl) tracked) sound in
              bind-elim (IsLived n) t1 (round unit host schema count u members)
                (λ turn. drive unit host fuel schema count turn.0 turn.1)
                (λ f e. (sound_out, λ q. safe (e ∙ err-injective q), λ quiet x q. cc))
                (λ turn e.
                  let (tracked_, same) = turned turn e in
                  subst
                    (λ l. IsLived l (
                      drive unit host fuel schema count turn.0 turn.1
                        (round unit host schema count u members t1).1))
                    same
                    (drive-IsLived fuel schema count turn.0 turn.1
                      (round unit host schema count u members t1).1 tracked_ sound_out)))
        ])
      ]
