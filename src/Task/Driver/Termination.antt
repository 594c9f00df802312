-- ===== src/Task/Driver/Termination.antt =====
-- The loop of rust/src/task/execution.rs ends: iterations are 64-bit and each round advances one.
use scientific_workflow.Prelude.{
  ok-injective, ℕ, zero, suc, ◌+◌, ◌*◌, ◌<◌, ◌≡◌, ◌≢◌, refl, sym, subst, ◌∙◌, false, not, some,
  Result, ok, err, List, [], ◌∷◌, any, length, arith, Bool-cases, inl, inr,
}
use scientific_workflow.Prelude.Texts.{Text}
use scientific_workflow.Task.Execution.{
  MemberView, ExecutionUnit, checkpoint, asked, Trace, Host, TaskError, out_of_fuel, out_of_fuel,
  MemberSnapshot, required_member,
}
use scientific_workflow.Task.Driver.{
  Run, begin_members, walk, compute_step, checked_members, settle, compare_members, after_step,
  round, drive, admit_members, start, live, host_members, after_start, execute,
}
use scientific_workflow.Task.Driver.Walk.{IsPaired, IsSeen}
use scientific_workflow.Task.Driver.Executions.{start-initialize}
use scientific_workflow.Task.Driver.Inspection.{
  checked_members-inspected, inspect_members-IsSeen, inspect_initial_members-IsSeen,
  admit_members-inspected,
}
use scientific_workflow.Task.Driver.Protocol.{bind-elim, err-injective}
use scientific_workflow.Task.Driver.Distance.{
  u64_bound, distance, IsBounded, distance-le, walk-distance, walk-ne-out_of_fuel,
  begin_members-ne-out_of_fuel,
}

module _ (unit : ExecutionUnit) (host : Host unit.Fault unit.Reason) where
  open unit use {U, Fault, Reason, member, member_count, initialize}

  -- Where the members stand after a round that succeeds: nearer to the bound.
  abbrev pub IsNearer :
      ℕ → Result (TaskError Fault) (U × List MemberSnapshot) × Trace Reason → Type 0
  IsNearer d (r, u) =
      (r ≢ err out_of_fuel) × ((turn : U × List MemberSnapshot) → r ≡ ok turn → distance turn.1 < d)

  module _
      (fits : (u : U) (i : ℕ) (view : MemberView Reason)
        → member u i ≡ some view
        → view.iteration < u64_bound) where
    seen-IsBounded :
        (u : U) (i : ℕ) (members : List MemberSnapshot)
        → IsSeen unit host u i members
        → IsBounded members
    unfolding required_member
    seen-IsBounded u i [] seen = tt
    seen-IsBounded u i (m ∷ members) ((view, exposed, same, completed), seen) = (
      let there : member u i ≡ some view = ground arith in
          subst (λ x. x < u64_bound) same (fits u i view there),
      seen-IsBounded u (i + 1) members seen,
    )

    compare_members-IsNearer :
        (v : U) (members next : List MemberSnapshot) (t : Trace Reason)
        → IsPaired members next
        → IsSeen unit host v 0 next
        → IsNearer (distance members) (compare_members unit host v members next t)
    unfolding compare_members settle
    compare_members-IsNearer v members next t paired seen =
        bind-elim unit host (IsNearer (distance members)) t (walk unit host v 0 false members next)
          (settle unit host v next)
          (λ f e. (
            λ q.
                walk-ne-out_of_fuel unit host v 0 false members next t
                  (e ∙ err-injective unit host q),
            λ turn q. cc,
          ))
          (λ advanced e.
            let (le, lt) =
              walk-distance unit host v 0 false members next t advanced paired
                (seen-IsBounded v 0 next seen) e in
            elim (Bool-cases advanced) [
              | inr still ↦ (λ q. ground arith, λ turn q. absurd (ground arith))
              | inl moved ↦ (
                λ q. ground arith,
                λ turn q.
                    let same : next ≡ turn.1 = ground arith in
                    subst (λ l. distance l < distance members) same (lt refl moved),
              )
            ])

    checked_members-ne-out_of_fuel :
        (schema count : ℕ) (v : U) (members : List MemberSnapshot) (t : Trace Reason)
        → (checked_members unit host schema count v members t).0 ≢ err out_of_fuel
    unfolding checked_members
    checked_members-ne-out_of_fuel schema count v members t e = ground arith

    compute_step-ne-out_of_fuel :
        (u : U) (t : Trace Reason) → (compute_step unit host u t).0 ≢ err out_of_fuel
    unfolding compute_step
    compute_step-ne-out_of_fuel u t e = ground arith

    round-IsNearer :
        (schema count : ℕ) (u : U) (members : List MemberSnapshot) (t : Trace Reason)
        → IsNearer (distance members) (round unit host schema count u members t)
    unfolding round after_step
    round-IsNearer schema count u members t =
        bind-elim unit host (IsNearer (distance members)) t (compute_step unit host u)
          (after_step unit host schema count members)
          (λ f e.
            (λ q. compute_step-ne-out_of_fuel u t (e ∙ err-injective unit host q), λ turn q. cc))
          (λ v e.
            let t1 = (compute_step unit host u t).1 in
            bind-elim unit host (IsNearer (distance members)) t1
              (checked_members unit host schema count v members)
              (λ next. compare_members unit host v members next)
              (λ f e1. (
                λ q.
                    checked_members-ne-out_of_fuel schema count v members t1
                      (e1 ∙ err-injective unit host q),
                λ turn q. cc,
              ))
              (λ next e1.
                let (paired, seen) =
                  inspect_members-IsSeen unit host v schema 0 members next
                    (checked_members-inspected unit host schema count v members next t1 e1) in
                compare_members-IsNearer v members next
                  (checked_members unit host schema count v members t1).1 paired seen))

    drive-ne-out_of_fuel :
        (fuel schema count : ℕ) (u : U) (members : List MemberSnapshot) (t : Trace Reason)
        → distance members < fuel
        → (drive unit host fuel schema count u members t).0 ≢ err out_of_fuel
    unfolding drive
    drive-ne-out_of_fuel zero schema count u members t enough = absurd (omega arith)
    drive-ne-out_of_fuel (suc fuel) schema count u members t enough =
        elim (Bool-cases (any (λ m. not m.complete) members)) [
          | inr over ↦ rw over (λ q. cc)
          | inl more ↦ rw more (elim (Bool-cases (host.cancellation_requested (checkpoint ∷ t))) [
            | inl stop ↦ rw stop (λ q. cc)
            | inr go ↦ rw go (
                let t1 : Trace Reason = asked ∷ checkpoint ∷ t in
                let (safe, nearer) = round-IsNearer schema count u members t1 in
                bind-elim unit host (λ out. out.0 ≢ err out_of_fuel) t1
                  (round unit host schema count u members)
                  (λ turn. drive unit host fuel schema count turn.0 turn.1)
                  (λ f e q. safe (e ∙ err-injective unit host q))
                  (λ turn e.
                    let lt = nearer turn e in
                    drive-ne-out_of_fuel fuel schema count turn.0 turn.1
                      (round unit host schema count u members t1).1 (omega arith)))
          ])
        ]

    admit_members-ne-out_of_fuel :
        (schema : ℕ) (u : U) (requests : List Text) (t : Trace Reason)
        → (admit_members unit host schema u requests t).0 ≢ err out_of_fuel
    unfolding admit_members
    admit_members-ne-out_of_fuel schema u requests t e = ground arith

    start-ne-out_of_fuel : (t : Trace Reason) → (start unit host t).0 ≢ err out_of_fuel
    unfolding start
    start-ne-out_of_fuel t e = ground arith

    host_members-ne-out_of_fuel :
        (fuel schema : ℕ) (u : U) (members : List MemberSnapshot) (t : Trace Reason)
        → length members * u64_bound < fuel
        → (host_members unit host fuel schema u members t).0 ≢ err out_of_fuel
    unfolding host_members live
    host_members-ne-out_of_fuel fuel schema u members t enough =
        elim (Bool-cases (host.cancellation_requested (checkpoint ∷ t))) [
          | inl stop ↦ rw stop (λ q. cc)
          | inr go ↦ rw go (
              let t1 : Trace Reason = asked ∷ checkpoint ∷ t in
              let far = distance-le members in
              bind-elim unit host (λ out. out.0 ≢ err out_of_fuel) t1
                (begin_members unit host u 0 members)
                (λ x. drive unit host fuel schema (member_count u) u members)
                (λ f e q.
                  begin_members-ne-out_of_fuel unit host u 0 members t1
                    (e ∙ err-injective unit host q))
                (λ x e.
                  drive-ne-out_of_fuel fuel schema (member_count u) u members
                    (begin_members unit host u 0 members t1).1 (omega arith)))
        ]

    after_start-ne-out_of_fuel :
        (fuel schema : ℕ) (u : U) (requests : List Text) (t : Trace Reason)
        → member_count u * u64_bound < fuel
        → (after_start unit host fuel schema (u, requests) t).0 ≢ err out_of_fuel
    unfolding after_start
    after_start-ne-out_of_fuel fuel schema u requests t enough =
        let admitted : Run Fault Reason (List MemberSnapshot) =
          admit_members unit host schema u requests in
        bind-elim unit host (λ out. out.0 ≢ err out_of_fuel) t admitted
          (host_members unit host fuel schema u)
          (λ f e q.
            admit_members-ne-out_of_fuel schema u requests t (e ∙ err-injective unit host q))
          (λ members e.
            let (seen, many) =
              inspect_initial_members-IsSeen unit host u schema 0 (member_count u) [] [] members
                (admit_members-inspected unit host schema u requests members t e) in
            let far = distance-le members in
            host_members-ne-out_of_fuel fuel schema u members (admitted t).1
              (subst (λ n. n * u64_bound < fuel) (sym many) enough))

    -- The loop ends: iterations are 64-bit numbers and every round advances one, so that a run with
    -- fuel for 2 ^ 64 rounds for each member does not use it up.
    pub execute-ne-out_of_fuel :
        (fuel schema : ℕ) (u : U) (requests : List Text)
        → initialize ≡ ok (u, requests)
        → member_count u * u64_bound < fuel
        → (execute unit host fuel schema []).0 ≢ err out_of_fuel
    unfolding execute
    execute-ne-out_of_fuel fuel schema u requests started enough =
        elim (Bool-cases (host.cancellation_requested (checkpoint ∷ []))) [
          | inl stop ↦ rw stop (λ q. cc)
          | inr go ↦ rw go (
              let t1 : Trace Reason = asked ∷ checkpoint ∷ [] in
              bind-elim unit host (λ out. out.0 ≢ err out_of_fuel) t1 (start unit host)
                (after_start unit host fuel schema)
                (λ f e q. start-ne-out_of_fuel t1 (e ∙ err-injective unit host q))
                (λ a e.
                  let same : (u, requests) ≡ a =
                    ok-injective (sym started ∙ start-initialize unit host t1 a e) in
                  subst
                    (λ b.
                      (after_start unit host fuel schema b (start unit host t1).1).0
                      ≢ err out_of_fuel)
                    same
                    (after_start-ne-out_of_fuel fuel schema u requests (start unit host t1).1
                      enough)))
        ]
