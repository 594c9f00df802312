-- ===== src/Task/Driver/Executions.antt =====
-- `ExecutionUnitDefinition::execute` of rust/src/task/execution.rs from its first call to its end.
use scientific_workflow.Prelude.{
  ok-injective, ℕ, ◌<◌, ◌≡◌, ◌≢◌, refl, sym, subst, ap, ◌∙◌, true, false, ok, err, List, [], ◌∷◌,
  length, arith, Bool-cases, Result-cases, inl, inr,
}
use scientific_workflow.Prelude.Texts.{Text}
use scientific_workflow.Task.Execution.{
  ExecutionUnit, checkpoint, asked, Trace, Host, panicked, MemberSnapshot,
}
use scientific_workflow.Task.Driver.{
  Run, begin_members, drive, admit_members, start, live, host_members, after_start, execute,
}
use scientific_workflow.Task.Driver.Lifecycle.{absent, status, IsSound}
use scientific_workflow.Task.Driver.Walk.{IsSeen, begin_members-IsWalked}
use scientific_workflow.Task.Driver.Inspection.{
  is_done, start-IsSilent, admit_members-IsSilent, admit_members-inspected,
  inspect_initial_members-IsSeen,
}
use scientific_workflow.Task.Driver.Protocol.{
  IsLived, bind-elim, err-injective, silent-IsSound, drive-IsLived,
}

module _ (unit : ExecutionUnit) (host : Host unit.Fault unit.Reason) where
  open unit use {U, Fault, Reason, member_count, initialize}

  live-IsLived :
      (fuel schema : ℕ) (u : U) (members : List MemberSnapshot) (t : Trace Reason)
      → IsSeen unit host u 0 members
      → ((j : ℕ) → status j t ≡ absent)
      → IsSound t
      → IsLived unit host (length members) (live unit host fuel schema u members t)
  unfolding live
  live-IsLived fuel schema u members t seen fresh sound =
      let begun : Run Fault Reason (Unit {0}) = begin_members unit host u 0 members in
      let (sound_out, before, tracked, safe) =
        begin_members-IsWalked unit host u 0 members t seen (λ j h. fresh j) sound in
      bind-elim unit host (IsLived unit host (length members)) t begun
        (λ x. drive unit host fuel schema (member_count u) u members)
        (λ f e. (sound_out, λ q. safe (e ∙ err-injective unit host q), λ quiet x q. cc))
        (λ x e.
          drive-IsLived unit host fuel schema (member_count u) u members (begun t).1 (tracked x e)
            sound_out)

  host_members-IsLived :
      (fuel schema : ℕ) (u : U) (members : List MemberSnapshot) (t : Trace Reason)
      → IsSeen unit host u 0 members
      → ((j : ℕ) → status j t ≡ absent)
      → IsSound t
      → IsLived unit host (length members) (host_members unit host fuel schema u members t)
  unfolding host_members
  host_members-IsLived fuel schema u members t seen fresh sound =
      elim (Bool-cases (host.cancellation_requested (checkpoint ∷ t))) [
        | inl stop ↦
            rw stop
              (sound, λ q. cc, λ quiet x q j lt. let never = quiet (checkpoint ∷ t) in absurd cc)
        | inr go ↦
            rw go (live-IsLived fuel schema u members (asked ∷ checkpoint ∷ t) seen fresh sound)
      ]

  after_start-IsLived :
      (fuel schema : ℕ) (u : U) (requests : List Text) (t : Trace Reason)
      → ((j : ℕ) → status j t ≡ absent)
      → IsSound t
      → IsLived unit host (member_count u) (after_start unit host fuel schema (u, requests) t)
  unfolding after_start
  after_start-IsLived fuel schema u requests t fresh sound =
      let admitted : Run Fault Reason (List MemberSnapshot) =
        admit_members unit host schema u requests in
      let silent = admit_members-IsSilent unit host schema u requests t in
      let sound_out = silent-IsSound unit host t (admitted t) silent sound in
      bind-elim unit host (IsLived unit host (member_count u)) t admitted
        (host_members unit host fuel schema u)
        (λ f e. (sound_out, λ q. silent.1 (e ∙ err-injective unit host q), λ quiet x q. cc))
        (λ members e.
          let (seen, many) =
            inspect_initial_members-IsSeen unit host u schema 0 (member_count u) [] [] members
              (admit_members-inspected unit host schema u requests members t e) in
          subst
            (λ n. IsLived unit host n (host_members unit host fuel schema u members (admitted t).1))
            many
            (host_members-IsLived fuel schema u members (admitted t).1 seen
              (λ j. silent.0 j ∙ fresh j) sound_out))

  pub start-initialize :
      (t : Trace Reason) (a : U × List Text) → (start unit host t).0 ≡ ok a → initialize ≡ ok a
  unfolding start
  start-initialize t a e = ground arith

  execute-IsLived :
      (n fuel schema : ℕ)
      → ((a : U × List Text) → initialize ≡ ok a → member_count a.0 ≡ n)
      → IsLived unit host n (execute unit host fuel schema [])
  unfolding execute
  execute-IsLived n fuel schema counted =
      let t1 : Trace Reason = asked ∷ checkpoint ∷ [] in
      elim (Bool-cases (host.cancellation_requested (checkpoint ∷ []))) [
        | inl stop ↦
            rw stop (
              λ j. refl,
              λ q. cc,
              λ quiet x q j lt. let never = quiet (checkpoint ∷ []) in absurd cc,
            )
        | inr go ↦ rw go (
            let silent = start-IsSilent unit host t1 in
            let sound_out = silent-IsSound unit host t1 (start unit host t1) silent (λ j. refl) in
            bind-elim unit host (IsLived unit host n) t1 (start unit host)
              (after_start unit host fuel schema)
              (λ f e. (sound_out, λ q. silent.1 (e ∙ err-injective unit host q), λ quiet x q. cc))
              (λ a e.
                subst
                  (λ m.
                    IsLived unit host m
                      (after_start unit host fuel schema a (start unit host t1).1))
                  (counted a (start-initialize t1 a e))
                  (after_start-IsLived fuel schema a.0 a.1 (start unit host t1).1 silent.0
                    sound_out)))
      ]

  execute-lived :
      (fuel schema : ℕ)
      → IsSound (execute unit host fuel schema []).1
        × ((execute unit host fuel schema []).0 ≢ err panicked)
  execute-lived fuel schema = elim (Result-cases initialize) [
    | inl (a, e) ↦
        let (sound, safe, done_) =
          execute-IsLived (member_count a.0) fuel schema
            (λ b q. ap (λ (c : U × List Text). member_count c.0) (ok-injective (sym q ∙ e))) in
        (sound, safe)
    | inr (f, e) ↦
        let (sound, safe, done_) = execute-IsLived 0 fuel schema (λ b q. absurd cc) in (sound, safe)
  ]

  -- Whatever the unit does and the host answers, and however the run ends: what the host has heard
  -- of each member is a beginning, then steps at growing iterations, then at most one final report,
  -- of the iteration last reported; nothing else, and nothing after it.
  pub execute-IsSound : (fuel schema : ℕ) → IsSound (execute unit host fuel schema []).1
  execute-IsSound fuel schema = (execute-lived fuel schema).0

  -- The `expect` that a completed member exposes its completion never fails.
  pub execute-ne-panicked : (fuel schema : ℕ) → (execute unit host fuel schema []).0 ≢ err panicked
  execute-ne-panicked fuel schema = (execute-lived fuel schema).1

  -- A run that succeeds and was never asked to cancel has reported the end of every member.
  pub execute-is_done :
      (fuel schema : ℕ) (u : U) (requests : List Text)
      → initialize ≡ ok (u, requests)
      → ((t : Trace Reason) → host.cancellation_requested t ≡ false)
      → (execute unit host fuel schema []).0 ≡ ok tt
      → (j : ℕ) → j < member_count u
      → is_done (status j (execute unit host fuel schema []).1) ≡ true
  execute-is_done fuel schema u requests e quiet success j lt =
      (execute-IsLived (member_count u) fuel schema
          (λ b q. ap (λ (c : U × List Text). member_count c.0) (ok-injective (sym q ∙ e)))).2
        quiet tt success j lt
